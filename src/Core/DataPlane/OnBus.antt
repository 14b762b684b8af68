-- ===== src/Core/DataPlane/OnBus.antt =====
-- data_plane.cpp with local_bus.cpp: each TCP sink of the table stands on the bus.
use mini_middleware.Prelude.{
  inl, inr, ℕ, ◌≡◌, ◌≢◌, refl, sym, ◌∙◌, ap, subst, List, [], ◌∷◌, ◌++◌, Bool, true, Option, none,
  some, Bytes, bytes_eq, bytes_eq_iff, ◌==◌, ==_iff, if◌then◌else◌, Has, Has-append_left,
  Has-append_right, Bool-cases, bytes_key, nat_key, arith,
}
use mini_middleware.Prelude.Dict.{find, insert, find-insert}
use mini_middleware.Core.LocalBus.{
  Bus, TopicEntry, entry_or_empty, add_remote_sink, remove_remote_sink, remove_entry, remove_sink,
}

abbrev pub remote_part : Option TopicEntry → List ℕ
remote_part none = []
remote_part (some e) = e.remote_sinks

-- The remote sinks of a topic.
abbrev pub remotes_of : Bus → Bytes → List ℕ
remotes_of bus topic = remote_part (find topic bus)

-- Nothing is taken off the bus.
abbrev pub Grows : Bus → Bus → Type 0
Grows bus bus' = (t : Bytes) (x : ℕ) → Has x (remotes_of bus t) → Has x (remotes_of bus' t)

remotes-insert :
    (topic t : Bytes) (e : TopicEntry) (bus : Bus)
    → remotes_of (insert topic e bus) t
      ≡ (if bytes_eq topic t then e.remote_sinks else remotes_of bus t)
remotes-insert topic t e bus = ground (arith, find-insert topic t e bus)

pub entry-remotes : (o : Option TopicEntry) → (entry_or_empty o).remote_sinks ≡ remote_part o
entry-remotes none = refl
entry-remotes (some e) = refl

-- An entry that is written with at least the remote sinks that there were.
pub insert-Grows :
    (bus : Bus) (topic : Bytes) (e : TopicEntry)
    → ((x : ℕ) → Has x (remotes_of bus topic) → Has x e.remote_sinks)
    → Grows bus (insert topic e bus)
insert-Grows bus topic e keeps t x h =
    subst (Has x) (sym (remotes-insert topic t e bus)) (elim (Bool-cases (bytes_eq topic t)) [
      | inl same ↦ rw same (
          keeps x (
            subst (λ (u : Bytes). Has x (remotes_of bus u)) (sym ((bytes_eq_iff topic t).0 same))
              h))
      | inr other ↦ rw other h
    ])

pub add_remote_sink-Grows :
    (bus : Bus) (topic : Bytes) (s : ℕ) → Grows bus (add_remote_sink bus topic s)
unfolding add_remote_sink
add_remote_sink-Grows bus topic s = insert-Grows bus topic _ (λ x h.
    Has-append_left x (entry_or_empty (find topic bus)).remote_sinks (s ∷ [])
      (subst (Has x) (sym (entry-remotes (find topic bus))) h))

pub add_remote_sink-Has :
    (bus : Bus) (topic : Bytes) (s : ℕ) → Has s (remotes_of (add_remote_sink bus topic s) topic)
unfolding add_remote_sink
add_remote_sink-Has bus topic s =
    let e = entry_or_empty (find topic bus) in
    let e' : TopicEntry = record e { remote_sinks = e.remote_sinks ++ (s ∷ []) } in
    subst (Has s)
      (sym (remotes-insert topic topic e' bus ∙ ground (arith, bytes_eq_iff topic topic)))
      (Has-append_right s e.remote_sinks (s ∷ []) (inl refl))

-- While the sinks of the data plane live, taking one off leaves the others.
abbrev pub all_live : ℕ → Bool
all_live s = true

remove_sink-Has : (s x : ℕ) (ss : List ℕ) → x ≢ s → Has x ss → Has x (remove_sink all_live s ss)
unfolding remove_sink
remove_sink-Has s x [] ne h = h
remove_sink-Has s x (y ∷ ss) ne h = elim (Bool-cases (y == s)) [
  | inl gone ↦ rw gone (elim h [
    | inl e ↦ absurd (ne (e ∙ (==_iff y s).0 gone))
    | inr later ↦ remove_sink-Has s x ss ne later
  ])
  | inr stays ↦
      rw stays (elim h [ inl e ↦ inl e | inr later ↦ inr (remove_sink-Has s x ss ne later) ])
]

pub remove_remote_sink-Has :
    (bus : Bus) (topic : Bytes) (s : ℕ) (t : Bytes) (x : ℕ)
    → x ≢ s
    → Has x (remotes_of bus t)
    → Has x (remotes_of (remove_remote_sink all_live bus topic s) t)
unfolding remove_remote_sink
remove_remote_sink-Has bus topic s t x ne h = go (find topic bus) refl
  where
    go :
        (o : Option TopicEntry)
        → find topic bus ≡ o
        → Has x (remotes_of (remove_entry all_live bus topic o s) t)
    go none f = h
    go (some e) f =
        subst (Has x) (sym (remotes-insert topic t _ bus)) (elim (Bool-cases (bytes_eq topic t)) [
          | inl same ↦ rw same (
              remove_sink-Has s x e.remote_sinks ne (
                subst (Has x) (ap remote_part f) (
                  subst (λ (u : Bytes). Has x (remotes_of bus u))
                    (sym ((bytes_eq_iff topic t).0 same)) h)))
          | inr other ↦ rw other h
        ])
