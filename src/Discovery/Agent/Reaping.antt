-- ===== src/Discovery/Agent/Reaping.antt =====
-- discovery_agent.cpp: the matches that go with lost participants, against the calls for them.
use mini_middleware.Prelude.{
  ◌-◌, ◌≢◌, ◌⊎◌, ltb, ==_iff, All, All-map, Has, inl, inr, ℕ, ◌≡◌, refl, sym, ap, subst, List, [],
  ◌∷◌, ◌++◌, map, Bool, true, false, Option, none, some, Bytes, bytes_eq_iff, ◌==◌, bytes_key,
  nat_key, arith, Bool-cases,
}
use mini_middleware.Prelude.Dict.{Dict, find}
use mini_middleware.Discovery.Endpoint.{MatchInfo}
use mini_middleware.Discovery.Agent.{
  Remote, on_unmatch, match_key, reap_remotes, reap_matches, reap_each,
}
use mini_middleware.Discovery.Agent.Calls.{
  Accounts, Accounts-ext, Accounts-append, Accounts-frame, Keyed, held, write_at, find-reap_matches,
  gone-apart,
}

map_append :
    (xs ys : List MatchInfo) → map on_unmatch (xs ++ ys) ≡ map on_unmatch xs ++ map on_unmatch ys
map_append [] ys = refl
map_append (x ∷ xs) ys = ap (◌∷◌ (on_unmatch x)) (map_append xs ys)

reap_matches-Accounts :
    (id : ℕ) (d : Dict Bytes MatchInfo)
    → Keyed d
    → Accounts (held d) (map on_unmatch (reap_matches id d).1) (held (reap_matches id d).0)
      × Keyed (reap_matches id d).0
unfolding reap_matches find
reap_matches-Accounts id [] v = (λ j. refl, tt)
reap_matches-Accounts id ((k, m) ∷ d) v =
    let (ih, keyed) = reap_matches-Accounts id d v.2 in
    elim (Bool-cases (m.remote_participant_id == id)) [
      | inl hit ↦ rw hit (
        (
          ground (arith, v.0, bytes_eq_iff k (match_key m)),
          Accounts-ext (held d) (write_at (held ((k, m) ∷ d)) (match_key m) none)
              (map on_unmatch (reap_matches id d).1) (held (reap_matches id d).0)
              (λ j. ground (arith, v.0, v.1, bytes_eq_iff k j, bytes_eq_iff (match_key m) j)) ih,
        ),
        keyed,
      )
      | inr miss ↦ rw miss (
        Accounts-frame (held d) (held (reap_matches id d).0) k (some m) (reap_matches id d).1
            (gone-apart id k d v.2 v.1) ih,
        (v.0, find-reap_matches id k d v.1, keyed),
      )
    ]

pub reap_each-Accounts :
    (ids : List ℕ) (d : Dict Bytes MatchInfo)
    → Keyed d
    → Accounts (held d) (map on_unmatch (reap_each ids d).1) (held (reap_each ids d).0)
      × Keyed (reap_each ids d).0
unfolding reap_each
reap_each-Accounts [] d v = (λ j. refl, v)
reap_each-Accounts (id ∷ ids) d v =
    let (first, keyed) = reap_matches-Accounts id d v in
    let (rest, done) = reap_each-Accounts ids (reap_matches id d).0 keyed in
    (
      subst (λ cs. Accounts (held d) cs (held (reap_each ids (reap_matches id d).0).0))
          (sym (map_append (reap_matches id d).1 (reap_each ids (reap_matches id d).0).1))
          (Accounts-append (held d) (held (reap_matches id d).0)
            (map on_unmatch (reap_matches id d).1)
            (map on_unmatch (reap_each ids (reap_matches id d).0).1)
            (held (reap_each ids (reap_matches id d).0).0) first rest),
      done,
    )

abbrev pub Remotes : Type 0
Remotes = Dict ℕ Remote

abbrev pub is_some : Option Remote → Bool
is_some none = false
is_some (some r) = true

-- A participant that is known stays so or is among the dead.
pub reap_remotes-cases :
    (now timeout : ℕ) (rs : Remotes) (id : ℕ)
    → is_some (find id rs) ≡ true
    → (is_some (find id (reap_remotes now timeout rs).0) ≡ true)
      ⊎ Has id (reap_remotes now timeout rs).1
unfolding find reap_remotes
reap_remotes-cases now timeout [] id h = absurd (ground (arith, h))
reap_remotes-cases now timeout ((j, r) ∷ rs) id h =
    elim (Bool-cases (ltb timeout (now - r.last_seen))) [
      | inl dead ↦ rw dead (elim (Bool-cases (j == id)) [
        | inl same ↦ inr (inl (sym ((==_iff j id).0 same)))
        | inr other ↦ elim (reap_remotes-cases now timeout rs id (ground (arith, h, other))) [
          | inl l ↦ inl l
          | inr l ↦ inr (inr l)
        ]
      ])
      | inr seen ↦ rw seen (elim (Bool-cases (j == id)) [
        | inl same ↦ inl (ground (arith, same))
        | inr other ↦ elim (reap_remotes-cases now timeout rs id (ground (arith, h, other))) [
          | inl l ↦ inl (ground (arith, l, other))
          | inr l ↦ inr l
        ]
      ])
    ]

reap_matches-All :
    (P : Bytes × MatchInfo → Type 0) (dead_id : ℕ) (d : Dict Bytes MatchInfo)
    → All P d
    → All
        (λ (e : Bytes × MatchInfo). P e × (e.1.remote_participant_id ≢ dead_id))
        (reap_matches dead_id d).0
unfolding reap_matches
reap_matches-All P dead_id [] h = tt
reap_matches-All P dead_id ((k, m) ∷ d) h = elim (Bool-cases (m.remote_participant_id == dead_id)) [
  | inl hit ↦ rw hit (reap_matches-All P dead_id d h.1)
  | inr miss ↦ rw miss ((h.0, λ e. ground (arith, e, miss)), reap_matches-All P dead_id d h.1)
]

pub reap_each-All :
    (ids : List ℕ) (P : Bytes × MatchInfo → Type 0) (d : Dict Bytes MatchInfo)
    → All P d
    → All (λ (e : Bytes × MatchInfo). P e × ¬ Has e.1.remote_participant_id ids) (reap_each ids d).0
unfolding reap_each
reap_each-All [] P d h =
    All-map P (λ e. P e × ¬ Has e.1.remote_participant_id []) d (λ e p. (p, λ x. elim x [ ])) h
reap_each-All (id ∷ ids) P d h =
    All-map
      (λ (e : Bytes × MatchInfo).
        (P e × (e.1.remote_participant_id ≢ id)) × ¬ Has e.1.remote_participant_id ids)
      (λ (e : Bytes × MatchInfo). P e × ¬ Has e.1.remote_participant_id (id ∷ ids))
      (reap_each ids (reap_matches id d).0).0 (λ e p. (p.0.0, not_among e p.0.1 p.1))
      (reap_each-All ids (λ e. P e × (e.1.remote_participant_id ≢ id)) (reap_matches id d).0
        (reap_matches-All P id d h))
  where
    not_among :
        (e : Bytes × MatchInfo)
        → e.1.remote_participant_id ≢ id
        → ¬ Has e.1.remote_participant_id ids
        → ¬ Has e.1.remote_participant_id (id ∷ ids)
    not_among e n m (inl same) = n same
    not_among e n m (inr h) = m h
