-- ===== src/Discovery/Agent/Calls.antt =====
-- discovery_agent.cpp: the calls of the two callbacks against the matches that are active.
use mini_middleware.Prelude.{
  inl, inr, ℕ, ◌≡◌, refl, sym, ◌∙◌, ap, List, [], ◌∷◌, ◌++◌, map, false, Option, none, some, Bytes,
  bytes_eq, bytes_eq_iff, if◌then◌else◌, ◌==◌, bytes_key, arith, All, Bool-cases,
}
use mini_middleware.Prelude.Dict.{Dict, find, insert, find-insert}
use mini_middleware.Discovery.Endpoint.{MatchInfo}
use mini_middleware.Discovery.Agent.{Call, on_match, on_unmatch, match_key, reap_matches}

-- A set of matches, by key.
abbrev pub Matches : Type 0
Matches = Bytes → Option MatchInfo

abbrev pub write_at : Matches → Bytes → Option MatchInfo → Matches
write_at f k v j = if bytes_eq k j then v else f j

-- The calls lead from the matches `f` to the matches `g`: `on_match` is only called for a key that
-- has no match, and `on_unmatch` for the very match that the key has.
abbrev pub Accounts : Matches → List Call → Matches → Type 0
Accounts f [] g = (j : Bytes) → f j ≡ g j
Accounts f (on_match m ∷ cs) g =
    (f (match_key m) ≡ none) × Accounts (write_at f (match_key m) (some m)) cs g
Accounts f (on_unmatch m ∷ cs) g =
    (f (match_key m) ≡ some m) × Accounts (write_at f (match_key m) none) cs g

-- Each match stands under its own key, once.
abbrev pub Keyed : Dict Bytes MatchInfo → Type 0
Keyed [] = Unit
Keyed ((k, m) ∷ d) = (k ≡ match_key m) × (find k d ≡ none) × Keyed d

abbrev pub held : Dict Bytes MatchInfo → Matches
held d j = find j d

write_at-ext :
    (f f' : Matches) (k : Bytes) (v : Option MatchInfo)
    → ((j : Bytes) → f j ≡ f' j)
    → (j : Bytes) → write_at f k v j ≡ write_at f' k v j
write_at-ext f f' k v h j = elim (Bool-cases (bytes_eq k j)) [ inl e ↦ rw e | inr e ↦ rw e (h j) ]

pub Accounts-ext :
    (f f' : Matches) (cs : List Call) (g : Matches)
    → ((j : Bytes) → f j ≡ f' j)
    → Accounts f cs g
    → Accounts f' cs g
Accounts-ext f f' [] g h a = λ j. sym (h j) ∙ a j
Accounts-ext f f' (on_match m ∷ cs) g h a = (
  sym (h (match_key m)) ∙ a.0,
  Accounts-ext (write_at f (match_key m) (some m)) (write_at f' (match_key m) (some m)) cs g
      (write_at-ext f f' (match_key m) (some m) h) a.1,
)
Accounts-ext f f' (on_unmatch m ∷ cs) g h a = (
  sym (h (match_key m)) ∙ a.0,
  Accounts-ext (write_at f (match_key m) none) (write_at f' (match_key m) none) cs g
      (write_at-ext f f' (match_key m) none h) a.1,
)

pub Accounts-append :
    (f g : Matches) (cs ds : List Call) (h : Matches)
    → Accounts f cs g
    → Accounts g ds h
    → Accounts f (cs ++ ds) h
Accounts-append f g [] ds h a b = Accounts-ext g f ds h (λ j. sym (a j)) b
Accounts-append f g (on_match m ∷ cs) ds h a b =
    (a.0, Accounts-append (write_at f (match_key m) (some m)) g cs ds h a.1 b)
Accounts-append f g (on_unmatch m ∷ cs) ds h a b =
    (a.0, Accounts-append (write_at f (match_key m) none) g cs ds h a.1 b)

-- A new match, under a free key.
pub insert-Keyed :
    (m : MatchInfo) (d : Dict Bytes MatchInfo)
    → find (match_key m) d ≡ none
    → Keyed d
    → Keyed (insert (match_key m) m d)
unfolding find insert
insert-Keyed m [] e v = (refl, refl, tt)
insert-Keyed m ((j, w) ∷ d) e v = elim (Bool-cases (bytes_eq j (match_key m))) [
  | inl same ↦ absurd (ground (arith, e, same))
  | inr other ↦
      let free : find (match_key m) d ≡ none = ground (arith, e, other) in
      let ih = insert-Keyed m d free v.2 in
      let apart : find j (insert (match_key m) m d) ≡ none = ground (
        arith,
        find-insert (match_key m) j m d,
        v.1,
        other,
        bytes_eq_iff (match_key m) j,
        bytes_eq_iff j (match_key m),
      ) in
      ground (arith, ih, apart, v.0, v.1, v.2, e, other)
]

pub insert-Accounts :
    (m : MatchInfo) (d : Dict Bytes MatchInfo)
    → find (match_key m) d ≡ none
    → Accounts (held d) (on_match m ∷ []) (held (insert (match_key m) m d))
insert-Accounts m d e = (e, λ j. sym (find-insert (match_key m) j m d))

-- The other keys are left alone by matches that go.
pub find-reap_matches :
    (id : ℕ) (k : Bytes) (d : Dict Bytes MatchInfo)
    → find k d ≡ none
    → find k (reap_matches id d).0 ≡ none
unfolding find reap_matches
find-reap_matches id k [] e = e
find-reap_matches id k ((j, m) ∷ d) e = ground (arith, e, find-reap_matches id k d)

-- The keys of the matches that go were held.
pub gone-apart :
    (id : ℕ) (k : Bytes) (d : Dict Bytes MatchInfo)
    → Keyed d
    → find k d ≡ none
    → All (λ (m : MatchInfo). bytes_eq (match_key m) k ≡ false) (reap_matches id d).1
unfolding find reap_matches
gone-apart id k [] v e = tt
gone-apart id k ((j, m) ∷ d) v e = elim (Bool-cases (bytes_eq j k)) [
  | inl same ↦ absurd (ground (arith, e, same))
  | inr other ↦
      let ih = gone-apart id k d v.2 (ground (arith, e, other)) in
      let key : bytes_eq (match_key m) k ≡ false = ap (λ t. bytes_eq t k) (sym v.0) ∙ other in
      elim (Bool-cases (m.remote_participant_id == id)) [
        | inl hit ↦ rw hit (key, ih)
        | inr miss ↦ rw miss ih
      ]
]

-- A match under another key makes no difference to the ones that go.
pub Accounts-frame :
    (f g : Matches) (k : Bytes) (v : Option MatchInfo) (ms : List MatchInfo)
    → All (λ (m : MatchInfo). bytes_eq (match_key m) k ≡ false) ms
    → Accounts f (map on_unmatch ms) g
    → Accounts (write_at f k v) (map on_unmatch ms) (write_at g k v)
Accounts-frame f g k v [] h a = write_at-ext f g k v a
Accounts-frame f g k v (m ∷ ms) h a = (
  ground (arith, a.0, h.0, bytes_eq_iff (match_key m) k, bytes_eq_iff k (match_key m)),
  Accounts-ext (write_at (write_at f (match_key m) none) k v)
      (write_at (write_at f k v) (match_key m) none) (map on_unmatch ms) (write_at g k v)
      (λ j.
        ground (
          arith,
          h.0,
          bytes_eq_iff (match_key m) k,
          bytes_eq_iff k j,
          bytes_eq_iff (match_key m) j,
        ))
      (Accounts-frame (write_at f (match_key m) none) g k v ms h.1 a.1),
)
