-- ===== src/Discovery/Agent/Keys.antt =====
-- discovery_agent.cpp: what the key of a match tells, and the match that stands under it.
use mini_middleware.Prelude.{
  inl, inr, ℕ, suc, ◌+◌, ◌*◌, ◌≡◌, refl, sym, ◌∙◌, ap, subst, some_inj, [], ◌∷◌, ◌++◌, true, false,
  some, Bytes, bytes_eq, bytes_eq_iff, to_string, All, is_digit, all_digits, numeral_digits,
  value_from, to_string_lem, Bool-cases, Option-cases, bytes_key, arith, if◌then◌else◌, ◌==◌,
}
use mini_middleware.Prelude.Dict.{Dict, find}
use mini_middleware.Discovery.Endpoint.{
  Kind, publisher, subscriber, service, client, unknown, EndpointInfo, MatchInfo,
}
use mini_middleware.Discovery.Matcher.Rules.{Matches, Agrees}
use mini_middleware.Discovery.Agent.{Agent, match_key, kind_number}
use mini_middleware.Discovery.Agent.Calls.{Keyed}
use mini_middleware.Discovery.Agent.Finding.{IsActive, is_held}
use mini_middleware.Discovery.Agent.Liveliness.{AllLive, IsLive}

-- How often a byte occurs.
abbrev count : ℕ → Bytes → ℕ
count c [] = 0
count c (d ∷ s) = (if d == c then 1 else 0) + count c s

count-append : (c : ℕ) (s t : Bytes) → count c (s ++ t) ≡ count c s + count c t
count-append c [] t = omega arith
count-append c (d ∷ s) t = omega (arith, count-append c s t)

head_byte : Bytes → ℕ
head_byte [] = 0
head_byte (c ∷ s) = c

tail_bytes : Bytes → Bytes
tail_bytes [] = []
tail_bytes (c ∷ s) = s

count-before : (c : ℕ) (s t : Bytes) → count c (s ++ (c ∷ t)) ≡ suc (count c s + count c t)
count-before c s t = count-append c s (c ∷ t) ∙ ground arith

-- Two texts that are split where as many of a byte stand before the split.
split_same :
    (c : ℕ) (s t s' t' : Bytes)
    → s ++ (c ∷ t) ≡ s' ++ (c ∷ t')
    → count c s ≡ count c s'
    → (s ≡ s') × (t ≡ t')
unfolding head_byte tail_bytes
split_same c [] t [] t' e h = (refl, ap tail_bytes e)
split_same c [] t (d ∷ s') t' e h =
    let same : c ≡ d = ap head_byte e in absurd (ground (arith, h, same))
split_same c (d ∷ s) t [] t' e h =
    let same : d ≡ c = ap head_byte e in absurd (ground (arith, h, same))
split_same c (d ∷ s) t (d' ∷ s') t' e h =
    let first : d ≡ d' = ap head_byte e in
    let (ss, ts) = split_same c s t s' t' (ap tail_bytes e) (ground (arith, h, first)) in
    (ap (λ (x : ℕ). x ∷ s) first ∙ ap (◌∷◌ d') ss, ts)

digits_lack : (c : ℕ) (s : Bytes) → is_digit c ≡ false → all_digits s ≡ true → count c s ≡ 0
digits_lack c [] n h = refl
digits_lack c (d ∷ s) n h =
    let here : is_digit d ≡ true = ground (arith, h) in
    let rest : all_digits s ≡ true = ground (arith, h) in
    ground (arith, digits_lack c s n rest, here, n)

to_string-count : (c n : ℕ) → is_digit c ≡ false → count c (to_string n) ≡ 0
to_string-count c n h =
    digits_lack c (to_string n) h (numeral_digits (to_string n) (to_string_lem n).0)

to_string-inj : (m n : ℕ) → to_string m ≡ to_string n → m ≡ n
to_string-inj m n e = sym (to_string_lem m).1 ∙ ap (value_from 0) e ∙ (to_string_lem n).1

-- What follows the local topic in a key.
abbrev after_topic : MatchInfo → Bytes
after_topic m =
    to_string m.remote_participant_id
    ++ (124 ∷ (to_string (kind_number m.remote.kind) ++ (58 ∷ m.remote.topic)))

no_colon : (n : ℕ) → count 58 (to_string n) ≡ 0
no_colon n = to_string-count 58 n refl

no_bar : (n : ℕ) → count 124 (to_string n) ≡ 0
no_bar n = to_string-count 124 n refl

after_topic-count : (m : MatchInfo) → count 124 (after_topic m) ≡ suc (count 124 m.remote.topic)
after_topic-count m =
    let last = to_string (kind_number m.remote.kind) ++ (58 ∷ m.remote.topic) in
    omega (
      arith,
      count-before 124 (to_string m.remote_participant_id) last,
      count-append 124 (to_string (kind_number m.remote.kind)) (58 ∷ m.remote.topic),
      no_bar m.remote_participant_id,
      no_bar (kind_number m.remote.kind),
    )

topic_rest-count :
    (m : MatchInfo)
    → m.local.topic ≡ m.remote.topic
    → count 124 (m.local.topic ++ (124 ∷ after_topic m)) ≡ 2 * count 124 m.local.topic + 2
topic_rest-count m same = omega (
  arith,
  count-before 124 m.local.topic (after_topic m),
  after_topic-count m,
  ap (count 124) same,
)

-- The kind of a number, for the four kinds that match.
abbrev kind_of : ℕ → Kind
kind_of n =
    if n == 0 then publisher else if n == 1 then subscriber else if n == 2 then service else client

kind_of-kind_number :
    (k r : Kind) (le re : EndpointInfo) → Agrees k r le re → kind_of (kind_number k) ≡ k
kind_of-kind_number publisher r le re h = refl
kind_of-kind_number subscriber r le re h = refl
kind_of-kind_number service r le re h = refl
kind_of-kind_number client r le re h = refl
kind_of-kind_number (unknown n) r le re h = elim h [ ]

-- A key tells the kind of the local endpoint, the topic and the participant of a match by the rule.
pub match_key_tells :
    (m n : MatchInfo)
    → Matches m.local m.remote
    → Matches n.local n.remote
    → match_key m ≡ match_key n
    → (m.local.kind ≡ n.local.kind)
      × (m.local.topic ≡ n.local.topic)
      × (m.remote_participant_id ≡ n.remote_participant_id)
unfolding match_key
match_key_tells m n ok ok' e =
    let (kinds, rest) =
      split_same 58 (to_string (kind_number m.local.kind)) (m.local.topic ++ (124 ∷ after_topic m))
        (to_string (kind_number n.local.kind)) (n.local.topic ++ (124 ∷ after_topic n)) e
        (no_colon (kind_number m.local.kind) ∙ sym (no_colon (kind_number n.local.kind))) in
    let bars : count 124 m.local.topic ≡ count 124 n.local.topic =
      omega (arith, ap (count 124) rest, topic_rest-count m ok.0, topic_rest-count n ok'.0) in
    let (topics, ends) =
      split_same 124 m.local.topic (after_topic m) n.local.topic (after_topic n) rest bars in
    let (pids, remotes) =
      split_same 124 (to_string m.remote_participant_id)
        (to_string (kind_number m.remote.kind) ++ (58 ∷ m.remote.topic))
        (to_string n.remote_participant_id)
        (to_string (kind_number n.remote.kind) ++ (58 ∷ n.remote.topic)) ends
        (no_bar m.remote_participant_id ∙ sym (no_bar n.remote_participant_id)) in
    (
      sym (kind_of-kind_number m.local.kind m.remote.kind m.local m.remote ok.2)
          ∙ ap kind_of (to_string-inj _ _ kinds)
          ∙ kind_of-kind_number n.local.kind n.remote.kind n.local n.remote ok'.2,
      topics,
      to_string-inj _ _ pids,
    )

find-Keyed :
    (d : Dict Bytes MatchInfo) (k : Bytes) (m : MatchInfo)
    → Keyed d
    → find k d ≡ some m
    → match_key m ≡ k
unfolding find
find-Keyed [] k m v h = absurd cc
find-Keyed ((j, n) ∷ d) k m v h = elim (Bool-cases (bytes_eq j k)) [
  | inl same ↦
      let here : some n ≡ some m = rw same at h in
      sym (v.0 ∙ ap match_key (some_inj here)) ∙ (bytes_eq_iff j k).0 same
  | inr other ↦ let later : find k d ≡ some m = rw other at h in find-Keyed d k m v.2 later
]

find-All :
    (P : Bytes × MatchInfo → Type 0) (d : Dict Bytes MatchInfo) (k : Bytes) (m : MatchInfo)
    → All P d
    → find k d ≡ some m
    → (j : Bytes) × P (j, m)
unfolding find
find-All P [] k m v h = absurd cc
find-All P ((j, n) ∷ d) k m v h = elim (Bool-cases (bytes_eq j k)) [
  | inl same ↦
      let here : some n ≡ some m = rw same at h in
      (j, subst (λ (x : MatchInfo). P (j, x)) (some_inj here) v.0)
  | inr other ↦ let later : find k d ≡ some m = rw other at h in find-All P d k m v.1 later
]

false_is_not_true : false ≡ true → ⊥
false_is_not_true e = cc

-- The same link: a match by the rule with a local endpoint of this kind, on this topic, with this
-- participant.
abbrev pub Links : EndpointInfo → ℕ → MatchInfo → Type 0
Links le id m =
    Matches m.local m.remote
    × (m.local.kind ≡ le.kind)
    × (m.local.topic ≡ le.topic)
    × (m.remote_participant_id ≡ id)

-- Under the key of a match by the rule that is active stands a match that links the same.
pub active_match-Links :
    (a : Agent) (m : MatchInfo)
    → Keyed a.active_matches
    → AllLive a
    → Matches m.local m.remote
    → IsActive (match_key m) a
    → (m0 : MatchInfo) × (find (match_key m) a.active_matches ≡ some m0)
      × Links m.local m.remote_participant_id m0
active_match-Links a m keyed live ok active =
    let d = a.active_matches in
    elim (Option-cases (find (match_key m) d)) [
      | inl missing ↦ absurd (false_is_not_true (sym (ap is_held missing) ∙ active))
      | inr (m0, there) ↦
          let (j, (ok0, known)) =
            find-All (λ (x : Bytes × MatchInfo). IsLive a.remotes x.1) d (match_key m) m0 live
              there in
          let tells = match_key_tells m0 m ok0 ok (find-Keyed d (match_key m) m0 keyed there) in
          (m0, there, (ok0, tells.0, tells.1, tells.2))
    ]
