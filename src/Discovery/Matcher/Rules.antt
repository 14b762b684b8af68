-- ===== src/Discovery/Matcher/Rules.antt =====
-- endpoint_matcher.cpp: the matching rule, and what the two loops collect.
use mini_middleware.Prelude.{
  ℕ, ◌≡◌, refl, sym, ap, subst, ◌≢◌, ◌↔◌, ◌⊎◌, inl, inr, List, [], ◌∷◌, true, bytes_eq_iff, arith,
  Bool-cases, bytes_eq_comm, Has, Has-append, Has-append_left, Has-append_right,
}
use mini_middleware.Common.Qos.{compatible}
use mini_middleware.Discovery.Endpoint.{
  EndpointInfo, Kind, publisher, subscriber, service, client, Locator, MatchInfo,
}
use mini_middleware.Discovery.Matcher.{rel_of, is_match, match_of, match_remotes, match_endpoints}

-- A reader that asks for RELIABLE needs a writer that offers it.
abbrev pub Offers : EndpointInfo → EndpointInfo → Type 0
Offers writer reader = (reader.reliability ≡ 0) ⊎ (writer.reliability ≢ 0)

-- The rule by the kinds of the two endpoints.
abbrev pub Agrees : Kind → Kind → EndpointInfo → EndpointInfo → Type 0
Agrees publisher subscriber le re = Offers le re
Agrees subscriber publisher le re = Offers re le
Agrees service client le re = Offers le re × (le.response_type_name ≡ re.response_type_name)
Agrees client service le re = Offers re le × (le.response_type_name ≡ re.response_type_name)
Agrees _ _ le re = ⊥

abbrev pub Matches : EndpointInfo → EndpointInfo → Type 0
Matches le re = (le.topic ≡ re.topic) × (le.type_name ≡ re.type_name) × Agrees le.kind re.kind le re

-- The test of the loop body is the rule: complementary kinds, the same topic and type, for a
-- service and its client the same response type too, and a writer that offers at least the
-- reliability that the reader requests.
pub is_match_iff : (le re : EndpointInfo) → (is_match le re ≡ true) ↔ Matches le re
unfolding is_match rel_of compatible
is_match_iff le re = (
  λ h. ground (
    arith,
    bytes_eq_iff le.topic re.topic,
    bytes_eq_iff le.type_name re.type_name,
    bytes_eq_iff le.response_type_name re.response_type_name,
  ),
  λ h. ground (
    arith,
    bytes_eq_iff le.topic re.topic,
    bytes_eq_iff le.type_name re.type_name,
    bytes_eq_iff le.response_type_name re.response_type_name,
  ),
)

match_remotes_sound :
    (le : EndpointInfo) (id : ℕ) (loc : Locator) (res : List EndpointInfo) (m : MatchInfo)
    → Has m (match_remotes le id loc res)
    → (re : EndpointInfo) × Has re res × Matches le re × (m ≡ match_of le id loc re)
unfolding match_remotes
match_remotes_sound le id loc [] m h = elim h [ ]
match_remotes_sound le id loc (re ∷ res) m h = elim (Bool-cases (is_match le re)) [
  | inl hit ↦
      let found : (m ≡ match_of le id loc re) ⊎ Has m (match_remotes le id loc res) = rw hit at h in
      elim found [
        | inl e ↦ (re, inl refl, (is_match_iff le re).0 hit, e)
        | inr later ↦
            let (r, mem, ok, e) = match_remotes_sound le id loc res m later in (r, inr mem, ok, e)
      ]
  | inr miss ↦
      let later : Has m (match_remotes le id loc res) = rw miss at h in
      let (r, mem, ok, e) = match_remotes_sound le id loc res m later in (r, inr mem, ok, e)
]

match_remotes_complete :
    (le : EndpointInfo) (id : ℕ) (loc : Locator) (res : List EndpointInfo) (re : EndpointInfo)
    → Has re res
    → Matches le re
    → Has (match_of le id loc re) (match_remotes le id loc res)
unfolding match_remotes
match_remotes_complete le id loc [] re h ok = elim h [ ]
match_remotes_complete le id loc (r ∷ res) re (inl e) ok =
    rw ((is_match_iff le r).1 (subst (Matches le) e ok)) (inl (ap (match_of le id loc) e))
match_remotes_complete le id loc (r ∷ res) re (inr h) ok =
    let rest = match_remotes_complete le id loc res re h ok in
    elim (Bool-cases (is_match le r)) [ inl hit ↦ rw hit (inr rest) | inr miss ↦ rw miss rest ]

match_endpoints_sound :
    (les : List EndpointInfo) (id : ℕ) (loc : Locator) (res : List EndpointInfo) (m : MatchInfo)
    → Has m (match_endpoints les id loc res)
    → (le : EndpointInfo) × (re : EndpointInfo) × Has le les
      × Has re res
      × Matches le re
      × (m ≡ match_of le id loc re)
unfolding match_endpoints
match_endpoints_sound [] id loc res m h = elim h [ ]
match_endpoints_sound (le ∷ les) id loc res m h =
    elim (Has-append m (match_remotes le id loc res) (match_endpoints les id loc res) h) [
      | inl here ↦
          let (re, mem, ok, e) = match_remotes_sound le id loc res m here in
          (le, re, inl refl, mem, ok, e)
      | inr later ↦
          let (l, re, mem_l, mem, ok, e) = match_endpoints_sound les id loc res m later in
          (l, re, inr mem_l, mem, ok, e)
    ]

match_endpoints_complete :
    (les : List EndpointInfo) (id : ℕ) (loc : Locator) (res : List EndpointInfo)
    (le re : EndpointInfo)
    → Has le les
    → Has re res
    → Matches le re
    → Has (match_of le id loc re) (match_endpoints les id loc res)
unfolding match_endpoints
match_endpoints_complete [] id loc res le re h k ok = elim h [ ]
match_endpoints_complete (l ∷ les) id loc res le re (inl e) k ok =
    Has-append_left _ (match_remotes l id loc res) (match_endpoints les id loc res) (
      subst (λ t. Has (match_of le id loc re) (match_remotes t id loc res)) e
        (match_remotes_complete le id loc res re k ok))
match_endpoints_complete (l ∷ les) id loc res le re (inr h) k ok =
    Has-append_right _ (match_remotes l id loc res) (match_endpoints les id loc res)
      (match_endpoints_complete les id loc res le re h k ok)

-- `match_endpoints` finds exactly the matches: it lists `m` if and only if `m` is made, with the
-- remote's id and locator, of a local and a remote endpoint that match by the rule.
pub match_endpoints_iff :
    (les : List EndpointInfo) (id : ℕ) (loc : Locator) (res : List EndpointInfo) (m : MatchInfo)
    → Has m (match_endpoints les id loc res) ↔ (
        (le : EndpointInfo) × (re : EndpointInfo) × Has le les
        × Has re res
        × Matches le re
        × (m ≡ match_of le id loc re))
match_endpoints_iff les id loc res m = (
  match_endpoints_sound les id loc res m,
  λ t.
      subst (λ (x : MatchInfo). Has x (match_endpoints les id loc res)) (sym t.5)
        (match_endpoints_complete les id loc res t.0 t.1 t.2 t.3 t.4),
)

-- Both sides decide alike: a participant sees its endpoint match another's exactly if the other
-- sees the same pair match.
pub is_match_comm : (le re : EndpointInfo) → is_match le re ≡ is_match re le
unfolding is_match rel_of compatible
is_match_comm le re = ground (
  arith,
  bytes_eq_comm le.topic re.topic,
  bytes_eq_comm le.type_name re.type_name,
  bytes_eq_comm le.response_type_name re.response_type_name,
)
