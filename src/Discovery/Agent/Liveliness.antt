-- ===== src/Discovery/Agent/Liveliness.antt =====
-- discovery_agent.cpp: the active matches are matches with participants that are still known.
use mini_middleware.Prelude.{
  All-map, All-Has, inl, inr, ℕ, ◌≡◌, refl, sym, ◌∙◌, ap, subst, List, [], ◌∷◌, Bool, true, false,
  Option, none, some, Bytes, if◌then◌else◌, ◌==◌, ==_iff, bytes_key, bytes_eq, nat_key, arith, All,
  Has, Bool-cases,
}
use mini_middleware.Prelude.Dict.{Dict, find, insert, find-insert}
use mini_middleware.Discovery.Endpoint.{EndpointInfo, MatchInfo, ParticipantAnnouncement}
use mini_middleware.Discovery.Matcher.{match_endpoints, match_of}
use mini_middleware.Discovery.Matcher.Rules.{Matches, match_endpoints_iff}
use mini_middleware.Discovery.Agent.Reaping.{Remotes, is_some, reap_remotes-cases, reap_each-All}
use mini_middleware.Discovery.Agent.{
  Agent, Remote, match_key, add_endpoint, match_each, match_new, try_match, handle_announcement,
  rematch_each, rematch_all, reap_remotes, reap_each, reap_dead, receive, rematch_if_dirty, round,
  Op, adds, rounds, run,
}

-- The endpoints match by the rule, and the participant is known.
abbrev pub IsLive : Remotes → MatchInfo → Type 0
IsLive rs m = Matches m.local m.remote × (is_some (find m.remote_participant_id rs) ≡ true)

abbrev pub AllLive : Agent → Type 0
AllLive a = All (λ (e : Bytes × MatchInfo). IsLive a.remotes e.1) a.active_matches

insert-All :
    (P : Bytes × MatchInfo → Type 0) (k : Bytes) (m : MatchInfo) (d : Dict Bytes MatchInfo)
    → P (k, m)
    → All P d
    → All P (insert k m d)
unfolding insert
insert-All P k m [] p h = (p, tt)
insert-All P k m ((j, w) ∷ d) p h = elim (Bool-cases (bytes_eq j k)) [
  | inl same ↦ rw same (p, h.1)
  | inr other ↦ elim (Bool-cases (bytes_key.before k j)) [
    | inl first ↦ rw (other, first) (p, h)
    | inr later ↦ rw (other, later) (h.0, insert-All P k m d p h.1)
  ]
]

match_new-AllLive :
    (a : Agent) (m : MatchInfo) (o : Option MatchInfo)
    → IsLive a.remotes m
    → AllLive a
    → AllLive (match_new a m o).0 × ((match_new a m o).0.remotes ≡ a.remotes)
unfolding match_new
match_new-AllLive a m (some old) l v = (v, refl)
match_new-AllLive a m none l v = (
  insert-All (λ (e : Bytes × MatchInfo). IsLive a.remotes e.1) (match_key m) m a.active_matches l v,
  refl,
)

match_each-AllLive :
    (ms : List MatchInfo) (a : Agent) (host_id : Bytes)
    → All (IsLive a.remotes) ms
    → AllLive a
    → AllLive (match_each a host_id ms).0 × ((match_each a host_id ms).0.remotes ≡ a.remotes)
unfolding match_each
match_each-AllLive [] a host_id l v = (v, refl)
match_each-AllLive (m ∷ ms) a host_id l v =
    let m' : MatchInfo = record m { remote_host_id = host_id } in
    let b : Agent = (match_new a m' (find (match_key m') a.active_matches)).0 in
    let (w, same) = match_new-AllLive a m' (find (match_key m') a.active_matches) l.0 v in
    let (x, same') =
      match_each-AllLive ms b host_id (subst (λ (rs : Remotes). All (IsLive rs) ms) (sym same) l.1)
        w in
    (x, same' ∙ same)

try_match-AllLive :
    (a : Agent) (id : ℕ) (r : Remote)
    → is_some (find id a.remotes) ≡ true
    → AllLive a
    → AllLive (try_match a id r).0 × ((try_match a id r).0.remotes ≡ a.remotes)
unfolding try_match
try_match-AllLive a id r known v =
    match_each-AllLive (match_endpoints a.local_endpoints id r.locator r.endpoints) a r.host_id
      (All-Has (IsLive a.remotes) (match_endpoints a.local_endpoints id r.locator r.endpoints)
        (λ m h. live m ((match_endpoints_iff a.local_endpoints id r.locator r.endpoints m).0 h)))
      v
  where
    live :
        (m : MatchInfo)
        → ((le : EndpointInfo) × (re : EndpointInfo) × Has le a.local_endpoints
            × Has re r.endpoints
            × Matches le re
            × (m ≡ match_of le id r.locator re))
        → IsLive a.remotes m
    live m (le, re, in_local, in_remote, ok, e) = subst (IsLive a.remotes) (sym e) (ok, known)

find-Has : (rs : Remotes) (e : ℕ × Remote) → Has e rs → is_some (find e.0 rs) ≡ true
unfolding find
find-Has [] e h = elim h [ ]
find-Has ((j, w) ∷ rs) e (inl same) =
    ground (arith, ap (λ (x : ℕ × Remote). x.0) same, ==_iff j e.0)
find-Has ((j, w) ∷ rs) e (inr h) = ground (arith, find-Has rs e h)

rematch_each-AllLive :
    (rs : Remotes) (a : Agent)
    → All (λ (e : ℕ × Remote). is_some (find e.0 a.remotes) ≡ true) rs
    → AllLive a
    → AllLive (rematch_each a rs).0 × ((rematch_each a rs).0.remotes ≡ a.remotes)
unfolding rematch_each
rematch_each-AllLive [] a k v = (v, refl)
rematch_each-AllLive ((id, r) ∷ rs) a k v =
    let (w, same) = try_match-AllLive a id r k.0 v in
    let (x, same') =
      rematch_each-AllLive rs (try_match a id r).0
        (subst (λ (t : Remotes). All (λ (e : ℕ × Remote). is_some (find e.0 t) ≡ true) rs)
          (sym same) k.1)
        w in
    (x, same' ∙ same)

pub handle_announcement-AllLive :
    (a : Agent) (now : ℕ) (ann : ParticipantAnnouncement)
    → AllLive a
    → AllLive (handle_announcement a now ann).0
unfolding handle_announcement
handle_announcement-AllLive a now ann v =
    let id = ann.participant_id in
    let r : Remote = record {
      node_name = ann.node_name;
      endpoints = ann.endpoints;
      locator = ann.data_locator;
      host_id = ann.host_id;
      last_seen = now;
    } in
    let b : Agent = record a { remotes = insert id r a.remotes } in
    elim (Bool-cases (id == a.participant_id)) [
      | inl own ↦ simp own v
      | inr other ↦
          simp other
            (try_match-AllLive b id r (ground (arith, find-insert id id r a.remotes, ==_iff id id))
              (All-map (λ (e : Bytes × MatchInfo). IsLive a.remotes e.1)
                (λ (e : Bytes × MatchInfo). IsLive b.remotes e.1) a.active_matches
                (λ e l.
                  (l.0, ground (arith, l.1, find-insert id e.1.remote_participant_id r a.remotes)))
                v)).0
    ]

reap_dead-AllLive : (a : Agent) (now : ℕ) → AllLive a → AllLive (reap_dead a now).0
unfolding reap_dead
reap_dead-AllLive a now v =
    let kept = (reap_remotes now a.liveliness_timeout a.remotes).0 in
    let ids = (reap_remotes now a.liveliness_timeout a.remotes).1 in
    All-map (λ (e : Bytes × MatchInfo). IsLive a.remotes e.1 × ¬ Has e.1.remote_participant_id ids)
      (λ (e : Bytes × MatchInfo). IsLive kept e.1) (reap_each ids a.active_matches).0
      (λ e p. (
        p.0.0,
        elim (reap_remotes-cases now a.liveliness_timeout a.remotes e.1.remote_participant_id
            p.0.1) [ inl l ↦ l | inr l ↦ absurd (p.1 l) ],
      ))
      (reap_each-All ids (λ (e : Bytes × MatchInfo). IsLive a.remotes e.1) a.active_matches v)

receive-AllLive :
    (a : Agent) (now : ℕ) (o : Option ParticipantAnnouncement)
    → AllLive a
    → AllLive (receive a now o).0
unfolding receive
receive-AllLive a now none v = v
receive-AllLive a now (some ann) v = handle_announcement-AllLive a now ann v

rematch_if_dirty-AllLive : (a : Agent) → AllLive a → AllLive (rematch_if_dirty a).0
unfolding rematch_if_dirty rematch_all
rematch_if_dirty-AllLive a v = either a.endpoints_dirty
  where
    either :
        (c : Bool)
        → AllLive
            (if c then rematch_each (record a { endpoints_dirty = false }) a.remotes else (a, [])).0
    either false = v
    either true =
        (rematch_each-AllLive a.remotes (record a { endpoints_dirty = false })
          (All-Has (λ (e : ℕ × Remote). is_some (find e.0 a.remotes) ≡ true) a.remotes
            (find-Has a.remotes))
          v).0

pub round-AllLive :
    (a : Agent) (now : ℕ) (o : Option ParticipantAnnouncement) (later : ℕ)
    → AllLive a
    → AllLive (round a now o later).0
unfolding round
round-AllLive a now o later v =
    reap_dead-AllLive (rematch_if_dirty (receive a now o).0).0 later
      (rematch_if_dirty-AllLive (receive a now o).0 (receive-AllLive a now o v))

-- Over any run of new endpoints, received announcements, timeouts and rematches, if it holds at the
-- start: each active match is of two endpoints that match by the rule, and its participant is among
-- the known ones, so no match outlives the participant that is reaped.
pub run-AllLive : (ops : List Op) (a : Agent) → AllLive a → AllLive (run a ops).0
unfolding run add_endpoint
run-AllLive [] a v = v
run-AllLive (adds e ∷ ops) a v = run-AllLive ops (add_endpoint a e) v
run-AllLive (rounds now o later ∷ ops) a v =
    run-AllLive ops (round a now o later).0 (round-AllLive a now o later v)
