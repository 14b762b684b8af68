-- ===== src/Discovery/Agent/Keeping.antt =====
-- discovery_agent.cpp: what a round keeps while no participant is overdue.
use mini_middleware.Prelude.{
  inl, inr, ℕ, ◌-◌, ◌≤◌, ◌≡◌, ◌≢◌, refl, sym, ◌∙◌, subst, List, [], ◌∷◌, true, false, Option, none,
  some, Bytes, ltb, ◌==◌, ==_iff, Has, All, Bool-cases, bytes_key, nat_key, arith,
}
use mini_middleware.Prelude.Dict.{Dict, find, insert}
use mini_middleware.Discovery.Endpoint.{EndpointInfo, ParticipantAnnouncement, MatchInfo}
use mini_middleware.Discovery.Matcher.{match_of, match_endpoints}
use mini_middleware.Discovery.Matcher.Rules.{Matches}
use mini_middleware.Discovery.Agent.{
  Agent, Remote, match_key, match_new, match_each, try_match, handle_announcement, rematch_each,
  rematch_all, rematch_if_dirty, receive, reap_remotes, reap_each, reap_dead, round,
}
use mini_middleware.Discovery.Agent.Finding.{
  is_held, IsActive, rematch_each-IsActive, announced-IsActive,
}

-- No participant was silent for longer than the timeout.
abbrev pub NoneOverdue : ℕ → ℕ → Dict ℕ Remote → Type 0
NoneOverdue now timeout = All (λ (e : ℕ × Remote). now - e.1.last_seen ≤ timeout)

-- The participants and the timeout are the same.
abbrev Knows : Agent → Agent → Type 0
Knows a b = (b.remotes ≡ a.remotes) × (b.liveliness_timeout ≡ a.liveliness_timeout)

match_new-Knows : (a : Agent) (m : MatchInfo) (o : Option MatchInfo) → Knows a (match_new a m o).0
unfolding match_new
match_new-Knows a m none = (refl, refl)
match_new-Knows a m (some old) = (refl, refl)

match_each-Knows :
    (ms : List MatchInfo) (a : Agent) (host_id : Bytes) → Knows a (match_each a host_id ms).0
unfolding match_each
match_each-Knows [] a host_id = (refl, refl)
match_each-Knows (m ∷ ms) a host_id =
    let m' = record m { remote_host_id = host_id } in
    let o = find (match_key m') a.active_matches in
    let (r, t) = match_each-Knows ms (match_new a m' o).0 host_id in
    let (r', t') = match_new-Knows a m' o in (r ∙ r', t ∙ t')

rematch_each-Knows : (rs : Dict ℕ Remote) (a : Agent) → Knows a (rematch_each a rs).0
unfolding rematch_each try_match
rematch_each-Knows [] a = (refl, refl)
rematch_each-Knows ((id, s) ∷ rs) a =
    let ms = match_endpoints a.local_endpoints id s.locator s.endpoints in
    let (r, t) = rematch_each-Knows rs (match_each a s.host_id ms).0 in
    let (r', t') = match_each-Knows ms a s.host_id in (r ∙ r', t ∙ t')

rematch_if_dirty-Knows : (a : Agent) → Knows a (rematch_if_dirty a).0
unfolding rematch_if_dirty rematch_all
rematch_if_dirty-Knows a = elim (Bool-cases a.endpoints_dirty) [
  | inl e ↦ simp e (rematch_each-Knows a.remotes (record a { endpoints_dirty = false }))
  | inr e ↦ simp e (refl, refl)
]

rematch_if_dirty-IsActive :
    (k : Bytes) (a : Agent) → IsActive k a → IsActive k (rematch_if_dirty a).0
unfolding rematch_if_dirty rematch_all
rematch_if_dirty-IsActive k a h = elim (Bool-cases a.endpoints_dirty) [
  | inl e ↦ simp e (rematch_each-IsActive k a.remotes (record a { endpoints_dirty = false }) h)
  | inr e ↦ simp e h
]

reap_remotes-none :
    (now timeout : ℕ) (rs : Dict ℕ Remote)
    → NoneOverdue now timeout rs
    → (reap_remotes now timeout rs).1 ≡ []
unfolding reap_remotes
reap_remotes-none now timeout [] h = refl
reap_remotes-none now timeout ((id, r) ∷ rs) h =
    let fresh : ltb timeout (now - r.last_seen) ≡ false = ground (arith, h.0) in
    rw fresh (reap_remotes-none now timeout rs h.1)

reap_dead-IsActive :
    (k : Bytes) (a : Agent) (now : ℕ)
    → NoneOverdue now a.liveliness_timeout a.remotes
    → IsActive k a
    → IsActive k (reap_dead a now).0
unfolding reap_dead reap_each
reap_dead-IsActive k a now h v =
    subst (λ (ids : List ℕ). is_held (find k (reap_each ids a.active_matches).0) ≡ true)
      (sym (reap_remotes-none now a.liveliness_timeout a.remotes h)) v

insert-NoneOverdue :
    (now timeout id : ℕ) (r : Remote) (rs : Dict ℕ Remote)
    → now - r.last_seen ≤ timeout
    → NoneOverdue now timeout rs
    → NoneOverdue now timeout (insert id r rs)
unfolding insert
insert-NoneOverdue now timeout id r [] p h = (p, tt)
insert-NoneOverdue now timeout id r ((j, s) ∷ rs) p h = elim (Bool-cases (nat_key.beq j id)) [
  | inl same ↦ rw same (p, h.1)
  | inr other ↦ elim (Bool-cases (nat_key.before id j)) [
    | inl first ↦ rw (other, first) (p, h)
    | inr later ↦ rw (other, later) (h.0, insert-NoneOverdue now timeout id r rs p h.1)
  ]
]

abbrev heard_of : ℕ → ParticipantAnnouncement → Remote
heard_of now ann = record {
  node_name = ann.node_name;
  endpoints = ann.endpoints;
  locator = ann.data_locator;
  host_id = ann.host_id;
  last_seen = now;
}

handle_announcement-remotes :
    (a : Agent) (now : ℕ) (ann : ParticipantAnnouncement)
    → ann.participant_id ≢ a.participant_id
    → ((handle_announcement a now ann).0.remotes
        ≡ insert ann.participant_id (heard_of now ann) a.remotes)
      × ((handle_announcement a now ann).0.liveliness_timeout ≡ a.liveliness_timeout)
unfolding handle_announcement try_match
handle_announcement-remotes a now ann other =
    let b : Agent = record a { remotes = insert ann.participant_id (heard_of now ann) a.remotes } in
    let not_own : (ann.participant_id == a.participant_id) ≡ false =
      ground (arith, ==_iff ann.participant_id a.participant_id, other) in
    simp not_own (
      match_each-Knows
        (match_endpoints a.local_endpoints ann.participant_id ann.data_locator ann.endpoints) b
        ann.host_id)

-- After a round that hears an announcement of another participant, while none is overdue, each match
-- with an announced endpoint is active.
pub round-IsActive :
    (a : Agent) (now : ℕ) (ann : ParticipantAnnouncement) (later : ℕ) (le re : EndpointInfo)
    → ann.participant_id ≢ a.participant_id
    → Matches le re
    → Has le a.local_endpoints
    → Has re ann.endpoints
    → later - now ≤ a.liveliness_timeout
    → NoneOverdue later a.liveliness_timeout a.remotes
    → IsActive
        (match_key (match_of le ann.participant_id ann.data_locator re))
        (round a now (some ann) later).0
unfolding round receive
round-IsActive a now ann later le re other ok l k soon none_overdue =
    let key = match_key (match_of le ann.participant_id ann.data_locator re) in
    let b = (handle_announcement a now ann).0 in
    let (rb, tb) = handle_announcement-remotes a now ann other in
    let (rc, tc) = rematch_if_dirty-Knows b in
    reap_dead-IsActive key (rematch_if_dirty b).0 later
      (subst (λ (t : ℕ). NoneOverdue later t (rematch_if_dirty b).0.remotes) (sym (tc ∙ tb))
        (subst (NoneOverdue later a.liveliness_timeout) (sym (rc ∙ rb)) (
          insert-NoneOverdue later a.liveliness_timeout ann.participant_id (heard_of now ann)
            a.remotes soon none_overdue)))
      (rematch_if_dirty-IsActive key b (announced-IsActive a now ann le re other ok l k))
