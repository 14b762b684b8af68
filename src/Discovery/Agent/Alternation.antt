-- ===== src/Discovery/Agent/Alternation.antt =====
-- discovery_agent.cpp: over any run, each match is told of once, and then given up at most once.
use mini_middleware.Prelude.{
  inl, inr, ℕ, ◌≡◌, refl, sym, subst, List, [], ◌∷◌, ◌++◌, map, Bool, true, false, Option, none,
  some, Bytes, if◌then◌else◌, ◌==◌, bytes_key, nat_key, Bool-cases,
}
use mini_middleware.Prelude.Dict.{Dict, find, insert}
use mini_middleware.Discovery.Endpoint.{MatchInfo, ParticipantAnnouncement}
use mini_middleware.Discovery.Matcher.{match_endpoints}
use mini_middleware.Discovery.Agent.{
  Agent, Remote, Call, on_unmatch, match_key, add_endpoint, match_each, match_new, try_match,
  handle_announcement, rematch_each, rematch_all, reap_remotes, reap_each, reap_dead, receive,
  rematch_if_dirty, round, Op, adds, rounds, run,
}
use mini_middleware.Discovery.Agent.Calls.{
  Accounts, Accounts-append, Keyed, held, insert-Keyed, insert-Accounts,
}
use mini_middleware.Discovery.Agent.Reaping.{reap_each-Accounts}

-- What an operation does: its calls account for the change of the matches, both callbacks stay set.
pub record Told (a : Agent) (r : Agent × List Call) : Type 0 where
  pub accounts : Accounts (held a.active_matches) r.1 (held r.0.active_matches)
  pub keyed : Keyed r.0.active_matches
  pub on_match_set : r.0.has_on_match ≡ true
  pub on_unmatch_set : r.0.has_on_unmatch ≡ true

-- An agent with both callbacks set, whose matches stand under their keys.
pub record IsReady (a : Agent) : Type 0 where
  pub keyed : Keyed a.active_matches
  pub on_match_set : a.has_on_match ≡ true
  pub on_unmatch_set : a.has_on_unmatch ≡ true

pub Told-IsReady : (a : Agent) (r : Agent × List Call) → Told a r → IsReady r.0
Told-IsReady a r t = record {
  keyed = t.keyed;
  on_match_set = t.on_match_set;
  on_unmatch_set = t.on_unmatch_set;
}

Told-quiet : (a : Agent) → IsReady a → Told a (a, [])
Told-quiet a v = record {
  accounts = λ j. refl;
  keyed = v.keyed;
  on_match_set = v.on_match_set;
  on_unmatch_set = v.on_unmatch_set;
}

-- One operation after another.
Told-append :
    (a : Agent) (r : Agent × List Call) (s : Agent × List Call)
    → Told a r
    → Told r.0 s
    → Told a (s.0, r.1 ++ s.1)
Told-append a r s t u = record {
  accounts =
      Accounts-append (held a.active_matches) (held r.0.active_matches) r.1 s.1
        (held s.0.active_matches) t.accounts u.accounts;
  keyed = u.keyed;
  on_match_set = u.on_match_set;
  on_unmatch_set = u.on_unmatch_set;
}

match_new-Told :
    (a : Agent) (m : MatchInfo) (o : Option MatchInfo)
    → IsReady a
    → find (match_key m) a.active_matches ≡ o
    → Told a (match_new a m o)
unfolding match_new
match_new-Told a m (some old) v e = Told-quiet a v
match_new-Told a m none v e = simp (v.on_match_set) (record {
  accounts = insert-Accounts m a.active_matches e;
  keyed = insert-Keyed m a.active_matches e v.keyed;
  on_match_set = refl;
  on_unmatch_set = v.on_unmatch_set;
})

match_each-Told :
    (ms : List MatchInfo) (a : Agent) (host_id : Bytes)
    → IsReady a
    → Told a (match_each a host_id ms)
unfolding match_each
match_each-Told [] a host_id v = Told-quiet a v
match_each-Told (m ∷ ms) a host_id v =
    let m' : MatchInfo = record m { remote_host_id = host_id } in
    let r : Agent × List Call = match_new a m' (find (match_key m') a.active_matches) in
    let t : Told a r = match_new-Told a m' (find (match_key m') a.active_matches) v refl in
    Told-append a r (match_each r.0 host_id ms) t
      (match_each-Told ms r.0 host_id (Told-IsReady a r t))

try_match-Told : (a : Agent) (id : ℕ) (r : Remote) → IsReady a → Told a (try_match a id r)
unfolding try_match
try_match-Told a id r v =
    match_each-Told (match_endpoints a.local_endpoints id r.locator r.endpoints) a r.host_id v

rematch_each-Told : (rs : Dict ℕ Remote) (a : Agent) → IsReady a → Told a (rematch_each a rs)
unfolding rematch_each
rematch_each-Told [] a v = Told-quiet a v
rematch_each-Told ((id, r) ∷ rs) a v =
    let t = try_match-Told a id r v in
    Told-append a (try_match a id r) (rematch_each (try_match a id r).0 rs) t
      (rematch_each-Told rs (try_match a id r).0 (Told-IsReady a (try_match a id r) t))

-- An agent that differs in what is no match.
Told-from :
    (a b : Agent) (r : Agent × List Call)
    → a.active_matches ≡ b.active_matches
    → Told b r
    → Told a r
Told-from a b r e t = record {
  accounts =
      subst (λ (d : Dict Bytes MatchInfo). Accounts (held d) r.1 (held r.0.active_matches)) (sym e)
        t.accounts;
  keyed = t.keyed;
  on_match_set = t.on_match_set;
  on_unmatch_set = t.on_unmatch_set;
}

pub handle_announcement-Told :
    (a : Agent) (now : ℕ) (ann : ParticipantAnnouncement)
    → IsReady a
    → Told a (handle_announcement a now ann)
unfolding handle_announcement
handle_announcement-Told a now ann v = elim (Bool-cases (ann.participant_id == a.participant_id)) [
  | inl own ↦ simp own (Told-quiet a v)
  | inr other ↦
      let r : Remote = record {
        node_name = ann.node_name;
        endpoints = ann.endpoints;
        locator = ann.data_locator;
        host_id = ann.host_id;
        last_seen = now;
      } in
      let b : Agent = record a { remotes = insert ann.participant_id r a.remotes } in
      let ready : IsReady b = record {
        keyed = v.keyed;
        on_match_set = v.on_match_set;
        on_unmatch_set = v.on_unmatch_set;
      } in
      simp other (
        Told-from a b (try_match b ann.participant_id r) refl
          (try_match-Told b ann.participant_id r ready))
]

receive-Told :
    (a : Agent) (now : ℕ) (o : Option ParticipantAnnouncement)
    → IsReady a
    → Told a (receive a now o)
unfolding receive
receive-Told a now none v = Told-quiet a v
receive-Told a now (some ann) v = handle_announcement-Told a now ann v

rematch_if_dirty-Told : (a : Agent) → IsReady a → Told a (rematch_if_dirty a)
unfolding rematch_if_dirty rematch_all
rematch_if_dirty-Told a v = elim (Bool-cases a.endpoints_dirty) [
  | inl e ↦
      let b : Agent = record a { endpoints_dirty = false } in
      let ready : IsReady b = record {
        keyed = v.keyed;
        on_match_set = v.on_match_set;
        on_unmatch_set = v.on_unmatch_set;
      } in
      subst (λ (c : Bool). Told a (if c then rematch_each b a.remotes else (a, []))) (sym e)
        (Told-from a b (rematch_each b a.remotes) refl (rematch_each-Told a.remotes b ready))
  | inr e ↦
      subst
        (λ (c : Bool).
          Told a
            (if c then rematch_each (record a { endpoints_dirty = false }) a.remotes else (a, [])))
        (sym e) (Told-quiet a v)
]

reap_dead-Told : (a : Agent) (now : ℕ) → IsReady a → Told a (reap_dead a now)
unfolding reap_dead
reap_dead-Told a now v =
    let ids = (reap_remotes now a.liveliness_timeout a.remotes).1 in
    let (accounts, keyed) = reap_each-Accounts ids a.active_matches v.keyed in
    record {
      accounts =
          subst
            (λ (c : Bool).
              Accounts (held a.active_matches)
                (if c then map on_unmatch (reap_each ids a.active_matches).1 else [])
                (held (reap_each ids a.active_matches).0))
            (sym v.on_unmatch_set) accounts;
      keyed = keyed;
      on_match_set = v.on_match_set;
      on_unmatch_set = v.on_unmatch_set;
    }

pub round-Told :
    (a : Agent) (now : ℕ) (o : Option ParticipantAnnouncement) (later : ℕ)
    → IsReady a
    → Told a (round a now o later)
unfolding round
round-Told a now o later v =
    let r = receive a now o in
    let t = receive-Told a now o v in
    let ready = Told-IsReady a r t in
    let m = rematch_if_dirty r.0 in
    let u = rematch_if_dirty-Told r.0 ready in
    Told-append a r ((reap_dead m.0 later).0, m.1 ++ (reap_dead m.0 later).1) t
      (Told-append r.0 m (reap_dead m.0 later) u (reap_dead-Told m.0 later (Told-IsReady r.0 m u)))

run-Told : (ops : List Op) (a : Agent) → IsReady a → Told a (run a ops)
unfolding run add_endpoint
run-Told [] a v = Told-quiet a v
run-Told (adds e ∷ ops) a v = Told-from a (add_endpoint a e) (run (add_endpoint a e) ops) refl (
    run-Told ops (add_endpoint a e) (record {
      keyed = v.keyed;
      on_match_set = v.on_match_set;
      on_unmatch_set = v.on_unmatch_set;
    }))
run-Told (rounds now o later ∷ ops) a v =
    let t = round-Told a now o later v in
    Told-append a (round a now o later) (run (round a now o later).0 ops) t
      (run-Told ops (round a now o later).0 (Told-IsReady a (round a now o later) t))

-- Over any run of new endpoints, received announcements, timeouts and rematches, with both
-- callbacks set: `on_match` is called for a key only while no match of the key is active,
-- `on_unmatch` only for the very match that was told of last under its key, and the matches that
-- are active at the end are those told of and not given up.
pub calls_account_for_matches :
    (ops : List Op) (a : Agent)
    → IsReady a
    → Accounts (held a.active_matches) (run a ops).1 (held (run a ops).0.active_matches)
calls_account_for_matches ops a v = (run-Told ops a v).accounts
