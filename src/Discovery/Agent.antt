-- ===== src/Discovery/Agent.antt =====
-- discovery/include/discovery/discovery_agent.h and discovery/src/discovery_agent.cpp. Times are
-- milliseconds of the steady clock, and `now` is an argument. The background thread is `round`, one
-- turn of the loop of `run`; the multicast socket gives it an announcement that parsed, or none.
pub mod Calls
pub mod Reaping
pub mod Alternation
pub mod Liveliness
pub mod Finding
pub mod Keeping
pub mod Keys
pub mod Linked
use mini_middleware.Prelude.{
  ℕ, ◌-◌, List, [], ◌∷◌, ◌++◌, map, Bool, true, false, Option, none, some, Bytes, to_string, ltb,
  if◌then◌else◌, ◌==◌, nat_key, bytes_key,
}
use mini_middleware.Prelude.Dict.{Dict, find, insert}
use mini_middleware.Discovery.Endpoint.{
  Kind, publisher, subscriber, service, client, unknown, EndpointInfo, Locator,
  ParticipantAnnouncement, MatchInfo,
}
use mini_middleware.Discovery.Matcher.{match_endpoints}

pub record Remote : Type 0 where
  pub node_name : Bytes
  pub endpoints : List EndpointInfo
  pub locator : Locator
  pub host_id : Bytes
  pub last_seen : ℕ

pub record Agent : Type 0 where
  pub participant_id : ℕ
  pub node_name : Bytes
  pub data_locator : Locator
  pub host_id : Bytes
  pub local_endpoints : List EndpointInfo
  pub endpoints_dirty : Bool
  pub remotes : Dict ℕ Remote
  pub active_matches : Dict Bytes MatchInfo
  pub has_on_match : Bool
  pub has_on_unmatch : Bool
  pub liveliness_timeout : ℕ

-- The constructor, and the host id that is there once the agent starts.
unfoldable pub create_agent : ℕ → Bytes → Locator → Bytes → Agent
create_agent participant_id node_name data_locator host_id = record {
  participant_id = participant_id;
  node_name = node_name;
  data_locator = data_locator;
  host_id = host_id;
  local_endpoints = [];
  endpoints_dirty = false;
  remotes = [];
  active_matches = [];
  has_on_match = false;
  has_on_unmatch = false;
  liveliness_timeout = 5000;
}

pub record DiscoveredEndpoint : Type 0 where
  pub participant_id : ℕ
  pub node_name : Bytes
  pub endpoint : EndpointInfo
  pub locator : Locator
  pub host_id : Bytes
  pub local : Bool

-- A call of one of the two callbacks.
pub data Call : Type 0 where
  on_match on_unmatch : MatchInfo → Call

abbrev pub kind_number : Kind → ℕ
kind_number publisher = 0
kind_number subscriber = 1
kind_number service = 2
kind_number client = 3
kind_number (unknown n) = n

unfoldable pub match_key : MatchInfo → Bytes
match_key m =
    to_string (kind_number m.local.kind)
    ++ (58
        ∷ (m.local.topic
            ++ (124
                ∷ (to_string m.remote_participant_id
                    ++ (124 ∷ (to_string (kind_number m.remote.kind) ++ (58 ∷ m.remote.topic)))))))

unfoldable pub add_endpoint : Agent → EndpointInfo → Agent
add_endpoint a e = record a {
  local_endpoints = a.local_endpoints ++ (e ∷ []);
  endpoints_dirty = true;
}

unfoldable pub set_on_match : Agent → Bool → Agent
set_on_match a set = record a { has_on_match = set }

unfoldable pub set_on_unmatch : Agent → Bool → Agent
set_on_unmatch a set = record a { has_on_unmatch = set }

unfoldable pub set_timing : Agent → ℕ → Agent
set_timing a timeout = record a { liveliness_timeout = timeout }

-- What `announce` sends.
unfoldable pub announce : Agent → ParticipantAnnouncement
announce a = record {
  participant_id = a.participant_id;
  node_name = a.node_name;
  data_locator = a.data_locator;
  endpoints = a.local_endpoints;
  host_id = a.host_id;
}

abbrev calls_if : Bool → List Call → List Call
calls_if set calls = if set then calls else []

match_new : Agent → MatchInfo → Option MatchInfo → Agent × List Call
match_new a m none = (
  record a { active_matches = insert (match_key m) m a.active_matches },
  calls_if a.has_on_match (on_match m ∷ []),
)
match_new a m (some old) = (a, [])

-- The loop of `try_match`.
pub match_each : Agent → Bytes → List MatchInfo → Agent × List Call
unfolding match_new
match_each a host_id [] = (a, [])
match_each a host_id (m ∷ ms) =
    let m' = record m { remote_host_id = host_id } in
    let (b, calls) = match_new a m' (find (match_key m') a.active_matches) in
    let (c, rest) = match_each b host_id ms in (c, calls ++ rest)

unfoldable pub try_match : Agent → ℕ → Remote → Agent × List Call
unfolding match_each
try_match a remote_id r =
    match_each a r.host_id (match_endpoints a.local_endpoints remote_id r.locator r.endpoints)

unfoldable pub handle_announcement : Agent → ℕ → ParticipantAnnouncement → Agent × List Call
handle_announcement a now ann =
    let r : Remote = record {
      node_name = ann.node_name;
      endpoints = ann.endpoints;
      locator = ann.data_locator;
      host_id = ann.host_id;
      last_seen = now;
    } in
    (if ann.participant_id == a.participant_id
      then (a, [])
      else try_match (record a { remotes = insert ann.participant_id r a.remotes })
          ann.participant_id r)

pub rematch_each : Agent → Dict ℕ Remote → Agent × List Call
rematch_each a [] = (a, [])
rematch_each a ((id, r) ∷ rs) =
    let (b, calls) = try_match a id r in let (c, rest) = rematch_each b rs in (c, calls ++ rest)

unfoldable pub rematch_all : Agent → Agent × List Call
unfolding rematch_each
rematch_all a = rematch_each a a.remotes

-- The remotes that are heard of within the timeout, and the ids of the others.
unfoldable pub reap_remotes : ℕ → ℕ → Dict ℕ Remote → Dict ℕ Remote × List ℕ
reap_remotes now timeout [] = ([], [])
reap_remotes now timeout ((id, r) ∷ rs) =
    let (kept, dead_ids) = reap_remotes now timeout rs in
    if ltb timeout (now - r.last_seen) then (kept, id ∷ dead_ids) else ((id, r) ∷ kept, dead_ids)

-- The matches with other participants than `dead_id`, and the ones with it.
unfoldable pub reap_matches : ℕ → Dict Bytes MatchInfo → Dict Bytes MatchInfo × List MatchInfo
reap_matches dead_id [] = ([], [])
reap_matches dead_id ((k, m) ∷ ms) =
    let (kept, gone) = reap_matches dead_id ms in
    if m.remote_participant_id == dead_id then (kept, m ∷ gone) else ((k, m) ∷ kept, gone)

pub reap_each : List ℕ → Dict Bytes MatchInfo → Dict Bytes MatchInfo × List MatchInfo
reap_each [] ms = (ms, [])
reap_each (dead_id ∷ dead_ids) ms =
    let (left, gone) = reap_matches dead_id ms in
    let (kept, rest) = reap_each dead_ids left in (kept, gone ++ rest)

unfoldable pub reap_dead : Agent → ℕ → Agent × List Call
unfolding reap_each
reap_dead a now =
    let (kept, dead_ids) = reap_remotes now a.liveliness_timeout a.remotes in
    let (left, gone) = reap_each dead_ids a.active_matches in
    (
      record a { remotes = kept; active_matches = left },
      calls_if a.has_on_unmatch (map on_unmatch gone),
    )

receive : Agent → ℕ → Option ParticipantAnnouncement → Agent × List Call
receive a now none = (a, [])
receive a now (some ann) = handle_announcement a now ann

rematch_if_dirty : Agent → Agent × List Call
rematch_if_dirty a =
    if a.endpoints_dirty then rematch_all (record a { endpoints_dirty = false }) else (a, [])

-- One turn of the loop: what was received, the rematch if an endpoint is new, then the reaping, which
-- reads the clock again. `now` is what the first reading gives, `later` the second.
unfoldable pub round : Agent → ℕ → Option ParticipantAnnouncement → ℕ → Agent × List Call
unfolding receive rematch_if_dirty
round a now ann later =
    let (b, received) = receive a now ann in
    let (c, rematched) = rematch_if_dirty b in
    let (d, reaped) = reap_dead c later in (d, received ++ (rematched ++ reaped))

pub data Op : Type 0 where
  adds : EndpointInfo → Op
  rounds : ℕ → Option ParticipantAnnouncement → ℕ → Op

unfoldable pub run : Agent → List Op → Agent × List Call
run a [] = (a, [])
run a (adds e ∷ ops) = run (add_endpoint a e) ops
run a (rounds now ann later ∷ ops) =
    let (b, calls) = round a now ann later in let (c, rest) = run b ops in (c, calls ++ rest)

abbrev local_row : Agent → EndpointInfo → DiscoveredEndpoint
local_row a e = record {
  participant_id = a.participant_id;
  node_name = a.node_name;
  endpoint = e;
  locator = a.data_locator;
  host_id = a.host_id;
  local = true;
}

abbrev remote_row : ℕ → Remote → EndpointInfo → DiscoveredEndpoint
remote_row id r e = record {
  participant_id = id;
  node_name = r.node_name;
  endpoint = e;
  locator = r.locator;
  host_id = r.host_id;
  local = false;
}

remote_rows : Dict ℕ Remote → List DiscoveredEndpoint
remote_rows [] = []
remote_rows ((id, r) ∷ rs) = map (remote_row id r) r.endpoints ++ remote_rows rs

unfoldable pub snapshot_endpoints : Agent → List DiscoveredEndpoint
unfolding remote_rows
snapshot_endpoints a = map (local_row a) a.local_endpoints ++ remote_rows a.remotes
