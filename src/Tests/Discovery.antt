-- ===== src/Tests/Discovery.antt =====
-- discovery_agent.cpp and data_plane.cpp: a participant that is seen, matched and lost.
use mini_middleware.Prelude.{
  ℕ, ◌≡◌, refl, inl, bytes_eq, List, [], ◌∷◌, Bool, true, false, none, some, codes, bytes_key,
  nat_key, arith,
}
use mini_middleware.Discovery.Endpoint.{
  EndpointInfo, publisher, subscriber, Locator, ParticipantAnnouncement,
}
use mini_middleware.Discovery.Agent.{Agent, Call, Op, adds, rounds, run}
use mini_middleware.Discovery.Agent.{handle_announcement}
use mini_middleware.Discovery.Agent.Linked.{every_pair_is_linked}
use mini_middleware.Discovery.Agent.Keys.{Links}
use mini_middleware.Prelude.Dict.{find}
use mini_middleware.Prelude.{Bytes}
use mini_middleware.Discovery.Endpoint.{MatchInfo}
use mini_middleware.Discovery.Matcher.{is_match, rel_of}
use mini_middleware.Discovery.Matcher.Rules.{is_match_iff}
use mini_middleware.Common.Qos.{compatible}
use mini_middleware.Discovery.Agent.Calls.{Accounts, held}
use mini_middleware.Discovery.Agent.Alternation.{IsReady, calls_account_for_matches}
use mini_middleware.Core.DataPlane.{DataPlane}

abbrev talker : EndpointInfo
talker = record {
  kind = publisher;
  topic = codes "t";
  type_name = codes "S";
  reliability = 1;
  response_type_name = [];
}

abbrev listener : EndpointInfo
listener = record talker { kind = subscriber }

abbrev somewhere : Locator
somewhere = record { ip = codes "1"; port = 7 }

abbrev idle_agent : Agent
idle_agent = record {
  participant_id = 1;
  node_name = codes "n";
  data_locator = somewhere;
  host_id = codes "h";
  local_endpoints = [];
  endpoints_dirty = false;
  remotes = [];
  active_matches = [];
  has_on_match = true;
  has_on_unmatch = true;
  liveliness_timeout = 5000;
}

abbrev announcement : ParticipantAnnouncement
announcement = record {
  participant_id = 2;
  node_name = codes "m";
  data_locator = somewhere;
  endpoints = listener ∷ [];
  host_id = codes "k";
}

-- The remote listener is heard of, then the local talker is added, then nothing for too long.
abbrev seen_and_lost : List Op
seen_and_lost =
    rounds 0 (some announcement) 1 ∷ adds talker ∷ rounds 200 none 201 ∷ rounds 5300 none 5300 ∷ []

idle_agent-IsReady : IsReady idle_agent
idle_agent-IsReady = record { keyed = tt; on_match_set = refl; on_unmatch_set = refl }

calls_account_for_matches_example :
    Accounts
      (held idle_agent.active_matches)
      (run idle_agent seen_and_lost).1
      (held (run idle_agent seen_and_lost).0.active_matches)
calls_account_for_matches_example =
    calls_account_for_matches seen_and_lost idle_agent idle_agent-IsReady

abbrev empty_plane : DataPlane
empty_plane = record {
  bus = [];
  local_pid = 1;
  local_host_id = codes "h";
  shm_enabled = true;
  connections = [];
  sinks = [];
  refcount = [];
  shm_pub = [];
  shm_sub_ref = [];
  has_readers = true;
  stopped = false;
  next_sink = 0;
}

abbrev can_create : List Call → Bool
can_create cs = true

abbrev all_alive : List Call → ℕ → Bool
all_alive cs sink = true

-- The agent that knows the other participant.
abbrev acquainted : Agent
acquainted = record idle_agent { local_endpoints = talker ∷ [] }

talker_matches : is_match talker listener ≡ true
unfolding is_match rel_of compatible bytes_eq
talker_matches = refl

acquainted-IsReady : IsReady acquainted
acquainted-IsReady = record { keyed = tt; on_match_set = refl; on_unmatch_set = refl }

every_pair_is_linked_example :
    (k : Bytes) × (m : MatchInfo) × (find k
        (handle_announcement acquainted 0 announcement).0.active_matches
      ≡ some m)
    × Links talker 2 m
every_pair_is_linked_example =
    every_pair_is_linked acquainted 0 announcement talker listener acquainted-IsReady tt
      (λ e. omega arith) ((is_match_iff talker listener).0 talker_matches) (inl refl) (inl refl)
