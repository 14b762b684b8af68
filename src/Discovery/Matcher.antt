-- ===== src/Discovery/Matcher.antt =====
-- discovery/src/endpoint_matcher.cpp.
pub mod Rules
use mini_middleware.Prelude.{
  ℕ, List, [], ◌∷◌, ◌++◌, Bool, true, false, ◌&&◌, ◌||◌, not, Bytes, bytes_eq, if◌then◌else◌, ◌==◌,
}
use mini_middleware.Common.Qos.{Reliability, best_effort, reliable, compatible}
use mini_middleware.Discovery.Endpoint.{
  EndpointInfo, Locator, MatchInfo, is_publisher, is_subscriber, is_service, is_client,
}

unfoldable pub rel_of : EndpointInfo → Reliability
rel_of e = if e.reliability == 0 then best_effort else reliable

abbrev pub pubsub_pair : EndpointInfo → EndpointInfo → Bool
pubsub_pair le re =
    is_publisher le.kind && is_subscriber re.kind || is_subscriber le.kind && is_publisher re.kind

abbrev pub rpc_pair : EndpointInfo → EndpointInfo → Bool
rpc_pair le re = is_service le.kind && is_client re.kind || is_client le.kind && is_service re.kind

abbrev pub writer_of : EndpointInfo → EndpointInfo → EndpointInfo
writer_of le re = if is_publisher le.kind || is_service le.kind then le else re

abbrev pub reader_of : EndpointInfo → EndpointInfo → EndpointInfo
reader_of le re = if is_subscriber le.kind || is_client le.kind then le else re

-- Whether the body of the inner loop reaches its end.
unfoldable pub is_match : EndpointInfo → EndpointInfo → Bool
is_match le re =
    if not (pubsub_pair le re) && not (rpc_pair le re)
    then false
    else if not (bytes_eq le.topic re.topic) || not (bytes_eq le.type_name re.type_name)
    then false
    else if rpc_pair le re && not (bytes_eq le.response_type_name re.response_type_name)
    then false
    else compatible (rel_of (writer_of le re)) (rel_of (reader_of le re))

abbrev pub match_of : EndpointInfo → ℕ → Locator → EndpointInfo → MatchInfo
match_of le remote_id remote_locator re = record {
  local = le;
  remote = re;
  remote_locator = remote_locator;
  remote_participant_id = remote_id;
  remote_host_id = [];
}

unfoldable pub match_remotes : EndpointInfo → ℕ → Locator → List EndpointInfo → List MatchInfo
match_remotes le remote_id remote_locator [] = []
match_remotes le remote_id remote_locator (re ∷ res) =
    let rest = match_remotes le remote_id remote_locator res in
    if is_match le re then match_of le remote_id remote_locator re ∷ rest else rest

unfoldable pub match_endpoints :
    List EndpointInfo → ℕ → Locator → List EndpointInfo → List MatchInfo
match_endpoints [] remote_id remote_locator remotes = []
match_endpoints (le ∷ les) remote_id remote_locator remotes =
    match_remotes le remote_id remote_locator remotes
    ++ match_endpoints les remote_id remote_locator remotes
