-- ===== src/Discovery/Agent/Linked.antt =====
-- discovery_agent.cpp: no announced pair of endpoints is left without a match that links it.
use mini_middleware.Prelude.{ℕ, ◌≡◌, ◌≢◌, some, Bytes, Has, bytes_key}
use mini_middleware.Prelude.Dict.{find}
use mini_middleware.Discovery.Endpoint.{EndpointInfo, ParticipantAnnouncement, MatchInfo}
use mini_middleware.Discovery.Matcher.{match_of}
use mini_middleware.Discovery.Matcher.Rules.{Matches}
use mini_middleware.Discovery.Agent.{Agent, match_key, handle_announcement}
use mini_middleware.Discovery.Agent.Finding.{announced-IsActive}
use mini_middleware.Discovery.Agent.Alternation.{IsReady, Told-IsReady, handle_announcement-Told}
use mini_middleware.Discovery.Agent.Liveliness.{AllLive, handle_announcement-AllLive}
use mini_middleware.Discovery.Agent.Keys.{Links, active_match-Links}

-- Take an agent whose active matches stand under their keys and are by the rule, with participants
-- that it knows, as from its construction on. Once it has handled an announcement of another
-- participant, then for each pair of an endpoint of its own and an announced one that match by the
-- rule there is an active match by the rule with a local endpoint of the same kind, on the same
-- topic, with this participant. It need not be the match of this very pair.
pub every_pair_is_linked :
    (a : Agent) (now : ℕ) (ann : ParticipantAnnouncement) (le re : EndpointInfo)
    → IsReady a
    → AllLive a
    → ann.participant_id ≢ a.participant_id
    → Matches le re
    → Has le a.local_endpoints
    → Has re ann.endpoints
    → (k : Bytes) × (m : MatchInfo) × (find k (handle_announcement a now ann).0.active_matches
        ≡ some m)
      × Links le ann.participant_id m
every_pair_is_linked a now ann le re ready live other ok l k =
    let b = (handle_announcement a now ann).0 in
    let m = match_of le ann.participant_id ann.data_locator re in
    let told = handle_announcement-Told a now ann ready in
    let (m0, there, links) =
      active_match-Links b m (Told-IsReady a (handle_announcement a now ann) told).keyed
        (handle_announcement-AllLive a now ann live) ok
        (announced-IsActive a now ann le re other ok l k) in
    (match_key m, m0, there, links)
