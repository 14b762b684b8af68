-- ===== src/Core/Node/Announced.antt =====
-- node.h and node.cpp: a subscriber of another participant that is heard of.
use mini_middleware.Prelude.{
  ℕ, ◌-◌, ◌≤◌, ◌≡◌, ◌≢◌, refl, sym, ◌∙◌, ap, subst, some_inj, List, [], ◌∷◌, Bool, true, false,
  Option, none, some, Bytes, Has, bytes_key, arith, if_true,
}
use mini_middleware.Prelude.Dict.{find}
use mini_middleware.Discovery.Endpoint.{publisher, EndpointInfo, ParticipantAnnouncement, MatchInfo}
use mini_middleware.Discovery.Matcher.{match_of}
use mini_middleware.Discovery.Matcher.Rules.{Matches}
use mini_middleware.Discovery.Agent.{Call, match_key, round}
use mini_middleware.Discovery.Agent.Calls.{held}
use mini_middleware.Discovery.Agent.Finding.{IsActive}
use mini_middleware.Discovery.Agent.Keys.{active_match-Links}
use mini_middleware.Discovery.Agent.Keeping.{NoneOverdue, round-IsActive}
use mini_middleware.Core.DataPlane.{DataPlane, RemoteSink, use_shm, same_host}
use mini_middleware.Core.DataPlane.Routing.{channel, wanted, over_tcp, follow-Follows}
use mini_middleware.Core.DataPlane.OnBus.{remotes_of, all_live}
use mini_middleware.Prelude.Counts.{bit, count_where-erase}
use mini_middleware.Prelude.{nat_key, ◌==◌, ==_iff, ltb}
use mini_middleware.Core.DataPlane.Counters.{is_connected, sinks_to, IsCounted}
use mini_middleware.Core.Node.{Node, turns, step, run, turn}
use mini_middleware.Core.Node.Routes.{IsRouted, step-IsRouted}
use mini_middleware.Discovery.Agent.Alternation.{round-Told}

over_tcp-publisher :
    (p : DataPlane) (m : MatchInfo)
    → p.shm_enabled ≡ false
    → m.local.kind ≡ publisher
    → Matches m.local m.remote
    → over_tcp p m ≡ true
unfolding use_shm same_host
over_tcp-publisher p m off e h = ground (arith, off, e)

sink_of_channel :
    (o : Option RemoteSink) (c : Bytes × ℕ) → channel o ≡ some c → (s : RemoteSink) × (o ≡ some s)
sink_of_channel none c e = absurd cc
sink_of_channel (some s) c e = (s, refl)

-- A TCP sink that reaches a participant on a topic: the data plane holds it and a connection to the
-- participant, and it is among the remote sinks of the topic on the bus.
abbrev pub Reaches : DataPlane → Bytes → ℕ → RemoteSink → Type 0
Reaches p topic peer s =
    ((k : Bytes) × (find k p.sinks ≡ some s))
    × (s.topic ≡ topic)
    × (s.peer ≡ peer)
    × (is_connected (find peer p.connections) ≡ true)
    × Has s.sink (remotes_of p.bus topic)

-- Where sinks are counted, the participant of each has a connection.
sink-is_connected :
    (p : DataPlane) (k : Bytes) (s : RemoteSink)
    → IsCounted p
    → find k p.sinks ≡ some s
    → is_connected (find s.peer p.connections) ≡ true
sink-is_connected p k s v e =
    let one : (s.peer == s.peer) ≡ true = (==_iff s.peer s.peer).1 refl in
    let counted = count_where-erase (λ (t : RemoteSink). t.peer == s.peer) k s p.sinks v.unique e in
    let some_sink : ltb 0 (sinks_to s.peer p.sinks) ≡ true = ground (arith, counted, ap bit one) in
    v.connected s.peer ∙ some_sink

-- A routed node without shared memory reaches the participant of an active match of a publisher.
active_match-Reaches :
    (n : Node) (m : MatchInfo)
    → IsRouted n
    → n.data_plane.shm_enabled ≡ false
    → m.local.kind ≡ publisher
    → Matches m.local m.remote
    → IsActive (match_key m) n.discovery
    → (s : RemoteSink) × Reaches n.data_plane m.local.topic m.remote_participant_id s
active_match-Reaches n m v off kind ok active =
    let k = match_key m in
    let (m0, there, (ok0, kind0, topic0, peer0)) =
      active_match-Links n.discovery m v.ready.keyed v.live ok active in
    let route = over_tcp-publisher n.data_plane m0 off (kind0 ∙ kind) ok0 in
    let c : channel (find k n.data_plane.sinks) ≡ some (m0.local.topic, m0.remote_participant_id) =
      v.follows k ∙ ap (wanted n.data_plane) there ∙ if_true _ _ route in
    let (s, found) =
      sink_of_channel (find k n.data_plane.sinks) (m0.local.topic, m0.remote_participant_id) c in
    let same : (s.topic, s.peer) ≡ (m0.local.topic, m0.remote_participant_id) =
      some_inj (sym (ap channel found) ∙ c) in
    let topic = ap (λ (x : Bytes × ℕ). x.0) same ∙ topic0 in
    let peer = ap (λ (x : Bytes × ℕ). x.1) same ∙ peer0 in
    (
      s,
      (
        (k, found),
        topic,
        peer,
        subst (λ (i : ℕ). is_connected (find i n.data_plane.connections) ≡ true) peer
            (sink-is_connected n.data_plane k s v.counted found),
        subst (λ (t : Bytes). Has s.sink (remotes_of n.data_plane.bus t)) topic
            (v.placed.on_bus k s found),
      ),
    )

turn-shm_enabled :
    (n : Node) (now : ℕ) (ann : Option ParticipantAnnouncement) (later : ℕ)
    (created : List Call → Bool)
    → IsRouted n
    → (turn n now ann later created).data_plane.shm_enabled ≡ n.data_plane.shm_enabled
unfolding turn
turn-shm_enabled n now ann later created v =
    let told = round-Told n.discovery now ann later v.ready in
    (follow-Follows created (λ (calls : List Call). all_live) (round n.discovery now ann later).1
      n.data_plane (held n.discovery.active_matches)
      (held (round n.discovery now ann later).0.active_matches) v.running v.follows
      told.accounts).1.2

-- A publisher's node reaches a subscriber that it hears of. Take a routed node, as every node whose
-- server started is from its construction on, with shared memory turned off, a turn of its discovery
-- agent that takes no longer than the liveliness timeout, and no participant overdue at its end:
-- after a turn that hears another participant announce a subscriber that matches a publisher of the
-- node by the rule, the data plane holds a TCP sink of the publisher's topic that leads to this
-- participant and a connection to it, and the sink is among the remote sinks of the topic on the bus.
pub announced_subscriber_gets_sink :
    (n : Node) (now : ℕ) (ann : ParticipantAnnouncement) (later : ℕ) (created : List Call → Bool)
    (le re : EndpointInfo)
    → IsRouted n
    → n.data_plane.shm_enabled ≡ false
    → later - now ≤ n.discovery.liveliness_timeout
    → NoneOverdue later n.discovery.liveliness_timeout n.discovery.remotes
    → ann.participant_id ≢ n.discovery.participant_id
    → le.kind ≡ publisher
    → Matches le re
    → Has le n.discovery.local_endpoints
    → Has re ann.endpoints
    → (s : RemoteSink) × Reaches
        (run n (turns now (some ann) later created ∷ [])).data_plane
        le.topic
        ann.participant_id
        s
unfolding run step turn
announced_subscriber_gets_sink n now ann later created le re v off soon none_overdue other kind ok l
      k =
    active_match-Reaches (turn n now (some ann) later created)
      (match_of le ann.participant_id ann.data_locator re)
      (step-IsRouted n (turns now (some ann) later created) v)
      (turn-shm_enabled n now (some ann) later created v ∙ off) kind ok
      (round-IsActive n.discovery now ann later le re other ok l k soon none_overdue)
