-- ===== src/Core/Node/Routes.antt =====
-- node.h and node.cpp: what holds between a node's discovery agent and its data plane.
use mini_middleware.Prelude.{
  ℕ, ◌≤◌, arith, ◌≡◌, refl, sym, subst, ◌∙◌, List, [], ◌∷◌, ◌++◌, Bool, true, false, Option, some,
  Bytes, Has, if◌then◌else◌, bytes_key,
}
use mini_middleware.Common.Qos.{Qos}
use mini_middleware.Prelude.Dict.{find}
use mini_middleware.Core.LocalBus.{
  Bus, TopicEntry, entry_or_empty, check_type, register_publisher, subscribe,
}
use mini_middleware.Core.Rpc.{rpc_request_topic, rpc_reply_topic}
use mini_middleware.Core.DataPlane.OnBus.{Grows, insert-Grows, entry-remotes, all_live}
use mini_middleware.Core.DataPlane.Placed.{grown-IsPlaced, empty-IsPlaced}
use mini_middleware.Core.DataPlane.Places.{Placed, follow-Placed, follow-has_readers}
use mini_middleware.Core.DataPlane.{create_data_plane, start, set_local_identity}
use mini_middleware.Core.DataPlane.Routing.{Follows, wanted-Same, follow-Follows, no_sinks-Follows}
use mini_middleware.Core.DataPlane.Counters.{IsCounted, Untouched-IsCounted}
use mini_middleware.Core.DataPlane.Connections.{follow-IsCounted, fresh-IsCounted}
use mini_middleware.Core.PubSub
use mini_middleware.Core.Node.{
  Node, NodeOptions, Op, publishes, subscribes_to, serves, calls, replies, turns, create_node,
  create_publisher, create_subscriber, create_service, create_client, register_replies, subscribes,
  announces, turn, step, run, endpoint, reply_type, request_type, client_id,
}
use mini_middleware.Discovery.Endpoint.{EndpointInfo, ParticipantAnnouncement, publisher}
use mini_middleware.Discovery.Agent.{
  Call, add_endpoint, create_agent, set_on_match, set_on_unmatch, round,
}
use mini_middleware.Discovery.Agent.Calls.{held}
use mini_middleware.Discovery.Agent.Alternation.{IsReady, Told-IsReady, round-Told}
use mini_middleware.Discovery.Agent.Liveliness.{AllLive, round-AllLive}

-- The data plane has the TCP sinks that the agent's matches want, each on the bus, and connections
-- and counters for exactly these; it has its readers; the agent's matches are of endpoints that match, with participants that it knows.
pub record IsRouted (n : Node) : Type 0 where
  pub running : n.data_plane.stopped ≡ false
  pub ready : IsReady n.discovery
  pub follows : Follows n.data_plane (held n.discovery.active_matches)
  pub counted : IsCounted n.data_plane
  pub live : AllLive n.discovery
  pub placed : Placed n.data_plane
  pub has_readers : n.data_plane.has_readers ≡ true

announces-IsRouted : (n : Node) (e : EndpointInfo) → IsRouted n → IsRouted (announces n e)
unfolding add_endpoint
announces-IsRouted n e v = record {
  running = v.running;
  ready = record {
    keyed = v.ready.keyed;
    on_match_set = v.ready.on_match_set;
    on_unmatch_set = v.ready.on_unmatch_set;
  };
  follows = v.follows;
  counted = v.counted;
  live = v.live;
  placed = v.placed;
  has_readers = v.has_readers;
}

-- A new subscriber or publisher takes no remote sink off the bus.
abbrev Rewired : Node → Bus → ℕ → ℕ → Node
Rewired n bus next_sink entities = record n {
  data_plane = record n.data_plane { bus = bus; next_sink = next_sink };
  entities = entities;
}

rewired-IsRouted :
    (n : Node) (bus : Bus) (next_sink entities : ℕ)
    → Grows n.data_plane.bus bus
    → n.data_plane.next_sink ≤ next_sink
    → IsRouted n
    → IsRouted (Rewired n bus next_sink entities)
rewired-IsRouted n bus next_sink entities grows le v = record {
  running = v.running;
  ready = v.ready;
  follows = λ j.
      let p = n.data_plane in
      let q = record p { bus = bus; next_sink = next_sink } in
      v.follows j ∙ sym (wanted-Same p q (held n.discovery.active_matches j) (refl, refl, refl));
  counted =
      Untouched-IsCounted n.data_plane (Rewired n bus next_sink entities).data_plane
        (refl, refl, refl) v.counted;
  live = v.live;
  placed =
      grown-IsPlaced n.data_plane.bus bus n.data_plane.sinks n.data_plane.shm_pub
        n.data_plane.next_sink next_sink grows le v.placed;
  has_readers = v.has_readers;
}

-- Neither `check_type` nor a new subscriber touches the remote sinks.
check_type-remote :
    (e : TopicEntry) (type_name : Bytes) → (check_type e type_name).0.remote_sinks ≡ e.remote_sinks
unfolding check_type
check_type-remote e type_name = ground arith

register-Grows :
    (bus : Bus) (topic type_name : Bytes) → Grows bus (register_publisher bus topic type_name)
unfolding register_publisher
register-Grows bus topic type_name = insert-Grows bus topic _ (λ x h.
    subst (Has x) (sym (check_type-remote (entry_or_empty (find topic bus)) type_name))
      (subst (Has x) (sym (entry-remotes (find topic bus))) h))

subscribe-Grows :
    (bus : Bus) (topic type_name : Bytes) (sink : ℕ)
    → Grows bus (subscribe bus topic type_name sink)
unfolding subscribe
subscribe-Grows bus topic type_name sink = insert-Grows bus topic _ (λ x h.
    go (check_type (entry_or_empty (find topic bus)) type_name).1 x (
      subst (Has x) (sym (check_type-remote (entry_or_empty (find topic bus)) type_name))
        (subst (Has x) (sym (entry-remotes (find topic bus))) h)))
  where
    go :
        (ok : Bool) (x : ℕ)
        → let e = (check_type (entry_or_empty (find topic bus)) type_name).0 in
          Has x e.remote_sinks
          → Has x (if ok then record e { sinks = e.sinks ++ (sink ∷ []) } else e).remote_sinks
    go true x h = h
    go false x h = h

replies-IsRouted :
    (topics : List Bytes) (n : Node) (qos : Qos)
    → IsRouted n
    → IsRouted (register_replies n qos topics)
unfolding register_replies
replies-IsRouted [] n qos v = v
replies-IsRouted (topic ∷ topics) n qos v =
    let e = endpoint publisher topic reply_type qos [] in
    replies-IsRouted topics (announces n e) qos (announces-IsRouted n e v)

turn-IsRouted :
    (n : Node) (now : ℕ) (ann : Option ParticipantAnnouncement) (later : ℕ)
    (created : List Call → Bool)
    → IsRouted n
    → IsRouted (turn n now ann later created)
unfolding turn
turn-IsRouted n now ann later created v =
    let alive = λ (calls : List Call). all_live in
    let told = round-Told n.discovery now ann later v.ready in
    let f = held n.discovery.active_matches in
    let g = held (round n.discovery now ann later).0.active_matches in
    let cs = (round n.discovery now ann later).1 in
    let (routed, same) =
      follow-Follows created alive cs n.data_plane f g v.running v.follows told.accounts in
    record {
      running = same.0 ∙ v.running;
      ready = Told-IsReady n.discovery (round n.discovery now ann later) told;
      follows = routed;
      counted =
          follow-IsCounted created alive cs n.data_plane f g v.running v.follows told.accounts
            v.counted;
      live = round-AllLive n.discovery now ann later v.live;
      placed = follow-Placed created cs n.data_plane v.placed;
      has_readers = follow-has_readers created alive cs n.data_plane ∙ v.has_readers;
    }

pub step-IsRouted : (n : Node) (op : Op) → IsRouted n → IsRouted (step n op)
unfolding step create_publisher create_subscriber create_service create_client subscribes
    PubSub.create_publisher
step-IsRouted n (publishes topic type_name qos) v =
    let bus = n.data_plane.bus in
    announces-IsRouted _ _
      (rewired-IsRouted n _ _ _ (register-Grows bus topic type_name) (omega arith) v)
step-IsRouted n (subscribes_to topic type_name qos) v =
    let p = n.data_plane in
    announces-IsRouted _ _
      (rewired-IsRouted n _ _ _ (subscribe-Grows p.bus topic type_name p.next_sink) (omega arith) v)
step-IsRouted n (serves service_name req resp qos) v =
    let p = n.data_plane in
    announces-IsRouted _ _ (
      announces-IsRouted _ _ (
        rewired-IsRouted n _ _ _
          (subscribe-Grows p.bus (rpc_request_topic service_name) request_type p.next_sink)
          (omega arith) v))
step-IsRouted n (calls service_name req resp qos) v =
    let p = n.data_plane in
    let topic = rpc_request_topic service_name in
    let bus = register_publisher p.bus topic request_type in
    let reply_topic = rpc_reply_topic service_name (client_id n) in
    announces-IsRouted _ _ (
      announces-IsRouted _ _ (
        announces-IsRouted _ _ (
          rewired-IsRouted n _ _ _
            (λ t x h.
              subscribe-Grows bus reply_topic reply_type p.next_sink t x
                (register-Grows p.bus topic request_type t x h))
            (omega arith) v)))
step-IsRouted n (replies qos topics) v = replies-IsRouted topics n qos v
step-IsRouted n (turns now ann later created) v = turn-IsRouted n now ann later created v

pub run-IsRouted : (ops : List Op) (n : Node) → IsRouted n → IsRouted (run n ops)
unfolding run
run-IsRouted [] n v = v
run-IsRouted (op ∷ ops) n v = run-IsRouted ops (step n op) (step-IsRouted n op v)

created-IsRouted :
    (id : ℕ) (host_id : Bytes) (port : ℕ) (name : Bytes) (options : NodeOptions)
    → IsRouted (create_node id host_id (some port) name options)
unfolding create_node create_data_plane start set_local_identity create_agent set_on_match
    set_on_unmatch find
created-IsRouted id host_id port name options =
    let n = create_node id host_id (some port) name options in
    record {
      running = refl;
      ready = record { keyed = tt; on_match_set = refl; on_unmatch_set = refl };
      follows = no_sinks-Follows n.data_plane (held n.discovery.active_matches) refl (λ j. refl);
      counted = fresh-IsCounted n.data_plane refl refl refl;
      live = tt;
      placed = empty-IsPlaced [] 0;
      has_readers = refl;
    }

-- From its construction with a server that starts, whatever a node's factories are called with and
-- its agent hears, in any order: its data plane has the TCP sinks that its agent's matches want, and
-- each of them stands among the remote sinks of its topic on the bus; it has a connection and a
-- counter for exactly the participants that these lead to; the matches are of endpoints that match,
-- with participants that the agent has not given up; and the readers of shared memory are there.
pub node_stays-IsRouted :
    (id : ℕ) (host_id : Bytes) (port : ℕ) (name : Bytes) (options : NodeOptions) (ops : List Op)
    → IsRouted (run (create_node id host_id (some port) name options) ops)
node_stays-IsRouted id host_id port name options ops =
    run-IsRouted ops (create_node id host_id (some port) name options)
      (created-IsRouted id host_id port name options)
