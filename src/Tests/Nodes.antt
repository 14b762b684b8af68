-- ===== src/Tests/Nodes.antt =====
-- node.h and node.cpp: a node with its endpoints, and a service with its client.
use mini_middleware.Prelude.{
  ℕ, ◌≡◌, refl, List, [], ◌∷◌, Bool, true, Option, none, some, Bytes, codes,
}
use mini_middleware.Common.Qos.{Qos, default_qos, reliable, compatible}
use mini_middleware.Core.Node.{
  Node, Op, publishes, subscribes_to, serves, calls, turns, create_node, default_options, run,
  create_service, create_client, register_replies, endpoint, reply_type,
}
use mini_middleware.Core.Node.Routes.{IsRouted, node_stays-IsRouted}
use mini_middleware.Core.Node.{step, options_with_shm, create_publisher}
use mini_middleware.Core.Node.Announced.{Reaches, announced_subscriber_gets_sink}
use mini_middleware.Core.DataPlane.{RemoteSink, create_data_plane, start, set_local_identity}
use mini_middleware.Core.PubSub
use mini_middleware.Discovery.Endpoint.{EndpointInfo}
use mini_middleware.Discovery.Matcher.{is_match, rel_of}
use mini_middleware.Discovery.Matcher.Rules.{is_match_iff}
use mini_middleware.Discovery.Agent.{add_endpoint}
use mini_middleware.Prelude.{inl, bytes_eq, bytes_key, arith, false}
use mini_middleware.Core.Node.Links.{service_links}
use mini_middleware.Core.Rpc.{Handled, returns, RpcRequest, handle_request}
use mini_middleware.Discovery.Endpoint.{
  publisher, subscriber, service, client, Locator, ParticipantAnnouncement,
}
use mini_middleware.Discovery.Matcher.{match_of, match_endpoints}
use mini_middleware.Discovery.Agent.{Call, create_agent, set_on_match, set_on_unmatch}

abbrev reliable_qos : Qos
reliable_qos = record default_qos { reliability = reliable }

abbrev somewhere : Locator
somewhere = record { ip = codes "1"; port = 7 }

-- Another participant with a RELIABLE subscriber of the topic t.
abbrev heard : ParticipantAnnouncement
heard = record {
  participant_id = 2;
  node_name = codes "m";
  data_locator = somewhere;
  endpoints = endpoint subscriber (codes "t") (codes "S") reliable_qos [] ∷ [];
  host_id = codes "k";
}

abbrev can_create : List Call → Bool
can_create cs = true

abbrev busy : List Op
busy =
    publishes (codes "t") (codes "S") reliable_qos
    ∷ turns 0 (some heard) 1 can_create
    ∷ serves (codes "add") (codes "Q") (codes "R") default_qos
    ∷ calls (codes "add") (codes "Q") (codes "R") default_qos
    ∷ subscribes_to (codes "t") (codes "S") default_qos
    ∷ turns 6000 none 6001 can_create
    ∷ []

abbrev fresh : ℕ → Node
fresh id = create_node id (codes "h") (some 9) (codes "n") default_options

node_stays-IsRouted_example : IsRouted (run (fresh 1) busy)
node_stays-IsRouted_example = node_stays-IsRouted 1 (codes "h") 9 (codes "n") default_options busy

abbrev parse_any : Bytes → Option Bytes
parse_any bytes = some bytes

abbrev echo : Bytes → Handled Bytes
echo bytes = returns bytes

service_links_example :
    let (s, answering) =
      create_service (fresh 1) (codes "add") (codes "Q") (codes "R") reliable_qos in
    let (c, calling) =
      create_client {R = Bytes} (fresh 2) (codes "add") (codes "Q") (codes "R") default_qos in
    let request : RpcRequest = record {
      request_id = calling.next_request_id;
      reply_topic = calling.reply_topic;
      payload = codes "p";
    } in
    let found = (handle_request parse_any parse_any echo answering request).1.registered in
    match_endpoints
      (register_replies s reliable_qos found).discovery.local_endpoints
      2
      somewhere
      c.discovery.local_endpoints
    ≡ match_of
        (endpoint service (codes "add") (codes "Q") reliable_qos (codes "R"))
        2
        somewhere
        (endpoint client (codes "add") (codes "Q") default_qos (codes "R"))
      ∷ match_of
          (endpoint publisher calling.reply_topic reply_type reliable_qos [])
          2
          somewhere
          (endpoint subscriber calling.reply_topic reply_type default_qos [])
      ∷ []
unfolding create_node compatible create_agent set_on_match set_on_unmatch
service_links_example =
    service_links parse_any parse_any echo (fresh 1) (fresh 2) (codes "add") (codes "Q") (codes "R")
      reliable_qos default_qos (codes "p") 2 somewhere refl refl

-- A node with a publisher and shared memory turned off.
abbrev talking : Node
talking =
    run (create_node 1 (codes "h") (some 9) (codes "n") (options_with_shm false))
      (publishes (codes "t") (codes "S") reliable_qos ∷ [])

talking-IsRouted : IsRouted talking
talking-IsRouted =
    node_stays-IsRouted 1 (codes "h") 9 (codes "n") (options_with_shm false)
      (publishes (codes "t") (codes "S") reliable_qos ∷ [])

abbrev talker : EndpointInfo
talker = endpoint publisher (codes "t") (codes "S") reliable_qos []

abbrev listener : EndpointInfo
listener = endpoint subscriber (codes "t") (codes "S") reliable_qos []

talker_matches : is_match talker listener ≡ true
unfolding is_match rel_of compatible bytes_eq
talker_matches = refl

announced_subscriber_gets_sink_example :
    (s : RemoteSink) × Reaches
      (run talking (turns 0 (some heard) 1 can_create ∷ [])).data_plane
      (codes "t")
      2
      s
unfolding run step create_node create_agent create_data_plane start set_on_match set_on_unmatch
    set_local_identity options_with_shm create_publisher add_endpoint PubSub.create_publisher
announced_subscriber_gets_sink_example =
    announced_subscriber_gets_sink talking 0 heard 1 can_create talker listener talking-IsRouted
      refl (omega arith) tt (λ e. omega arith) refl
      ((is_match_iff talker listener).0 talker_matches) (inl refl) (inl refl)
