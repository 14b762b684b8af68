-- ===== src/Core/Node.antt =====
-- core/include/core/node.h and core/src/node.cpp. The bus stands in the data plane, which shares it;
-- of the entities only their number counts. Starting the data plane is an argument, the port that it
-- listens on or none, as are the participant's id and the host's. The background thread of the
-- discovery agent, with its calls into the data plane, is `turn`. The data plane holds each remote
-- sink until it has taken it off the bus, so the bus finds all remote sinks alive.
pub mod Routes
pub mod Links
pub mod Announced
use mini_middleware.Prelude.{
  ℕ, ◌+◌, List, [], ◌∷◌, ◌++◌, Bool, true, false, Option, none, some, Bytes, codes, to_string,
}
use mini_middleware.Common.Qos.{Qos, level}
use mini_middleware.Core.LocalBus.{Bus, subscribe, register_publisher}
use mini_middleware.Core.DataPlane.{DataPlane, create_data_plane, start, set_local_identity}
use mini_middleware.Core.DataPlane.Routing.{follow}
use mini_middleware.Core.PubSub
use mini_middleware.Core.PubSub.{Publisher}
use mini_middleware.Core.Rpc.{Client, Service, rpc_request_topic, rpc_reply_topic}
use mini_middleware.Discovery.Endpoint.{
  Kind, publisher, subscriber, service, client, EndpointInfo, Locator, ParticipantAnnouncement,
}
use mini_middleware.Discovery.Agent.{
  Agent, Call, create_agent, add_endpoint, set_on_match, set_on_unmatch,
}
use mini_middleware.Discovery.Agent

pub record NodeOptions : Type 0 where
  pub enable_shm : Bool
  pub discovery_group : Bytes
  pub discovery_port : ℕ

abbrev pub default_options : NodeOptions
default_options = record {
  enable_shm = true;
  discovery_group = codes "239.255.0.1";
  discovery_port = 7400;
}

unfoldable pub options_with_shm : Bool → NodeOptions
options_with_shm enable_shm = record default_options { enable_shm = enable_shm }

pub record Node : Type 0 where
  pub name : Bytes
  pub data_plane : DataPlane
  pub discovery : Agent
  pub entities : ℕ

-- `server_port`, which is 0 without a server.
abbrev pub server_port : Option ℕ → ℕ
server_port none = 0
server_port (some port) = port

unfoldable pub create_node : ℕ → Bytes → Option ℕ → Bytes → NodeOptions → Node
create_node participant_id host_id started name options =
    let loc : Locator = record { ip = codes "127.0.0.1"; port = server_port started } in
    record {
      name = name;
      data_plane =
          set_local_identity (start (create_data_plane []) started) participant_id host_id
            options.enable_shm;
      discovery =
          set_on_unmatch (set_on_match (create_agent participant_id name loc host_id) true) true;
      entities = 0;
    }

-- The endpoint that `add_endpoint` makes of its arguments.
abbrev pub endpoint : Kind → Bytes → Bytes → Qos → Bytes → EndpointInfo
endpoint kind topic type_name qos response_type_name = record {
  kind = kind;
  topic = topic;
  type_name = type_name;
  reliability = level qos.reliability;
  response_type_name = response_type_name;
}

-- `RpcRequest().GetDescriptor()->full_name()`, and that of RpcReply.
abbrev pub request_type : Bytes
request_type = codes "mm.RpcRequest"

abbrev pub reply_type : Bytes
reply_type = codes "mm.RpcReply"

abbrev with_bus : Node → Bus → Node
with_bus n bus = record n { data_plane = record n.data_plane { bus = bus } }

abbrev pub announces : Node → EndpointInfo → Node
announces n e = record n { discovery = add_endpoint n.discovery e }

abbrev keeps : Node → Node
keeps n = record n { entities = n.entities + 1 }

-- `subscribe` of a new sink.
subscribes : Node → Bytes → Bytes → Node
subscribes n topic type_name =
    let p = n.data_plane in
    record n {
      data_plane = record p {
        bus = subscribe p.bus topic type_name p.next_sink;
        next_sink = p.next_sink + 1;
      };
    }

unfoldable pub create_publisher : Node → Bytes → Bytes → Qos → Node × Publisher
create_publisher n topic type_name qos =
    let (pub_, bus) = PubSub.create_publisher n.data_plane.bus topic type_name qos in
    (announces (keeps (with_bus n bus)) (endpoint publisher topic type_name qos []), pub_)

unfoldable pub create_subscriber : Node → Bytes → Bytes → Qos → Node
unfolding subscribes
create_subscriber n topic type_name qos =
    announces (keeps (subscribes n topic type_name)) (endpoint subscriber topic type_name qos [])

unfoldable pub create_service : Node → Bytes → Bytes → Bytes → Qos → Node × Service
unfolding subscribes
create_service n service_name req resp qos = (
  announces
      (announces (keeps (subscribes n (rpc_request_topic service_name) request_type))
        (endpoint subscriber (rpc_request_topic service_name) request_type qos []))
      (endpoint service service_name req qos resp),
  record { has_registrar = true; response_pubs = [] },
)

-- The registrar of a service, for the reply topics that the service finds new.
unfoldable pub register_replies : Node → Qos → List Bytes → Node
register_replies n qos [] = n
register_replies n qos (topic ∷ topics) =
    register_replies (announces n (endpoint publisher topic reply_type qos [])) qos topics

unfoldable pub client_id : Node → Bytes
client_id n =
    n.name
    ++ (codes "-" ++ (to_string n.discovery.participant_id ++ (codes "-" ++ to_string n.entities)))

module _ {R : Type 0} where
  unfoldable pub create_client : Node → Bytes → Bytes → Bytes → Qos → Node × Client R
  unfolding subscribes
  create_client n service_name req resp qos =
      let request_topic = rpc_request_topic service_name in
      let reply_topic = rpc_reply_topic service_name (client_id n) in
      let bus = register_publisher n.data_plane.bus request_topic request_type in
      (
        announces
            (announces
              (announces (keeps (subscribes (with_bus n bus) reply_topic reply_type))
                (endpoint publisher request_topic request_type qos []))
              (endpoint subscriber reply_topic reply_type qos []))
            (endpoint client service_name req qos resp),
        record { reply_topic = reply_topic; next_request_id = 1; pending = [] },
      )

-- What a node goes through: its factories, a service that finds new reply topics, and one turn of
-- the loop of its discovery agent, whose callbacks call the data plane.
pub data Op : Type 0 where
  publishes subscribes_to : Bytes → Bytes → Qos → Op
  serves calls : Bytes → Bytes → Bytes → Qos → Op
  replies : Qos → List Bytes → Op
  turns : ℕ → Option ParticipantAnnouncement → ℕ → (List Call → Bool) → Op

pub turn : Node → ℕ → Option ParticipantAnnouncement → ℕ → (List Call → Bool) → Node
turn n now ann later created =
    let (discovery, told) = Agent.round n.discovery now ann later in
    record n {
      data_plane = follow created (λ cs sink. true) n.data_plane told;
      discovery = discovery;
    }

unfoldable pub step : Node → Op → Node
unfolding turn
step n (publishes topic type_name qos) = (create_publisher n topic type_name qos).0
step n (subscribes_to topic type_name qos) = create_subscriber n topic type_name qos
step n (serves service_name req resp qos) = (create_service n service_name req resp qos).0
step n (calls service_name req resp qos) = (create_client {R = Bytes} n service_name req resp qos).0
step n (replies qos topics) = register_replies n qos topics
step n (turns now ann later created) = turn n now ann later created

unfoldable pub run : Node → List Op → Node
run n [] = n
run n (op ∷ ops) = run (step n op) ops
