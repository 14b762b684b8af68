-- ===== src/Discovery/Endpoint.antt =====
-- proto/discovery.proto, and the structures of discovery/include/discovery that hold its messages.
use mini_middleware.Prelude.{ℕ, Bool, true, false, List, Bytes}

-- EndpointInfo.Kind; proto3 keeps a value that it does not know.
pub data Kind : Type 0 where
  publisher subscriber service client : Kind
  unknown : ℕ → Kind

pub record Locator : Type 0 where
  pub ip : Bytes
  pub port : ℕ

pub record EndpointInfo : Type 0 where
  pub kind : Kind
  pub topic : Bytes
  pub type_name : Bytes
  pub reliability : ℕ
  pub response_type_name : Bytes

pub record ParticipantAnnouncement : Type 0 where
  pub participant_id : ℕ
  pub node_name : Bytes
  pub data_locator : Locator
  pub endpoints : List EndpointInfo
  pub host_id : Bytes

pub record MatchInfo : Type 0 where
  pub local : EndpointInfo
  pub remote : EndpointInfo
  pub remote_locator : Locator
  pub remote_participant_id : ℕ
  pub remote_host_id : Bytes

abbrev pub is_publisher : Kind → Bool
is_publisher publisher = true
is_publisher _ = false

abbrev pub is_subscriber : Kind → Bool
is_subscriber subscriber = true
is_subscriber _ = false

abbrev pub is_service : Kind → Bool
is_service service = true
is_service _ = false

abbrev pub is_client : Kind → Bool
is_client client = true
is_client _ = false
