-- ===== src/Proto.antt =====
-- The messages of proto/messages.proto and proto/state.proto, with the fields that prost gives
-- them: a message field is an `Option`, a `oneof` an `Option` of its cases, text and bytes are
-- lists of numbers.
use s2c_rs.Base.{ℕ, Bool, List, Option, Bytes}

pub record NodeIdentity : Type 0 where
  pub id : Bytes
  pub address : Bytes
  pub port : ℕ  -- int32, as its bit pattern
  pub az : Bytes

pub record BatchEntry : Type 0 where
  pub body : Bytes
  pub internal : Bool

pub record Batch : Type 0 where
  pub entries : List BatchEntry

pub record FollowerInfo : Type 0 where
  pub node_identity : Option NodeIdentity
  pub replicated_apply_index : ℕ

pub record LeaderState : Type 0 where
  pub epoch : ℕ
  pub commit_index : ℕ
  pub node_identity : Option NodeIdentity
  pub followers : List FollowerInfo

pub record LogEntry : Type 0 where
  pub batch : Option Batch
  pub leader_state : Option LeaderState

pub data StateRequestType : Type 0 where
  command read : StateRequestType

pub record StateRequest : Type 0 where
  pub body : Bytes
  pub kind : StateRequestType
  pub group_id : Bytes
  pub internal : Bool
  pub leader_command : Bool

pub record Handshake : Type 0 where
  pub group_id : Bytes
  pub node_identity : Option NodeIdentity

pub record Follow : Type 0 where
  pub apply_index : ℕ
  pub node_identity : Option NodeIdentity
  pub group_id : Bytes

pub record ReplicateRequest : Type 0 where
  pub batch : Option Batch
  pub commit_index : ℕ
  pub group_id : Bytes
  pub follower_too_far_behind_error : Option (Unit {0})

pub record ReplicateResponse : Type 0 where
  pub apply_index : ℕ

-- The `oneof body` of `S2CMessage`.
pub data Body : Type 0 where
  state_request : StateRequest → Body
  state_request_response : Option Bytes → Body
  replicate_request : ReplicateRequest → Body
  replicate_response : ReplicateResponse → Body
  follow : Follow → Body
  follow_response : Body
  handshake : Handshake → Body

-- The `oneof error` of `S2CMessage`.
pub data S2cError : Type 0 where
  not_leader_error leader_starting_error not_follower_error slow_down_error internal_error :
      S2cError
  unknown_group_error : S2cError

pub record S2cMessage : Type 0 where
  pub correlation_id : Bytes
  pub body : Option Body
  pub error : Option S2cError

-- `S2cMessageEnvelope` of src/network/group_server.rs.
pub record S2cMessageEnvelope : Type 0 where
  pub s2c_message : S2cMessage
  pub node_identity : NodeIdentity
