-- ===== src/Fsm.antt =====
-- src/fsm.rs: a node of a group, as the fields that its own code reads and writes. The server, the
-- client and the channels are the environment of its loops.
pub mod Leadership
pub mod Follower
pub mod Leader
pub mod Join
pub mod Start
pub mod Cluster
use s2c_rs.Base.{ℕ, List, [], Bytes}
use s2c_rs.Config.{S2cOptions}
use s2c_rs.Proto.{NodeIdentity}
use s2c_rs.SyncQueue.{ReplicateQueue}
use s2c_rs.SyncQueue
use s2c_rs.Log.{S2cLog}

pub data FsmState : Type 0 where
  not_joined follower leader stopped : FsmState

pub record Fsm : Type 0 where
  pub state : FsmState
  pub s2c_options : S2cOptions
  pub sync_queue : ReplicateQueue
  pub group : Bytes
  pub node_identity : NodeIdentity
  pub s2c_log : S2cLog
  pub missed_heartbeats : ℕ  -- u32
  pub commit_index : ℕ  -- u64
  pub apply_index : ℕ  -- u64
  pub epoch : ℕ  -- u64
  pub followers : List NodeIdentity

unfoldable pub new : Bytes → S2cOptions → NodeIdentity → S2cLog → Fsm
new group s2c_options node_identity s2c_log = record {
  state = not_joined;
  s2c_options = s2c_options;
  sync_queue = SyncQueue.new s2c_options.max_batches_pending_for_apply;
  group = group;
  node_identity = node_identity;
  s2c_log = s2c_log;
  missed_heartbeats = 0;
  commit_index = 0;
  apply_index = 0;
  epoch = 0;
  followers = [];
}
