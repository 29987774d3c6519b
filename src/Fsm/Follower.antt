-- ===== src/Fsm/Follower.antt =====
-- `follower_loop` of src/fsm.rs over the events that its channel gives it. A response goes to the
-- outgoing channel; the error of a closed one is only logged.
pub mod Rounds
pub mod Replication
pub mod Heartbeat
use s2c_rs.Base.{
  ℕ, List, [], ◌∷◌, ◌++◌, Option, none, some, Bool, true, false, if◌then◌else◌, ◌==◌, leb, u32_add,
  u64_add,
}
use s2c_rs.Proto.{
  S2cMessage, S2cMessageEnvelope, Body, ReplicateRequest, state_request, state_request_response,
  replicate_request, replicate_response, follow, follow_response, handshake, not_leader_error,
}
use s2c_rs.SyncQueue.{ReplicateQueue, put}
use s2c_rs.Fsm.{Fsm, not_joined}

-- The receive times out, gives a message, or finds the channel closed.
pub data Event : Type 0 where
  elapsed : Event
  received : S2cMessageEnvelope → Event
  channel_closed : Event

-- The node after an event, what it sent, and whether the loop has ended.
pub record Step : Type 0 where
  pub fsm : Fsm
  pub sent : List S2cMessageEnvelope
  pub ended : Bool

abbrev goes_on : Fsm → List S2cMessageEnvelope → Step
goes_on fsm sent = record { fsm = fsm; sent = sent; ended = false }

unfoldable pub on_timeout : Fsm → Step
on_timeout fsm =
    let missed = u32_add fsm.missed_heartbeats 1 in
    if leb fsm.s2c_options.max_missed_heartbeats missed
    then record {
      fsm = record fsm { missed_heartbeats = missed; state = not_joined };
      sent = [];
      ended = true;
    }
    else goes_on (record fsm { missed_heartbeats = missed }) []

-- The node's own identity stands in the envelope of a response.
unfoldable pub reply : Fsm → S2cMessage → List S2cMessageEnvelope
reply fsm m = record { s2c_message = m; node_identity = fsm.node_identity } ∷ []

unfoldable pub accept : ReplicateRequest → ReplicateQueue → ReplicateQueue
accept replicate q =
    if replicate.commit_index == u64_add q.last_received_index 1 then put replicate q else q

unfoldable pub on_replicate : Fsm → S2cMessage → ReplicateRequest → Step
unfolding reply accept
on_replicate fsm m replicate =
    let q = accept replicate fsm.sync_queue in
    let fsm' = record fsm { missed_heartbeats = 0; sync_queue = q } in
    goes_on fsm' (
      reply fsm' (record {
        correlation_id = m.correlation_id;
        body = some (replicate_response (record { apply_index = q.last_received_index }));
        error = none;
      }))

unfoldable pub refuse : Fsm → S2cMessage → Step
unfolding reply
refuse fsm m = goes_on fsm (
    reply fsm
      (record { correlation_id = m.correlation_id; body = none; error = some not_leader_error }))

unfoldable pub on_message : Fsm → S2cMessage → Option Body → Step
on_message fsm m (some (replicate_request r)) = on_replicate fsm m r
on_message fsm m (some (state_request r)) = refuse fsm m
on_message fsm m (some (follow r)) = refuse fsm m
on_message fsm m (some (state_request_response r)) = goes_on fsm []
on_message fsm m (some (replicate_response r)) = goes_on fsm []
on_message fsm m (some follow_response) = goes_on fsm []
on_message fsm m (some (handshake r)) = goes_on fsm []
on_message fsm m none = goes_on fsm []

unfoldable pub follower_step : Fsm → Event → Step
follower_step fsm elapsed = on_timeout fsm
follower_step fsm (received msg) = on_message fsm msg.s2c_message msg.s2c_message.body
follower_step fsm channel_closed = record { fsm = fsm; sent = []; ended = true }

-- The loop up to the end of the events; `ended` tells whether it returned.
unfoldable pub follower_loop : Fsm → List Event → Step
follower_loop fsm [] = goes_on fsm []
follower_loop fsm (e ∷ es) =
    let now = follower_step fsm e in
    let later = follower_loop now.fsm es in
    if now.ended then now else record later { sent = now.sent ++ later.sent }
