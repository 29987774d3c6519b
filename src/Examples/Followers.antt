-- ===== src/Examples/Followers.antt =====
-- A follower that times out, and one that is sent requests.
use s2c_rs.Base.{ℕ, ◌≡◌, refl, List, [], ◌∷◌, map, none, some, Bytes, codes, false, arith}
use s2c_rs.Proto.{S2cMessageEnvelope, ReplicateRequest, replicate_request, handshake}
use s2c_rs.SyncQueue.{ReplicateQueue}
use s2c_rs.Fsm.{Fsm, follower, not_joined}
use s2c_rs.Fsm
use s2c_rs.Fsm.Follower.{received, follower_loop}
use s2c_rs.Fsm.Follower.Replication.{
  follower_never_receives, asked, answered, follower_loop_answers,
}
use s2c_rs.Examples.Nodes.{node_a, fsm_b}

abbrev batch_at : ℕ → ReplicateRequest
batch_at i = record {
  batch = none;
  commit_index = i;
  group_id = codes "g";
  follower_too_far_behind_error = none;
}

abbrev sent_as : Bytes → ReplicateRequest → S2cMessageEnvelope
sent_as id r = record {
  s2c_message = record { correlation_id = id; body = some (replicate_request r); error = none };
  node_identity = node_a;
}

abbrev greeting : S2cMessageEnvelope
greeting = record {
  s2c_message = record {
    correlation_id = codes "h";
    body = some (handshake (record { group_id = codes "g"; node_identity = some node_a }));
    error = none;
  };
  node_identity = node_a;
}

abbrev fsm_f : Fsm
fsm_f = record fsm_b { state = follower }

-- A follower whose queue has room for any number of batches under the source's test.
abbrev fsm_open : Fsm
fsm_open = record fsm_f {
  sync_queue = record { queue = batch_at 4 ∷ []; size = 0; last_received_index = 4 };
}

abbrev two_batches : List S2cMessageEnvelope
two_batches = sent_as (codes "1") (batch_at 5) ∷ sent_as (codes "2") (batch_at 7) ∷ greeting ∷ []

follower_never_receives_example :
    (follower_loop fsm_f (received (sent_as (codes "1") (batch_at 1)) ∷ [])).fsm.sync_queue
    ≡ fsm_f.sync_queue
unfolding Fsm.new s2c_rs.SyncQueue.new
follower_never_receives_example =
    follower_never_receives fsm_f (received (sent_as (codes "1") (batch_at 1)) ∷ []) refl
      (omega arith)

follower_loop_answers_example :
    ((follower_loop fsm_f (map received two_batches)).ended ≡ false)
    × (answered (follower_loop fsm_f (map received two_batches)).sent ≡ asked two_batches)
follower_loop_answers_example = follower_loop_answers fsm_f two_batches
