-- ===== src/Examples/Queues.antt =====
-- A queue that is filled and emptied.
use s2c_rs.Base.{ℕ, ◌≡◌, List, [], ◌∷◌, ◌++◌, none, codes}
use s2c_rs.Proto.{ReplicateRequest}
use s2c_rs.SyncQueue.{ReplicateQueue}
use s2c_rs.SyncQueue
use s2c_rs.SyncQueue.Growth.{Op, puts, pops, run, popped, taken, run_order}

abbrev request_at : ℕ → ReplicateRequest
request_at i = record {
  batch = none;
  commit_index = i;
  group_id = codes "g";
  follower_too_far_behind_error = none;
}

abbrev calls : List Op
calls = puts (request_at 1) ∷ puts (request_at 2) ∷ pops ∷ puts (request_at 3) ∷ []

run_order_example :
    popped (SyncQueue.new 0) calls ++ (run (SyncQueue.new 0) calls).queue
    ≡ (SyncQueue.new 0).queue ++ taken (SyncQueue.new 0) calls
run_order_example = run_order (SyncQueue.new 0) calls
