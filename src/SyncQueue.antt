-- ===== src/SyncQueue.antt =====
-- src/sync_queue.rs: the batches that a follower has received and not yet applied.
pub mod Growth
use s2c_rs.Base.{ℕ, List, [], ◌∷◌, ◌++◌, Option, none, some, length, leb, if◌then◌else◌}
use s2c_rs.Proto.{ReplicateRequest}

pub record ReplicateQueue : Type 0 where
  pub queue : List ReplicateRequest
  pub size : ℕ
  pub last_received_index : ℕ

unfoldable pub new : ℕ → ReplicateQueue
new size = record { queue = []; size = size; last_received_index = 0 }

unfoldable pub put : ReplicateRequest → ReplicateQueue → ReplicateQueue
put request q =
    if leb q.size (length q.queue)
    then record q { last_received_index = request.commit_index; queue = q.queue ++ (request ∷ []) }
    else q

pop_front : List ReplicateRequest → Option (ReplicateRequest × List ReplicateRequest)
pop_front [] = none
pop_front (r ∷ rest) = some (r, rest)

unfoldable pub pop : ReplicateQueue → Option ReplicateRequest × ReplicateQueue
unfolding pop_front
pop q = elim (pop_front q.queue) [
  | none ↦ (none, q)
  | some (r, rest) ↦ (some r, record q { queue = rest })
]
