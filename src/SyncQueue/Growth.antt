-- ===== src/SyncQueue/Growth.antt =====
-- What sequences of `put` and `pop` do to a queue.
use s2c_rs.Base.{
  ◌<◌, ◌≡◌, refl, List, [], ◌∷◌, ◌++◌, none, some, arith, length, append_assoc, append-nil, leb,
  if◌then◌else◌, ◌∙◌, ap, sym,
}
use s2c_rs.Proto.{ReplicateRequest}
use s2c_rs.SyncQueue.{ReplicateQueue, put, pop}

pub data Op : Type 0 where
  puts : ReplicateRequest → Op
  pops : Op

unfoldable pub step : ReplicateQueue → Op → ReplicateQueue
step q (puts r) = put r q
step q pops = (pop q).1

unfoldable pub run : ReplicateQueue → List Op → ReplicateQueue
run q [] = q
run q (o ∷ os) = run (step q o) os

-- The requests that a step hands out, and those that it takes in.
abbrev pub out_of : ReplicateQueue → Op → List ReplicateRequest
out_of q (puts r) = []
out_of q pops = elim (pop q).0 [ none ↦ [] | some r ↦ r ∷ [] ]

abbrev pub into : ReplicateQueue → Op → List ReplicateRequest
into q (puts r) = if leb q.size (length q.queue) then r ∷ [] else []
into q pops = []

abbrev pub popped : ReplicateQueue → List Op → List ReplicateRequest
popped q [] = []
popped q (o ∷ os) = out_of q o ++ popped (step q o) os

abbrev pub taken : ReplicateQueue → List Op → List ReplicateRequest
taken q [] = []
taken q (o ∷ os) = into q o ++ taken (step q o) os

pop-queue : (q : ReplicateQueue) → out_of q pops ++ (pop q).1.queue ≡ q.queue
unfolding pop
pop-queue q = ground arith

step_order : (q : ReplicateQueue) (o : Op) → out_of q o ++ (step q o).queue ≡ q.queue ++ into q o
unfolding step put
step_order q (puts r) = ground (arith, append-nil q.queue)
step_order q pops = pop-queue q ∙ sym (append-nil q.queue)

-- Over any sequence of `put` and `pop`, the requests that were popped and those still held are,
-- in this order, those held at first and those that were taken in.
pub run_order :
    (q : ReplicateQueue) (os : List Op) → popped q os ++ (run q os).queue ≡ q.queue ++ taken q os
unfolding run
run_order q [] = sym (append-nil q.queue)
run_order q (o ∷ os) =
    append_assoc (out_of q o) (popped (step q o) os) (run (step q o) os).queue
    ∙ ap (◌++◌ (out_of q o)) (run_order (step q o) os)
    ∙ sym (append_assoc (out_of q o) (step q o).queue (taken (step q o) os))
    ∙ ap (λ l. l ++ taken (step q o) os) (step_order q o)
    ∙ append_assoc q.queue (into q o) (taken (step q o) os)

step_empty : (q : ReplicateQueue) (o : Op) → q.queue ≡ [] → 0 < q.size → step q o ≡ q
unfolding step put pop
step_empty q (puts r) e h = ground arith
step_empty q pops e h = ground arith

-- An empty queue of a positive size takes nothing in: no sequence of calls changes it.
pub run_empty : (q : ReplicateQueue) (os : List Op) → q.queue ≡ [] → 0 < q.size → run q os ≡ q
unfolding run
run_empty q [] e h = refl
run_empty q (o ∷ os) e h = rw (step_empty q o e h) (run_empty q os e h)

-- With size 0 every request is taken in, and the last index is that of the last request.
pub put_unbounded :
    (q : ReplicateQueue) (r : ReplicateRequest)
    → q.size ≡ 0
    → ((put r q).queue ≡ q.queue ++ (r ∷ [])) × ((put r q).last_received_index ≡ r.commit_index)
unfolding put
put_unbounded q r h = ground arith
