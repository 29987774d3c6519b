-- ===== src/Fsm/Follower/Replication.antt =====
-- What a follower takes in and what it answers.
use mathlib.Core.List.{map-append}
use mathlib.Core.Path.{ap₂}
use s2c_rs.Base.{
  ℕ, ◌<◌, ◌≡◌, refl, ◌∙◌, List, [], ◌∷◌, ◌++◌, map, Option, none, some, false, arith, Bytes,
  u64_add,
}
use s2c_rs.Proto.{
  S2cMessage, S2cMessageEnvelope, Body, ReplicateRequest, state_request, state_request_response,
  replicate_request, replicate_response, follow, follow_response, handshake,
}
use s2c_rs.SyncQueue.{ReplicateQueue, put}
use s2c_rs.Fsm.{Fsm}
use s2c_rs.Fsm.Follower.Rounds.{follower_loop-keeps}
use s2c_rs.Fsm.Follower.{
  Event, received, accept, on_replicate, refuse, on_message, follower_step, follower_loop,
}

-- The requests have consecutive commit indices, from the one after `a` up to `z`.
abbrev pub Chain : ℕ → List ReplicateRequest → ℕ → Type 0
Chain a [] z = a ≡ z
Chain a (r ∷ rs) z = (r.commit_index ≡ u64_add a 1) × Chain r.commit_index rs z

Chain-snoc :
    (a z : ℕ) (rs : List ReplicateRequest) (r : ReplicateRequest)
    → Chain a rs z
    → r.commit_index ≡ u64_add z 1
    → Chain a (rs ++ (r ∷ [])) r.commit_index
Chain-snoc a z [] r h e = (rw h e, refl)
Chain-snoc a z (x ∷ rs) r h e = (h.0, Chain-snoc x.commit_index z rs r h.1 e)

abbrev pub IsChain : ℕ → ReplicateQueue → Type 0
IsChain a q = Chain a q.queue q.last_received_index

accept-IsChain :
    (a : ℕ) (r : ReplicateRequest) (q : ReplicateQueue) → IsChain a q → IsChain a (accept r q)
unfolding accept put
accept-IsChain a r q h = ground (arith, Chain-snoc a q.last_received_index q.queue r h)

-- What the events do to the queue is a run of `accept`.
loop-keeps {ℓ} :
    (P : ReplicateQueue → Type ℓ)
    → ((r : ReplicateRequest) (q : ReplicateQueue) → P q → P (accept r q))
    → (fsm : Fsm) (es : List Event) → P fsm.sync_queue
    → P (follower_loop fsm es).fsm.sync_queue
loop-keeps P keep fsm es h =
    follower_loop-keeps (λ g. P g.sync_queue) (λ g n k. k) (λ g k. k)
      (λ r g k. keep r g.sync_queue k) fsm es h

-- If the queue of a follower holds consecutive commit indices that end with the last received
-- one, it does so after any events.
pub follower_loop-IsChain :
    (a : ℕ) (fsm : Fsm) (es : List Event)
    → IsChain a fsm.sync_queue
    → IsChain a (follower_loop fsm es).fsm.sync_queue
follower_loop-IsChain a fsm es h = loop-keeps (IsChain a) (accept-IsChain a) fsm es h

accept_empty :
    (r : ReplicateRequest) (q : ReplicateQueue) → (q.queue ≡ []) × (0 < q.size) → accept r q ≡ q
unfolding accept put
accept_empty r q h = ground (arith, h.0, h.1)

-- A follower whose queue is empty and has a positive size has the same queue after any events.
pub follower_never_receives :
    (fsm : Fsm) (es : List Event)
    → fsm.sync_queue.queue ≡ []
    → 0 < fsm.sync_queue.size
    → (follower_loop fsm es).fsm.sync_queue ≡ fsm.sync_queue
follower_never_receives fsm es e h =
    loop-keeps (λ q. q ≡ fsm.sync_queue) (λ r q s. rw s (accept_empty r fsm.sync_queue (e, h))) fsm
      es refl

-- The correlation ids of the requests that are answered, in order.
abbrev pub asked_by : S2cMessage → Option Body → List Bytes
asked_by m (some (replicate_request r)) = m.correlation_id ∷ []
asked_by m (some (state_request r)) = m.correlation_id ∷ []
asked_by m (some (follow r)) = m.correlation_id ∷ []
asked_by m (some (state_request_response r)) = []
asked_by m (some (replicate_response r)) = []
asked_by m (some follow_response) = []
asked_by m (some (handshake r)) = []
asked_by m none = []

abbrev pub asked : List S2cMessageEnvelope → List Bytes
asked [] = []
asked (x ∷ xs) = asked_by x.s2c_message x.s2c_message.body ++ asked xs

abbrev pub answered : List S2cMessageEnvelope → List Bytes
answered = map (λ x. x.s2c_message.correlation_id)

message-answers :
    (fsm : Fsm) (m : S2cMessage) (b : Option Body)
    → ((on_message fsm m b).ended ≡ false) × (answered (on_message fsm m b).sent ≡ asked_by m b)
unfolding on_message on_replicate refuse
message-answers fsm m none = (refl, refl)
message-answers fsm m (some (replicate_request r)) = (refl, refl)
message-answers fsm m (some (state_request r)) = (refl, refl)
message-answers fsm m (some (state_request_response r)) = (refl, refl)
message-answers fsm m (some (replicate_response r)) = (refl, refl)
message-answers fsm m (some (follow r)) = (refl, refl)
message-answers fsm m (some follow_response) = (refl, refl)
message-answers fsm m (some (handshake r)) = (refl, refl)

-- Messages do not end the follower loop; each replicate, state and follow request among them is
-- answered once, in order and under its own correlation id, and no other message is answered.
pub follower_loop_answers :
    (fsm : Fsm) (xs : List S2cMessageEnvelope)
    → ((follower_loop fsm (map received xs)).ended ≡ false)
      × (answered (follower_loop fsm (map received xs)).sent ≡ asked xs)
unfolding follower_loop follower_step
follower_loop_answers fsm [] = (refl, refl)
follower_loop_answers fsm (x ∷ xs) =
    let now = message-answers fsm x.s2c_message x.s2c_message.body in
    let next = (on_message fsm x.s2c_message x.s2c_message.body) in
    let later = follower_loop_answers next.fsm xs in
    rw now.0 (later.0, map-append _ next.sent _ ∙ ap₂ ◌++◌ now.1 later.1)
