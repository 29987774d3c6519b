-- ===== src/Fsm/Follower/Rounds.antt =====
-- Properties of the node over the events of the follower loop.
use s2c_rs.Base.{ℕ, inl, inr, Bool-cases, List, [], ◌∷◌, Option, none, some, u32_add, leb}
use s2c_rs.Proto.{
  ReplicateRequest, S2cMessage, Body, state_request, state_request_response, replicate_request,
  replicate_response, follow, follow_response, handshake,
}
use s2c_rs.Fsm.{Fsm, not_joined}
use s2c_rs.Fsm.Follower.{
  Event, elapsed, received, channel_closed, on_timeout, on_message, on_replicate, refuse, accept,
  follower_step, follower_loop,
}

module _ {ℓ} (P : Fsm → Type ℓ)
    (misses : (fsm : Fsm) (n : ℕ) → P fsm → P (record fsm { missed_heartbeats = n }))
    (leaves : (fsm : Fsm) → P fsm → P (record fsm { state = not_joined }))
    (accepts : (r : ReplicateRequest) (fsm : Fsm)
      → P fsm
      → P (record fsm { sync_queue = accept r fsm.sync_queue })) where
  on_message-keeps :
      (fsm : Fsm) (m : S2cMessage) (b : Option Body) → P fsm → P (on_message fsm m b).fsm
  unfolding on_message on_replicate refuse
  on_message-keeps fsm m none h = h
  on_message-keeps fsm m (some (replicate_request r)) h =
      accepts r (record fsm { missed_heartbeats = 0 }) (misses fsm 0 h)
  on_message-keeps fsm m (some (state_request r)) h = h
  on_message-keeps fsm m (some (state_request_response r)) h = h
  on_message-keeps fsm m (some (replicate_response r)) h = h
  on_message-keeps fsm m (some (follow r)) h = h
  on_message-keeps fsm m (some follow_response) h = h
  on_message-keeps fsm m (some (handshake r)) h = h

  on_timeout-keeps : (fsm : Fsm) → P fsm → P (on_timeout fsm).fsm
  unfolding on_timeout
  on_timeout-keeps fsm h =
      let missed = u32_add fsm.missed_heartbeats 1 in
      elim (Bool-cases (leb fsm.s2c_options.max_missed_heartbeats missed)) [
        | inl e ↦ rw e (leaves (record fsm { missed_heartbeats = missed }) (misses fsm missed h))
        | inr e ↦ rw e (misses fsm missed h)
      ]

  follower_step-keeps : (fsm : Fsm) (e : Event) → P fsm → P (follower_step fsm e).fsm
  unfolding follower_step
  follower_step-keeps fsm elapsed h = on_timeout-keeps fsm h
  follower_step-keeps fsm (received x) h = on_message-keeps fsm x.s2c_message x.s2c_message.body h
  follower_step-keeps fsm channel_closed h = h

  pub follower_loop-keeps : (fsm : Fsm) (es : List Event) → P fsm → P (follower_loop fsm es).fsm
  unfolding follower_loop
  follower_loop-keeps fsm [] h = h
  follower_loop-keeps fsm (e ∷ es) h = elim (Bool-cases (follower_step fsm e).ended) [
    | inl x ↦ rw x (follower_step-keeps fsm e h)
    | inr x ↦ rw x (follower_loop-keeps (follower_step fsm e).fsm es (follower_step-keeps fsm e h))
  ]
