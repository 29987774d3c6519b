-- ===== src/Fsm/Follower/Heartbeat.antt =====
-- When a follower gives its leader up.
use s2c_rs.Base.{
  ℕ, zero, suc, ◌+◌, ◌≤◌, ◌<◌, ◌^◌, ◌≡◌, refl, List, [], ◌∷◌, true, false, arith, replicate,
  if◌then◌else◌, leb, leb→le, Bool-cases, inl, inr,
}
use s2c_rs.Fsm.{Fsm, not_joined, follower}
use s2c_rs.Fsm.Follower.{Event, elapsed, on_timeout, follower_step, follower_loop}

timeout_early :
    (fsm : Fsm)
    → fsm.missed_heartbeats + 1 < fsm.s2c_options.max_missed_heartbeats
    → fsm.s2c_options.max_missed_heartbeats < 2 ^ 32
    → follower_step fsm elapsed ≡ record {
      fsm = record fsm { missed_heartbeats = fsm.missed_heartbeats + 1 };
      sent = [];
      ended = false;
    }
unfolding follower_step on_timeout
timeout_early fsm h k = ground arith

timeout_last :
    (fsm : Fsm)
    → fsm.s2c_options.max_missed_heartbeats ≤ fsm.missed_heartbeats + 1
    → fsm.missed_heartbeats + 1 < 2 ^ 32
    → follower_step fsm elapsed ≡ record {
      fsm = record fsm { missed_heartbeats = fsm.missed_heartbeats + 1; state = not_joined };
      sent = [];
      ended = true;
    }
unfolding follower_step on_timeout
timeout_last fsm h k = ground arith

-- A follower below its limit of missed heartbeats, the limit a u32, that sees a number of
-- timeouts in a row ends its loop as `NOT_JOINED` if they bring the count to the limit, and
-- otherwise stays a follower; it sends nothing.
pub missed_heartbeats_lem :
    (n : ℕ) (fsm : Fsm)
    → fsm.state ≡ follower
    → fsm.missed_heartbeats < fsm.s2c_options.max_missed_heartbeats
    → fsm.s2c_options.max_missed_heartbeats < 2 ^ 32
    → let s = follower_loop fsm (replicate n elapsed) in
      (s.ended ≡ leb fsm.s2c_options.max_missed_heartbeats (fsm.missed_heartbeats + n))
      × (s.fsm.state ≡ (if s.ended then not_joined else follower))
      × (s.sent ≡ [])
unfolding follower_loop
missed_heartbeats_lem zero fsm e h k = ground arith
missed_heartbeats_lem (suc n) fsm e h k =
    let limit = fsm.s2c_options.max_missed_heartbeats in
    let next : Fsm = record fsm { missed_heartbeats = fsm.missed_heartbeats + 1 } in
    elim (Bool-cases (leb limit (fsm.missed_heartbeats + 1))) [
      | inl last ↦ rw (timeout_last fsm (leb→le _ _ last) (omega arith)) (ground arith)
      | inr early ↦
          let room : fsm.missed_heartbeats + 1 < limit = ground arith in
          let ih = missed_heartbeats_lem n next e room k in
          let sum : fsm.missed_heartbeats + 1 + n ≡ fsm.missed_heartbeats + suc n = omega arith in
          rw (timeout_early fsm room k) (rw sum at ih)
    ]

-- A follower whose count of missed heartbeats is at the limit or above, and does not wrap, ends
-- its loop as `NOT_JOINED` at a first timeout, whatever would follow.
pub rejoined_gives_up :
    (fsm : Fsm) (es : List Event)
    → fsm.s2c_options.max_missed_heartbeats ≤ fsm.missed_heartbeats
    → fsm.missed_heartbeats + 1 < 2 ^ 32
    → let s = follower_loop fsm (elapsed ∷ es) in (s.ended ≡ true) × (s.fsm.state ≡ not_joined)
unfolding follower_loop
rejoined_gives_up fsm es h k = rw (timeout_last fsm (omega arith) k) (refl, refl)
