-- ===== src/Fsm/Join/Calls.antt =====
-- When `connect` and `follow` return.
use s2c_rs.Base.{
  ℕ, zero, suc, ◌+◌, ◌-◌, ◌<◌, ◌^◌, ◌≡◌, refl, some, Option-cases, Bool-cases, inl, inr, Result,
  Result-cases, returns, Ends, Ends-value, arith,
}
use s2c_rs.Backoff.{BackoffCounter, can_attempt, await_attempt}
use s2c_rs.Backoff
use s2c_rs.Backoff.Attempts.{Within, new-Within, await_left}
use s2c_rs.Codec.{Codec}
use s2c_rs.Net.Error.{ClientError, closed, io, connect_timeout, not_connected, timeout}
use s2c_rs.Proto.{NodeIdentity, S2cMessage}
use s2c_rs.Store.{ObjectStore}
use s2c_rs.Fsm.{Fsm}
use s2c_rs.Fsm.Join.{
  Link, connect_loop, connect, follow_request, follow_again, follow_loop, follow_leader,
}

module _ (S : ObjectStore) (K : Link S) (m : ℕ) where
  open S use {State}

  connect_loop-Ends :
      (fuel : ℕ) (id : NodeIdentity) (b : BackoffCounter) (s : State)
      → Within m b
      → m - b.current_attempt < fuel
      → Ends (connect_loop S K fuel id b s)
  unfolding connect_loop
  connect_loop-Ends zero id b s w h = absurd (omega arith)
  connect_loop-Ends (suc fuel) id b s w h = elim (Result-cases (K.connect id s).0) [
    | inl (u, e) ↦ rw (e, connect_loop) tt
    | inr (x, e) ↦ elim (Bool-cases (can_attempt b)) [
      | inl y ↦
          let (w', l) = await_left m b (await_attempt b) w y refl in
          rw (e, y, connect_loop)
            (connect_loop-Ends fuel id (await_attempt b) (K.connect id s).1 w' (omega arith))
      | inr y ↦ rw (e, y, connect_loop) tt
    ]
  ]

  -- A round that goes on has used an attempt.
  follow_again_left :
      (b b' : BackoffCounter) (e : ClientError)
      → Within m b
      → follow_again S K b e ≡ some b'
      → Within m b' × (m - b'.current_attempt < m - b.current_attempt)
  unfolding follow_again
  follow_again_left b b' (io e) w n = elim (Bool-cases (can_attempt b)) [
    | inl y ↦ await_left m b b' w y (ground arith)
    | inr y ↦ absurd (ground arith)
  ]
  follow_again_left b b' closed w n = absurd cc
  follow_again_left b b' connect_timeout w n = absurd cc
  follow_again_left b b' not_connected w n = absurd cc
  follow_again_left b b' timeout w n = absurd cc

  follow_loop-Ends :
      (M : Codec S2cMessage) (fuel : ℕ) (fsm : Fsm) (b : BackoffCounter) (s : State)
      → Within m b
      → m - b.current_attempt < fuel
      → Ends (follow_loop S K M fuel fsm b s)
  unfolding follow_loop
  follow_loop-Ends M zero fsm b s w h = absurd (omega arith)
  follow_loop-Ends M (suc fuel) fsm b s w h =
      let (id, t) = K.new_id s in
      let (re, u) = K.send id (M.encode (follow_request S K fsm id)) t in
      elim (Result-cases re) [
        | inl (answer, e) ↦ rw (e, follow_loop) tt
        | inr (x, e) ↦ elim (Option-cases (follow_again S K b x)) [
          | inl n ↦ rw (e, n, follow_loop) tt
          | inr (b', n) ↦
              let (w', l) = follow_again_left b b' x w n in
              rw (e, n, follow_loop) (follow_loop-Ends M fuel fsm b' u w' (omega arith))
        ]
      ]

  -- If at most `m` attempts are allowed, with `m + 1` below 2 ^ 32, then `m + 1` rounds are
  -- enough for `connect` and for `follow` to return.
  pub calls_end :
      (M : Codec S2cMessage) (fsm : Fsm) (id : NodeIdentity) (s : State)
      → fsm.s2c_options.retry.max_attempts ≡ some m
      → m + 1 < 2 ^ 32
      → ((r : Result (Unit {0}) ClientError × State) × (connect S K (m + 1) fsm id s ≡ returns r))
        × ((r : Result (Unit {0}) ClientError × State) × (follow_leader S K M (m + 1) fsm s
              ≡ returns r))
  unfolding connect follow_leader
  calls_end M fsm id s h k =
      let o = fsm.s2c_options.retry in
      let b = Backoff.new o in
      let w = new-Within o m h k in
      (
        Ends-value (connect_loop S K (m + 1) id b s)
            (connect_loop-Ends (m + 1) id b s w (omega arith)),
        Ends-value (follow_loop S K M (m + 1) fsm b s)
            (follow_loop-Ends M (m + 1) fsm b s w (omega arith)),
      )
