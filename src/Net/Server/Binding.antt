-- ===== src/Net/Server/Binding.antt =====
-- When a port is bound, and what a failed `start` leaves.
use s2c_rs.Base.{
  ℕ, zero, suc, ◌+◌, ◌-◌, ◌<◌, ◌^◌, ◌≡◌, refl, Bool-cases, inl, inr, some, Bytes, Result, ok, err,
  Result-cases, returns, Ends, Ends-value, Holds, Holds-bind, Holds-returns, arith,
}
use s2c_rs.Backoff.{BackoffCounter, can_attempt, await_attempt}
use s2c_rs.Backoff
use s2c_rs.Backoff.Attempts.{Within, new-Within, await_attempt-Within, can_attempt_left}
use s2c_rs.Config.{S2cRetryOptions}
use s2c_rs.Net.Server.{
  ServerState, not_bound, binding, compare_and_exchange, bind_loop, bind, started, start,
}

module _ {S : Type 0} (listen : S → Result (Unit {0}) Bytes × S) where
  bind_loop-Ends :
      (m fuel : ℕ) (b : BackoffCounter) (s : S)
      → Within m b
      → m - b.current_attempt < fuel
      → Ends (bind_loop listen fuel b s)
  unfolding bind_loop
  bind_loop-Ends m zero b s w h = absurd (omega arith)
  bind_loop-Ends m (suc fuel) b s w h = elim (Result-cases (listen s).0) [
    | inl (u, e) ↦ rw (e, bind_loop) tt
    | inr (x, e) ↦ elim (Bool-cases (can_attempt b)) [
      | inl c ↦
          let left = can_attempt_left m b w c in
          rw (e, c, bind_loop)
            (bind_loop-Ends m fuel (await_attempt b) (listen s).1 (await_attempt-Within m b w)
              (omega arith))
      | inr c ↦ rw (e, c, bind_loop) tt
    ]
  ]

  pub bind_ends :
      (m : ℕ) (retry : S2cRetryOptions) (s : S)
      → retry.max_attempts ≡ some m
      → m + 1 < 2 ^ 32
      → (r : Result (Unit {0}) Bytes × S) × (bind listen (m + 1) retry s ≡ returns r)
  unfolding bind
  bind_ends m retry s h k =
      Ends-value (bind_loop listen (m + 1) (Backoff.new retry) s)
        (bind_loop-Ends m (m + 1) (Backoff.new retry) s (new-Within retry m h k) (omega arith))

  -- A `start` that returns an error leaves the state `Binding`.
  abbrev LeftBinding : (Result (Unit {0}) Bytes × ServerState) × S → Type 0
  LeftBinding o = (e : Bytes) → o.0.0 ≡ err e → o.0.1 ≡ binding

  started-LeftBinding : (o : Result (Unit {0}) Bytes × S) → LeftBinding (started listen o)
  unfolding started
  started-LeftBinding (ok u, s) e h = cc
  started-LeftBinding (err x, s) e h = refl

  start-LeftBinding :
      (fuel : ℕ) (retry : S2cRetryOptions) (state : ServerState) (s : S)
      → Holds LeftBinding (start listen fuel retry state s)
  unfolding start
  start-LeftBinding fuel retry state s =
      elim (Bool-cases (compare_and_exchange not_bound binding state).0) [
        | inl e ↦
            rw (e, start)
              (Holds-bind LeftBinding (bind listen fuel retry s) _ (λ o h. started-LeftBinding o))
        | inr e ↦ rw (e, start) (λ x h. cc)
      ]

  start_binding :
      (fuel : ℕ) (retry : S2cRetryOptions) (s : S)
      → start listen fuel retry binding s ≡ returns ((ok tt, binding), s)
  unfolding start compare_and_exchange
  start_binding fuel retry s = refl

  -- A `start` that fails leaves the server `Binding`, and every later `start` returns success at
  -- once and changes nothing.
  pub failed_start_sticks :
      (fuel later : ℕ) (retry : S2cRetryOptions) (state g : ServerState) (e : Bytes) (s t u : S)
      → start listen fuel retry state s ≡ returns ((err e, g), t)
      → (g ≡ binding) × (start listen later retry g u ≡ returns ((ok tt, binding), u))
  failed_start_sticks fuel later retry state g e s t u h =
      let b = Holds-returns LeftBinding h (start-LeftBinding fuel retry state s) e refl in
      (b, rw b (start_binding later retry u))
