-- ===== src/Fsm/Join/Progress.antt =====
-- A node in front of an empty log.
use s2c_rs.Base.{
  ℕ, zero, suc, ◌≤◌, ◌<◌, ◌≡◌, refl, sym, ap, ◌∙◌, ◌>>=◌, subst, ◌⊎◌, inl, inr, Bool-cases, true,
  List, none, some, Bytes, ok, err, Outcome, returns, Result, arith,
}
use s2c_rs.Backoff.{BackoffCounter, can_attempt, await_attempt}
use s2c_rs.Backoff
use s2c_rs.Codec.{Codec}
use s2c_rs.Config.{to_unlimited}
use s2c_rs.Failure.{StoreError, generic, is_transient}
use s2c_rs.Proto.{LogEntry, S2cMessage}
use s2c_rs.Store.{ObjectStore}
use s2c_rs.Log.{append_again, append_loop, append, entry_path, get_head}
use s2c_rs.Log.Head.{AreTransient, failures, get_head_missing}
use s2c_rs.Fsm.{Fsm, not_joined}
use s2c_rs.Fsm.Leadership.{
  next_index, leadership_entry, won, lost, leadership_loop, attempt_leadership,
}
use s2c_rs.Fsm.Join.{
  Link, discover_leader_state, discover_loop, after_discover, try_leadership, join_round, join_loop,
  join, leaves, goes_on,
}
use s2c_rs.Fsm.Join.Rounds.{join_loop_turn}

module _ (S : ObjectStore) where
  open S use {State, Location, put_create, list, path_from}

  -- Of the creates of a payload at a path, so many fail with a transient error, and the next one
  -- succeeds.
  abbrev pub GetsThrough : Location → Bytes → ℕ → State → State → Type 0
  GetsThrough p v zero s t = ((put_create p v s).0 ≡ ok tt) × ((put_create p v s).1 ≡ t)
  GetsThrough p v (suc n) s t =
      (m : Bytes) × ((put_create p v s).0 ≡ err (generic m))
      × (is_transient (generic m) ≡ true)
      × GetsThrough p v n (put_create p v s).1 t

  module _ (p : Location) (v : Bytes) (t : State) where
    -- The append succeeds, or it gives up between two creates.
    abbrev Past : ℕ → Outcome (Result (Unit {0}) StoreError × State) → Type 0
    Past n o =
        (o ≡ returns (ok tt, t))
        ⊎ ((m : Bytes) × (u : State) × (k : ℕ) × (k < n)
            × (is_transient (generic m) ≡ true)
            × GetsThrough p v k u t
            × (o ≡ returns (err (generic m), u)))

    later : (n : ℕ) (o : Outcome (Result (Unit {0}) StoreError × State)) → Past n o → Past (suc n) o
    later n o (inl e) = inl e
    later n o (inr (m, u, k, l, x, g, e)) = inr (m, u, k, omega arith, x, g, e)

    append_loop-Past :
        (fuel : ℕ) (b : BackoffCounter) (n : ℕ) (s : State)
        → n < fuel
        → GetsThrough p v n s t
        → Past n (append_loop S fuel p v b s)
    unfolding append_loop append_again
    append_loop-Past zero b n s l g = absurd (omega arith)
    append_loop-Past (suc fuel) b zero s l (e, q) =
        inl (rw (e, append_loop) (ap (λ u. returns (ok tt, u)) q))
    append_loop-Past (suc fuel) b (suc n) s l (m, e, x, g) = elim (Bool-cases (can_attempt b)) [
      | inl c ↦
          rw (e, x, c, append_loop)
            (later n _
              (append_loop-Past fuel (await_attempt b) n (put_create p v s).1 (omega arith) g))
      | inr c ↦ inr (m, (put_create p v s).1, n, omega arith, x, g, rw (e, x, c, append_loop) refl)
    ]

  lost-none :
      (fsm : Fsm) (m : Bytes) → is_transient (generic m) ≡ true → lost fsm (generic m) ≡ none
  unfolding lost
  lost-none fsm m x = rw x refl

  leadership_loop_through :
      (fuel rounds : ℕ) (fsm : Fsm) (v : Bytes) (b : BackoffCounter) (n : ℕ) (s t : State)
      → n < fuel
      → n < rounds
      → GetsThrough (entry_path S fsm.s2c_log (next_index fsm)) v n s t
      → leadership_loop S fuel rounds fsm v b s ≡ returns (won fsm, t)
  unfolding leadership_loop append
  leadership_loop_through zero rounds fsm v b n s t l k g = absurd (omega arith)
  leadership_loop_through (suc fuel) rounds fsm v b n s t l k g =
      let p = entry_path S fsm.s2c_log (next_index fsm) in
      elim (append_loop-Past p v t rounds (Backoff.new fsm.s2c_log.retry) n s k g) [
        | inl e ↦ rw (e, leadership_loop) refl
        | inr (m, u, j, i, x, h, e) ↦
            rw (e, leadership_loop)
              (subst
                (λ o.
                  ◌≡◌ {A = Outcome (Fsm × State)}
                    (elim o [
                      | some g ↦ returns (g, u)
                      | none ↦ leadership_loop S fuel rounds fsm v (await_attempt b) u
                    ])
                    (returns (won fsm, t)))
                (sym (lost-none fsm m x))
                (leadership_loop_through fuel rounds fsm v (await_attempt b) j u t (omega arith)
                  (omega arith) h))
      ]

module _ (S : ObjectStore) (K : Link S) (C : Codec LogEntry) (M : Codec S2cMessage) where
  open S use {State, list, path_from}

  discover_nothing :
      (fuel rounds : ℕ) (fsm : Fsm) (s : State)
      → (get_head S fsm.s2c_log s).0 ≡ returns (ok none)
      → discover_leader_state S C (suc fuel) rounds fsm s
        ≡ returns (ok none, (list (path_from fsm.s2c_log.keys.log_prefix) s).1)
  unfolding discover_leader_state discover_loop get_head
  discover_nothing fuel rounds fsm s h = rw h refl

  round_leads :
      (fuel rounds : ℕ) (fsm : Fsm) (b : BackoffCounter) (s u t : State)
      → discover_leader_state S C fuel rounds fsm s ≡ returns (ok none, u)
      → attempt_leadership S C fuel rounds fsm u ≡ returns (won fsm, t)
      → join_round S K C M fuel rounds fsm b s ≡ returns (goes_on (won fsm) b, t)
  unfolding join_round after_discover try_leadership
  round_leads fuel rounds fsm b s u t h k = rw (h, k)

  joins_as_leader :
      (fuel rounds : ℕ) (fsm : Fsm) (s u t : State)
      → fsm.state ≡ not_joined
      → discover_leader_state S C (suc fuel) rounds fsm s ≡ returns (ok none, u)
      → attempt_leadership S C (suc fuel) rounds fsm u ≡ returns (won fsm, t)
      → join S K C M (suc (suc fuel)) rounds fsm s ≡ returns (won fsm, t)
  unfolding join join_loop won
  joins_as_leader fuel rounds fsm s u t e h k =
      let b = Backoff.new fsm.s2c_options.retry in
      join_loop_turn S K C M (suc fuel) rounds fsm b s e
      ∙ ap
          (λ o. o >>= λ x. elim x.0 [
            | leaves g ↦ returns (g, x.1)
            | goes_on g b' ↦ join_loop S K C M (suc fuel) rounds g b' x.1
          ])
          (round_leads (suc fuel) rounds fsm b s u t h k)

  -- If a listing gives nothing but transient failures, and of the creates of the entry of a
  -- `NOT_JOINED` node at its next index the first `n` fail with a transient `Generic` error and
  -- the next one succeeds, then `n + 2` rounds of `join` with `n + 1` of each append are enough
  -- for `join` to return, with the node as leader and the store as this create leaves it,
  -- whatever the retry options are.
  pub empty_log_is_led :
      (fuel rounds n : ℕ) (fsm : Fsm) (s t : State) (es : List StoreError)
      → fsm.state ≡ not_joined
      → AreTransient es
      → (list (path_from fsm.s2c_log.keys.log_prefix) s).0 ≡ failures S es
      → GetsThrough S
          (entry_path S fsm.s2c_log (next_index fsm))
          (C.encode (leadership_entry fsm))
          n
          (list (path_from fsm.s2c_log.keys.log_prefix) s).1
          t
      → n ≤ fuel
      → n < rounds
      → join S K C M (suc (suc fuel)) rounds fsm s ≡ returns (won fsm, t)
  unfolding attempt_leadership
  empty_log_is_led fuel rounds n fsm s t es e transient listed g l k =
      joins_as_leader fuel rounds fsm s _ t e
        (discover_nothing fuel rounds fsm s (get_head_missing S fsm.s2c_log s es transient listed))
        (leadership_loop_through S (suc fuel) rounds fsm (C.encode (leadership_entry fsm))
          (Backoff.new (to_unlimited fsm.s2c_options.retry)) n _ t (omega arith) k g)
