-- ===== src/Fsm/Join/Discovery.antt =====
-- What `join` finds in the log.
use s2c_rs.Base.{
  ℕ, suc, ◌-◌, ◌≤◌, ◌≡◌, refl, ap, List, ◌∷◌, ◌++◌, some, ok, err, returns, arith, All, u64_max,
  true,
}
use s2c_rs.Backoff
use s2c_rs.Backoff.{BackoffCounter}
use s2c_rs.Codec.{Codec}
use s2c_rs.Failure.{StoreError, not_found, is_transient}
use s2c_rs.Proto.{LogEntry, S2cMessage}
use s2c_rs.Paths.{log_entry, invert}
use s2c_rs.Paths.Order.{lex_lt, max_ordered_index}
use s2c_rs.Store.{ObjectStore}
use s2c_rs.Log.{S2cLog, get_head, get_at, get_loop, entry_path, read_again}
use s2c_rs.Log.Head.{NamesEntries, AreTransient, failures, entries, get_head_newest}
use s2c_rs.Fsm.{Fsm, not_joined}
use s2c_rs.Fsm.Join.{
  Link, discover_loop, discover_leader_state, join, join_loop, join_round, after_discover,
  join_error,
}

module _ (S : ObjectStore) (C : Codec LogEntry) where
  open S use {State, list, get, path_from}

  -- The state after the listing of `get_head`.
  abbrev listed : S2cLog → State → State
  listed log s = (list (path_from log.keys.log_prefix) s).1

  entry_path-invert :
      (log : S2cLog) (i : ℕ)
      → i ≤ max_ordered_index
      → entry_path S log (invert i) ≡ path_from (log_entry log.keys i)
  unfolding entry_path invert
  entry_path-invert log i h =
      let twice : u64_max - (u64_max - i) ≡ i = omega arith in
      ap (λ n. path_from (log_entry log.keys n)) twice

  get_loop_missing :
      (rounds : ℕ) (p : S.Location) (b : BackoffCounter) (s : State)
      → (get p s).0 ≡ err not_found
      → get_loop S (suc rounds) p b s ≡ returns (err not_found, (get p s).1)
  unfolding get_loop read_again is_transient
  get_loop_missing rounds p b s e = rw (e, get_loop)

  get_at_missing :
      (rounds : ℕ) (log : S2cLog) (i : ℕ) (s : State)
      → i ≤ max_ordered_index
      → (get (path_from (log_entry log.keys i)) s).0 ≡ err not_found
      → get_at S (suc rounds) log (invert i) s
        ≡ returns (err not_found, (get (path_from (log_entry log.keys i)) s).1)
  unfolding get_at
  get_at_missing rounds log i s h e =
      rw (entry_path-invert log i h) (get_loop_missing rounds _ (Backoff.new log.retry) s e)

  get_head-state : (log : S2cLog) (s : State) → (get_head S log s).1 ≡ listed log s
  unfolding get_head
  get_head-state log s = refl

  discover_loop_missing :
      (fuel rounds : ℕ) (log : S2cLog) (b : BackoffCounter) (s t : State) (n : ℕ)
      → (get_head S log s).0 ≡ returns (ok (some n))
      → get_at S rounds log n (get_head S log s).1 ≡ returns (err not_found, t)
      → discover_loop S C (suc fuel) rounds log b s ≡ returns (err not_found, t)
  unfolding discover_loop read_again is_transient
  discover_loop_missing fuel rounds log b s t n h k = rw (h, k)

  -- If a listing gives transient failures and then entries with ordered indices in byte order,
  -- and the store has no object named by the index of the newest one, then the discovery of the
  -- leader ends with `NotFound`.
  discover_misses :
      (fuel rounds : ℕ) (fsm : Fsm) (s : State) (es : List StoreError) (i : ℕ) (js : List ℕ)
      → NamesEntries S fsm.s2c_log
      → AreTransient es
      → i ≤ max_ordered_index
      → All (λ j. j ≤ max_ordered_index) js
      → All
          (λ j.
            lex_lt (log_entry fsm.s2c_log.keys (invert i)) (log_entry fsm.s2c_log.keys (invert j))
            ≡ true)
          js
      → (list (path_from fsm.s2c_log.keys.log_prefix) s).0
        ≡ failures S es ++ entries S fsm.s2c_log (i ∷ js)
      → (get (path_from (log_entry fsm.s2c_log.keys i)) (listed fsm.s2c_log s)).0 ≡ err not_found
      → discover_leader_state S C (suc fuel) (suc rounds) fsm s
        ≡ returns (
          err not_found,
          (get (path_from (log_entry fsm.s2c_log.keys i)) (listed fsm.s2c_log s)).1,
        )
  unfolding discover_leader_state
  discover_misses fuel rounds fsm s es i js names transient h hs ks stream missing =
      let log = fsm.s2c_log in
      let p = path_from (log_entry log.keys i) in
      discover_loop_missing fuel (suc rounds) log (Backoff.new fsm.s2c_options.retry) s
        (get p (listed log s)).1 (invert i)
        (get_head_newest S log s es i js names transient h hs ks stream).0
        (rw (get_head-state log s) (get_at_missing rounds log i (listed log s) h missing))

module _ (S : ObjectStore) (K : Link S) (C : Codec LogEntry) (M : Codec S2cMessage) where
  open S use {State, list, get, path_from}

  join_gives_up :
      (fuel rounds : ℕ) (fsm : Fsm) (s t : State)
      → fsm.state ≡ not_joined
      → discover_leader_state S C fuel rounds fsm s ≡ returns (err not_found, t)
      → join S K C M (suc fuel) rounds fsm s ≡ returns (fsm, t)
  unfolding join join_loop join_round after_discover join_error is_transient discover_leader_state
  join_gives_up fuel rounds fsm s t e h = rw (e, h)

  -- If a listing gives transient failures and then entries with ordered indices in byte order,
  -- and the store has no object named by the index of the newest one, then a `join` of a
  -- `NOT_JOINED` node returns and leaves the node as it was.
  pub join_misses :
      (fuel rounds : ℕ) (fsm : Fsm) (s : State) (es : List StoreError) (i : ℕ) (js : List ℕ)
      → fsm.state ≡ not_joined
      → NamesEntries S fsm.s2c_log
      → AreTransient es
      → i ≤ max_ordered_index
      → All (λ j. j ≤ max_ordered_index) js
      → All
          (λ j.
            lex_lt (log_entry fsm.s2c_log.keys (invert i)) (log_entry fsm.s2c_log.keys (invert j))
            ≡ true)
          js
      → (list (path_from fsm.s2c_log.keys.log_prefix) s).0
        ≡ failures S es ++ entries S fsm.s2c_log (i ∷ js)
      → (get (path_from (log_entry fsm.s2c_log.keys i)) (listed S C fsm.s2c_log s)).0
        ≡ err not_found
      → join S K C M (suc (suc fuel)) (suc rounds) fsm s
        ≡ returns
            (fsm, (get (path_from (log_entry fsm.s2c_log.keys i)) (listed S C fsm.s2c_log s)).1)
  join_misses fuel rounds fsm s es i js n names transient h hs ks stream missing =
      join_gives_up (suc fuel) (suc rounds) fsm s _ n
        (discover_misses S C fuel rounds fsm s es i js names transient h hs ks stream missing)
