-- ===== src/Fsm/Start/Turns.antt =====
-- When `start` returns.
use s2c_rs.Base.{
  arith, ℕ, zero, suc, ◌≡◌, refl, List, [], ◌∷◌, returns, running, Holds, Holds-bind, Holds-returns,
  replicate, true, false, Bool-cases, inl, inr,
}
use s2c_rs.Codec.{Codec}
use s2c_rs.Proto.{LogEntry, S2cMessage, StateRequest, Batch}
use s2c_rs.Store.{ObjectStore}
use s2c_rs.Fsm.{Fsm, FsmState, not_joined, follower, leader, stopped}
use s2c_rs.Fsm.Follower.{channel_closed, follower_step, follower_loop}
use s2c_rs.Fsm.Join.{Link}
use s2c_rs.Fsm.Start.{Shift, is_stopped, turn, start}

pub stopped_state : (q : FsmState) → is_stopped q ≡ true → q ≡ stopped
unfolding is_stopped
stopped_state stopped e = refl
stopped_state not_joined e = cc
stopped_state follower e = cc
stopped_state leader e = cc

module _ (S : ObjectStore) (K : Link S) (C : Codec LogEntry) (M : Codec S2cMessage)
    (R : Codec StateRequest) (B : Codec Batch) where
  abbrev IsStopped : Fsm × S.State → Type 0
  IsStopped o = o.0.state ≡ stopped

  start-IsStopped :
      (fuel rounds : ℕ) (fsm : Fsm) (shifts : List Shift) (s : S.State)
      → Holds IsStopped (start S K C M R B fuel rounds fsm shifts s)
  unfolding start
  start-IsStopped fuel rounds fsm [] s = tt
  start-IsStopped fuel rounds fsm (shift ∷ shifts) s = elim (Bool-cases (is_stopped fsm.state)) [
    | inl e ↦ rw (e, start) (stopped_state fsm.state e)
    | inr e ↦
        rw (e, start)
          (Holds-bind IsStopped (turn S K C M R B fuel rounds fsm shift s) _
            (λ o h. start-IsStopped fuel rounds o.0 shifts o.1))
  ]

  pub start_returns_stopped :
      (fuel rounds : ℕ) (fsm g : Fsm) (shifts : List Shift) (s t : S.State)
      → start S K C M R B fuel rounds fsm shifts s ≡ returns (g, t)
      → g.state ≡ stopped
  start_returns_stopped fuel rounds fsm g shifts s t h =
      Holds-returns IsStopped h (start-IsStopped fuel rounds fsm shifts s)

  -- The shift of a follower whose channel is closed.
  abbrev pub closed_shift : Shift
  closed_shift = record { events = channel_closed ∷ []; rounds = [] }

  closed_turn :
      (fuel rounds : ℕ) (fsm : Fsm) (s : S.State)
      → fsm.state ≡ follower
      → turn S K C M R B fuel rounds fsm closed_shift s ≡ returns (fsm, s)
  unfolding turn follower_loop follower_step
  closed_turn fuel rounds fsm s h = ground arith

  -- `start` on a follower whose channel is closed has not returned after any number of turns.
  pub closed_follower_spins :
      (n fuel rounds : ℕ) (fsm : Fsm) (s : S.State)
      → fsm.state ≡ follower
      → start S K C M R B fuel rounds fsm (replicate n closed_shift) s ≡ running
  unfolding start is_stopped
  closed_follower_spins zero fuel rounds fsm s h = refl
  closed_follower_spins (suc n) fuel rounds fsm s h =
      let e : is_stopped fsm.state ≡ false = rw h refl in
      rw (e, closed_turn fuel rounds fsm s h) (closed_follower_spins n fuel rounds fsm s h)
