-- ===== src/Fsm/Start.antt =====
-- `start` of src/fsm.rs, which runs the loop of the state that the node is in. A shift is what one
-- turn of it is given: the events of a follower, the rounds of a leader.
pub mod Rounds
pub mod Turns
pub mod Stays
pub mod Lost
pub mod Followed
use s2c_rs.Base.{
  ℕ, Bool, true, false, ◌||◌, List, [], ◌∷◌, Outcome, returns, panics, running, ◌>>=◌,
  if◌then◌else◌,
}
use s2c_rs.Codec.{Codec}
use s2c_rs.Proto.{LogEntry, S2cMessage, StateRequest, Batch}
use s2c_rs.Store.{ObjectStore}
use s2c_rs.Fsm.{Fsm, FsmState, not_joined, follower, leader, stopped}
use s2c_rs.Fsm.Follower.{Event, follower_loop}
use s2c_rs.Fsm.Leader.{Round, is_closed, leader_loop}
use s2c_rs.Fsm.Join.{Link, join}

pub record Shift : Type 0 where
  pub events : List Event
  pub rounds : List Round

-- The leader's loop ends where a round finds the channel closed.
unfoldable pub closes : List Round → Bool
closes [] = false
closes (r ∷ rs) = is_closed r.next || closes rs

unfoldable pub is_stopped : FsmState → Bool
is_stopped stopped = true
is_stopped not_joined = false
is_stopped follower = false
is_stopped leader = false

module _ (S : ObjectStore) (K : Link S) (C : Codec LogEntry) (M : Codec S2cMessage)
    (R : Codec StateRequest) (B : Codec Batch) where
  -- `fuel` and `rounds` are those of `join` and of the appends.
  unfoldable pub turn : ℕ → ℕ → Fsm → Shift → S.State → Outcome (Fsm × S.State)
  turn fuel rounds fsm shift s = elim fsm.state [
    | not_joined ↦ join S K C M fuel rounds fsm s
    | follower ↦
        let done = follower_loop fsm shift.events in
        if done.ended then returns (done.fsm, s) else running
    | leader ↦
        let done = leader_loop S R B rounds (record { fsm = fsm; acc = [] }) shift.rounds s in
        if closes shift.rounds then (done >>= λ (p, t). returns (p.fsm, t)) else running
    | stopped ↦ returns (fsm, s)
  ]

  unfoldable pub start : ℕ → ℕ → Fsm → List Shift → S.State → Outcome (Fsm × S.State)
  start fuel rounds fsm [] s = running
  start fuel rounds fsm (shift ∷ shifts) s =
      let next = turn fuel rounds fsm shift s >>= λ (g, t). start fuel rounds g shifts t in
      if is_stopped fsm.state then returns (fsm, s) else next
