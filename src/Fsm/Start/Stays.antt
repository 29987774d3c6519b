-- ===== src/Fsm/Start/Stays.antt =====
-- `start` on a store whose creates fail only in ways that a later attempt can mend.
use s2c_rs.Base.{
  ℕ, ◌≢◌, inl, inr, Bool-cases, List, [], ◌∷◌, returns, Holds, Holds-bind, Holds-returns, Holds-all,
}
use s2c_rs.Codec.{Codec}
use s2c_rs.Proto.{LogEntry, S2cMessage, StateRequest, Batch}
use s2c_rs.Store.{ObjectStore}
use s2c_rs.Log.{append}
use s2c_rs.Fsm.{Fsm, stopped}
use s2c_rs.Fsm.Leadership.Stays.{FailsMildly, Goes, attempt_leadership-Goes}
use s2c_rs.Fsm.Follower.{Event, follower_loop}
use s2c_rs.Fsm.Follower.Rounds.{follower_loop-keeps}
use s2c_rs.Fsm.Leader.Rounds.{leader_loop-keeps}
use s2c_rs.Fsm.Join.{Link, discover_leader_state, connect, follow_leader}
use s2c_rs.Fsm.Join.Rounds.{JoinKeeps}
use s2c_rs.Fsm.Start.Rounds.{turn-keeps}
use s2c_rs.Fsm.Start.Turns.{stopped_state}
use s2c_rs.Fsm.Start.{Shift, is_stopped, turn, start}

follower_loop-Goes : (fsm : Fsm) (es : List Event) → Goes fsm → Goes (follower_loop fsm es).fsm
follower_loop-Goes = follower_loop-keeps Goes (λ g n h. h) (λ g h k. cc) (λ r g h. h)

module _ (S : ObjectStore) (mild : FailsMildly S) (K : Link S) (C : Codec LogEntry)
    (M : Codec S2cMessage) where
  open S use {State}

  join-Goes : JoinKeeps S K C M (λ g s. Goes g)
  join-Goes = record {
    discovers =
        λ fsm fuel rounds s n. Holds-all (discover_leader_state S C fuel rounds fsm s) (λ o _. n);
    connects = λ fsm fuel id s n. Holds-all (connect S K fuel fsm id s) (λ o _. n);
    follows =
        λ fsm fuel s e n. Holds-all (follow_leader S K M fuel fsm s) (λ o _. (n, λ _. λ k. cc));
    attempts = λ fsm fuel rounds s e n. attempt_leadership-Goes S mild C fuel rounds fsm s n;
  }

  module _ (R : Codec StateRequest) (B : Codec Batch) where
    turn-Goes :
        (fuel rounds : ℕ) (fsm : Fsm) (shift : Shift) (s : State)
        → Goes fsm
        → Holds (λ o. Goes o.0) (turn S K C M R B fuel rounds fsm shift s)
    turn-Goes =
        turn-keeps S K C M R B (λ g s. Goes g) join-Goes
          (λ fsm es s e n. follower_loop-Goes fsm es n)
          (λ fsm rounds rs s e n.
            leader_loop-keeps S (λ g u. Goes g) (λ g ids u k. k)
              (λ f v g u k. Holds-all (append S f g.s2c_log g.commit_index v u) (λ o _. k)) R B
              rounds (record { fsm = fsm; acc = [] }) rs s n)

    start-never :
        (fuel rounds : ℕ) (fsm : Fsm) (shifts : List Shift) (s : State)
        → Goes fsm
        → Holds (λ o. ⊥) (start S K C M R B fuel rounds fsm shifts s)
    unfolding start
    start-never fuel rounds fsm [] s n = tt
    start-never fuel rounds fsm (shift ∷ shifts) s n = elim (Bool-cases (is_stopped fsm.state)) [
      | inl e ↦ absurd (n (stopped_state fsm.state e))
      | inr e ↦
          rw (e, start)
            (Holds-bind (λ o. ⊥) (turn S K C M R B fuel rounds fsm shift s) _
              (λ o h.
                start-never fuel rounds o.0 shifts o.1
                  (Holds-returns (λ x. Goes x.0) h (turn-Goes fuel rounds fsm shift s n))))
    ]

    -- If every error of a create is `AlreadyExists` or transient, `start` on a node that is not
    -- `STOPPED` never returns, whatever its loops are given.
    pub start_goes_on :
        (fuel rounds : ℕ) (fsm g : Fsm) (shifts : List Shift) (s t : State)
        → fsm.state ≢ stopped
        → start S K C M R B fuel rounds fsm shifts s ≢ returns (g, t)
    start_goes_on fuel rounds fsm g shifts s t n h =
        Holds-returns (λ o. ⊥) h (start-never fuel rounds fsm shifts s n)
