-- ===== src/Fsm/Start/Rounds.antt =====
-- Properties of a node and its store over a turn of `start`.
use s2c_rs.Base.{
  ℕ, ◌≡◌, refl, inl, inr, Bool-cases, List, [], ◌∷◌, Outcome, returns, ◌>>=◌, Holds, Holds-bind,
  Holds-returns,
}
use s2c_rs.Codec.{Codec}
use s2c_rs.Proto.{LogEntry, S2cMessage, StateRequest, Batch}
use s2c_rs.Store.{ObjectStore}
use s2c_rs.Fsm.{Fsm, not_joined, follower, leader, stopped}
use s2c_rs.Fsm.Follower.{Event, follower_loop}
use s2c_rs.Fsm.Leader.{Round, leader_loop}
use s2c_rs.Fsm.Join.{Link}
use s2c_rs.Fsm.Join.Rounds.{JoinKeeps, join-keeps}
use s2c_rs.Fsm.Start.{Shift, closes, turn}

-- The turns of `start`, one for each shift, wherever they leave the node.
abbrev pub turns :
    (S : ObjectStore)
    → Link S
    → Codec LogEntry
    → Codec S2cMessage
    → Codec StateRequest
    → Codec Batch
    → ℕ
    → ℕ
    → Fsm
    → List Shift
    → S.State
    → Outcome (Fsm × S.State)
turns S K C M R B fuel rounds fsm [] s = returns (fsm, s)
turns S K C M R B fuel rounds fsm (shift ∷ shifts) s =
    turn S K C M R B fuel rounds fsm shift s >>= λ o. turns S K C M R B fuel rounds o.0 shifts o.1

module _ (S : ObjectStore) (K : Link S) (C : Codec LogEntry) (M : Codec S2cMessage)
    (R : Codec StateRequest) (B : Codec Batch) (P : Fsm → S.State → Type 0) where
  open S use {State}

  pub turn-keeps :
      JoinKeeps S K C M P
      → ((fsm : Fsm) (es : List Event) (s : State)
          → fsm.state ≡ follower
          → P fsm s
          → P (follower_loop fsm es).fsm s)
      → ((fsm : Fsm) (rounds : ℕ) (rs : List Round) (s : State)
          → fsm.state ≡ leader
          → P fsm s
          → Holds
              (λ o. P o.0.fsm o.1)
              (leader_loop S R B rounds (record { fsm = fsm; acc = [] }) rs s))
      → (fuel rounds : ℕ) (fsm : Fsm) (shift : Shift) (s : State) → P fsm s
      → Holds (λ o. P o.0 o.1) (turn S K C M R B fuel rounds fsm shift s)
  unfolding turn
  turn-keeps keeps hears leads fuel rounds fsm shift s p =
      elim fsm.state
          as (λ q.
            fsm.state ≡ q → Holds (λ o. P o.0 o.1) (turn S K C M R B fuel rounds fsm shift s)) [
              | not_joined ↦ λ e. rw (e, turn) (join-keeps S K C M P keeps fuel rounds fsm s p)
              | follower ↦ λ e.
                  rw (e, turn)
                    (elim (Bool-cases (follower_loop fsm shift.events).ended) [
                      | inl x ↦ rw x (hears fsm shift.events s e p)
                      | inr x ↦ rw x tt
                    ])
              | leader ↦ λ e.
                  rw (e, turn)
                    (elim (Bool-cases (closes shift.rounds)) [
                      | inl x ↦ rw x (
                          Holds-bind (λ o. P o.0 o.1)
                            (leader_loop S R B rounds (record { fsm = fsm; acc = [] }) shift.rounds
                              s)
                            _
                            (λ o h.
                              Holds-returns (λ y. P y.0.fsm y.1) h
                                (leads fsm rounds shift.rounds s e p)))
                      | inr x ↦ rw x tt
                    ])
              | stopped ↦ λ e. rw (e, turn) p
            ]
        refl

  pub turns-keeps :
      ((fuel rounds : ℕ) (fsm : Fsm) (shift : Shift) (s : State)
        → P fsm s
        → Holds (λ o. P o.0 o.1) (turn S K C M R B fuel rounds fsm shift s))
      → (fuel rounds : ℕ) (fsm : Fsm) (shifts : List Shift) (s : State) → P fsm s
      → Holds (λ o. P o.0 o.1) (turns S K C M R B fuel rounds fsm shifts s)
  turns-keeps keeps fuel rounds fsm [] s a = a
  turns-keeps keeps fuel rounds fsm (shift ∷ shifts) s a =
      Holds-bind (λ o. P o.0 o.1) (turn S K C M R B fuel rounds fsm shift s) _
        (λ o h.
          turns-keeps keeps fuel rounds o.0 shifts o.1
            (Holds-returns (λ x. P x.0 x.1) h (keeps fuel rounds fsm shift s a)))
