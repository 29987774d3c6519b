-- ===== src/Fsm/Leader/Rounds.antt =====
-- Properties of the node over the rounds of the leader loop.
use s2c_rs.Base.{
  ℕ, List, [], ◌∷◌, ◌++◌, Option, none, some, Bool-cases, inl, inr, ◌||◌, ltb, length, returns,
  Holds, Holds-bind, Holds-returns, Bytes, if◌then◌else◌,
}
use s2c_rs.Codec.{Codec}
use s2c_rs.Proto.{
  NodeIdentity, S2cMessageEnvelope, Body, StateRequest, Batch, state_request,
  state_request_response, replicate_request, replicate_response, follow, follow_response, handshake,
}
use s2c_rs.Store.{ObjectStore}
use s2c_rs.Log.{append}
use s2c_rs.Fsm.{Fsm}
use s2c_rs.Fsm.Leader.{
  Pending, Round, add_follower, take_due, take_all, batch_entries, first_due, is_closed, flush,
  leader_round, leader_loop,
}

module _ (S : ObjectStore) where
  open S use {State}

  module _ (P : Fsm → State → Type 0)
      (followers : (fsm : Fsm) (ids : List NodeIdentity) (s : State)
        → P fsm s
        → P (record fsm { followers = ids }) s) where
    add_follower-keeps :
        (p : Pending) (id : Option NodeIdentity) (s : State)
        → P p.fsm s
        → Holds (λ q. P q.fsm s) (add_follower p id)
    unfolding add_follower
    add_follower-keeps p none s h = tt
    add_follower-keeps p (some id) s h = followers p.fsm (p.fsm.followers ++ (id ∷ [])) s h

    take_due-keeps :
        (p : Pending) (b : Option Body) (s : State)
        → P p.fsm s
        → Holds (λ q. P q.fsm s) (take_due p b)
    unfolding take_due
    take_due-keeps p none s h = h
    take_due-keeps p (some (state_request r)) s h = h
    take_due-keeps p (some (follow f)) s h = add_follower-keeps p f.node_identity s h
    take_due-keeps p (some (replicate_request r)) s h = h
    take_due-keeps p (some (replicate_response r)) s h = h
    take_due-keeps p (some (state_request_response r)) s h = h
    take_due-keeps p (some follow_response) s h = h
    take_due-keeps p (some (handshake r)) s h = h

    pub take_all-keeps :
        (p : Pending) (xs : List S2cMessageEnvelope) (s : State)
        → P p.fsm s
        → Holds (λ q. P q.fsm s) (take_all p xs)
    unfolding take_all
    take_all-keeps p [] s h = h
    take_all-keeps p (x ∷ xs) s h =
        Holds-bind (λ q. P q.fsm s) (take_due p x.s2c_message.body) (λ q. take_all q xs)
          (λ q e.
            take_all-keeps q xs s
              (Holds-returns (λ y. P y.fsm s) e (take_due-keeps p x.s2c_message.body s h)))

    module _
        (appends : (rounds : ℕ) (v : Bytes) (fsm : Fsm) (s : State)
          → P fsm s
          → Holds (λ o. P fsm o.1) (append S rounds fsm.s2c_log fsm.commit_index v s))
        (R : Codec StateRequest) (B : Codec Batch) where
      abbrev Kept : Pending × State → Type 0
      Kept o = P o.0.fsm o.1

      flush-keeps :
          (rounds : ℕ) (p : Pending) (s : State) → P p.fsm s → Holds Kept (flush S R B rounds p s)
      unfolding flush
      flush-keeps rounds p s h = Holds-bind Kept (batch_entries R p.acc) _ (λ entries _.
          let v = B.encode (record { entries = entries }) in
          Holds-bind Kept (append S rounds p.fsm.s2c_log p.fsm.commit_index v s) _
            (λ o e. Holds-returns (λ x. P p.fsm x.1) e (appends rounds v p.fsm s h)))

      leader_round-keeps :
          (rounds : ℕ) (p : Pending) (r : Round) (s : State)
          → P p.fsm s
          → Holds Kept (leader_round S R B rounds p r s)
      unfolding leader_round
      leader_round-keeps rounds p r s h =
          let xs = first_due r.next ++ (r.local_requests ++ r.requests) in
          Holds-bind Kept (take_all p xs) _
            (λ q e. due q (Holds-returns (λ y. P y.fsm s) e (take_all-keeps p xs s h)))
        where
          due :
              (q : Pending)
              → P q.fsm s
              → Holds Kept (
                  if r.interval_over || ltb q.fsm.s2c_options.batch_min_count (length q.acc)
                  then flush S R B rounds q s
                  else returns (q, s))
          due q k =
              elim (Bool-cases
                (r.interval_over || ltb q.fsm.s2c_options.batch_min_count (length q.acc))) [
                  | inl x ↦ rw x (flush-keeps rounds q s k)
                  | inr x ↦ rw x k
                ]

      pub leader_loop-keeps :
          (rounds : ℕ) (p : Pending) (rs : List Round) (s : State)
          → P p.fsm s
          → Holds Kept (leader_loop S R B rounds p rs s)
      unfolding leader_loop
      leader_loop-keeps rounds p [] s h = h
      leader_loop-keeps rounds p (r ∷ rs) s h = elim (Bool-cases (is_closed r.next)) [
        | inl x ↦ rw x h
        | inr x ↦ rw x (
            Holds-bind Kept (leader_round S R B rounds p r s) _ (λ o e.
              leader_loop-keeps rounds o.0 rs o.1
                (Holds-returns Kept e (leader_round-keeps rounds p r s h))))
      ]
