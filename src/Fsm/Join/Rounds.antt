-- ===== src/Fsm/Join/Rounds.antt =====
-- Properties of a node and its store over `join`.
use s2c_rs.Base.{
  ℕ, zero, suc, ◌≡◌, refl, inl, inr, Bool-cases, Option, none, some, Result, ok, err, returns,
  ◌>>=◌, Holds, Holds-bind, Holds-returns, arith,
}
use s2c_rs.Backoff.{BackoffCounter}
use s2c_rs.Backoff
use s2c_rs.Codec.{Codec}
use s2c_rs.Proto.{LogEntry, LeaderState, NodeIdentity, S2cMessage}
use s2c_rs.Failure.{StoreError, is_transient}
use s2c_rs.Store.{ObjectStore}
use s2c_rs.Net.Error.{ClientError}
use s2c_rs.Fsm.{Fsm, not_joined, follower, leader, stopped}
use s2c_rs.Fsm.Leadership.{attempt_leadership}
use s2c_rs.Fsm.Join.{
  Link, Turn, leaves, goes_on, is_wrong_state, connect, follow_leader, discover_leader_state,
  try_leadership, after_follow, after_connect, join_leader, after_discover, join_error, join_round,
  join_loop, join,
}

-- A property of the node and the store with which a round ends.
abbrev TurnHolds : {A : Type 0} → (Fsm → A → Type 0) → Turn → A → Type 0
TurnHolds P (leaves g) s = P g s
TurnHolds P (goes_on g b) s = P g s

-- It is kept by what `join` does to find and reach the leader, by becoming a follower, and by an
-- attempt at leadership.
pub record JoinKeeps (S : ObjectStore) (K : Link S) (C : Codec LogEntry) (M : Codec S2cMessage)
    (P : Fsm → S.State → Type 0) : Type 0 where
  pub discovers :
      (fsm : Fsm) (fuel rounds : ℕ) (s : S.State)
      → P fsm s
      → Holds (λ o. P fsm o.1) (discover_leader_state S C fuel rounds fsm s)
  pub connects :
      (fsm : Fsm) (fuel : ℕ) (id : NodeIdentity) (s : S.State)
      → P fsm s
      → Holds (λ o. P fsm o.1) (connect S K fuel fsm id s)
  pub follows :
      (fsm : Fsm) (fuel : ℕ) (s : S.State)
      → fsm.state ≡ not_joined
      → P fsm s
      → Holds
          (λ o. P fsm o.1 × (o.0 ≡ ok tt → P (record fsm { state = follower }) o.1))
          (follow_leader S K M fuel fsm s)
  pub attempts :
      (fsm : Fsm) (fuel rounds : ℕ) (s : S.State)
      → fsm.state ≡ not_joined
      → P fsm s
      → Holds (λ o. P o.0 o.1) (attempt_leadership S C fuel rounds fsm s)

module _ (S : ObjectStore) (K : Link S) (C : Codec LogEntry) (M : Codec S2cMessage) where
  -- A turn of the loop on a `NOT_JOINED` node: a round, and the rest of the loop.
  pub join_loop_turn :
      (fuel rounds : ℕ) (fsm : Fsm) (b : BackoffCounter) (s : S.State)
      → fsm.state ≡ not_joined
      → join_loop S K C M (suc fuel) rounds fsm b s ≡ (
          join_round S K C M fuel rounds fsm b s >>= λ o. elim o.0 [
            | leaves g ↦ returns (g, o.1)
            | goes_on g b' ↦ join_loop S K C M fuel rounds g b' o.1
          ])
  unfolding join_loop
  join_loop_turn fuel rounds fsm b s e = ground arith

module _ (S : ObjectStore) (K : Link S) (C : Codec LogEntry) (M : Codec S2cMessage)
    (P : Fsm → S.State → Type 0) (keeps : JoinKeeps S K C M P) where
  open S use {State}

  abbrev Kept : Turn × State → Type 0
  Kept o = TurnHolds P o.0 o.1

  -- A round on a `NOT_JOINED` node.
  module _ (fsm : Fsm) (n : fsm.state ≡ not_joined) where
    try_leadership-Kept :
        (fuel rounds : ℕ) (b : BackoffCounter) (s : State)
        → P fsm s
        → Holds Kept (try_leadership S K C M fuel rounds fsm b s)
    unfolding try_leadership
    try_leadership-Kept fuel rounds b s p =
        Holds-bind Kept (attempt_leadership S C fuel rounds fsm s) _
          (λ o h. Holds-returns (λ x. P x.0 x.1) h (keeps.attempts fsm fuel rounds s n p))

    after_follow-Kept :
        (fuel rounds : ℕ) (b : BackoffCounter) (r : Result (Unit {0}) ClientError) (s : State)
        → P fsm s
        → (r ≡ ok tt → P (record fsm { state = follower }) s)
        → Holds Kept (after_follow S K C M fuel rounds fsm b r s)
    unfolding after_follow
    after_follow-Kept fuel rounds b (ok u) s p joins = joins refl
    after_follow-Kept fuel rounds b (err e) s p joins = elim (Bool-cases (is_wrong_state e)) [
      | inl w ↦ rw w p
      | inr w ↦ rw w (try_leadership-Kept fuel rounds b s p)
    ]

    after_connect-Kept :
        (fuel rounds : ℕ) (b : BackoffCounter) (r : Result (Unit {0}) ClientError) (s : State)
        → P fsm s
        → Holds Kept (after_connect S K C M fuel rounds fsm b r s)
    unfolding after_connect
    after_connect-Kept fuel rounds b (ok u) s p =
        Holds-bind Kept (follow_leader S K M fuel fsm s) _ (λ o h.
          let (now, joins) =
            Holds-returns (λ x. P fsm x.1 × (x.0 ≡ ok tt → P (record fsm { state = follower }) x.1))
              h (keeps.follows fsm fuel s n p) in
          after_follow-Kept fuel rounds b o.0 o.1 now joins)
    after_connect-Kept fuel rounds b (err e) s p = elim (Bool-cases (is_wrong_state e)) [
      | inl w ↦ rw w p
      | inr w ↦ rw w (try_leadership-Kept fuel rounds b s p)
    ]

    join_leader-Kept :
        (fuel rounds : ℕ) (b : BackoffCounter) (id : Option NodeIdentity) (s : State)
        → P fsm s
        → Holds Kept (join_leader S K C M fuel rounds fsm b id s)
    unfolding join_leader
    join_leader-Kept fuel rounds b none s p = tt
    join_leader-Kept fuel rounds b (some id) s p =
        Holds-bind Kept (connect S K fuel fsm id s) _ (λ o h.
          after_connect-Kept fuel rounds b o.0 o.1
            (Holds-returns (λ x. P fsm x.1) h (keeps.connects fsm fuel id s p)))

    join_error-Kept :
        (b : BackoffCounter) (e : StoreError) (s : State) → P fsm s → Kept (join_error fsm b e, s)
    unfolding join_error
    join_error-Kept b e s p = elim (Bool-cases (is_transient e)) [ inl w ↦ rw w p | inr w ↦ rw w p ]

    after_discover-Kept :
        (fuel rounds : ℕ) (b : BackoffCounter) (r : Result (Option LeaderState) StoreError)
        (s : State)
        → P fsm s
        → Holds Kept (after_discover S K C M fuel rounds fsm b r s)
    unfolding after_discover
    after_discover-Kept fuel rounds b (ok none) s p = try_leadership-Kept fuel rounds b s p
    after_discover-Kept fuel rounds b (ok (some l)) s p =
        join_leader-Kept fuel rounds b l.node_identity s p
    after_discover-Kept fuel rounds b (err e) s p = join_error-Kept b e s p

    join_round-Kept :
        (fuel rounds : ℕ) (b : BackoffCounter) (s : State)
        → P fsm s
        → Holds Kept (join_round S K C M fuel rounds fsm b s)
    unfolding join_round
    join_round-Kept fuel rounds b s p =
        Holds-bind Kept (discover_leader_state S C fuel rounds fsm s) _ (λ o h.
          after_discover-Kept fuel rounds b o.0 o.1
            (Holds-returns (λ x. P fsm x.1) h (keeps.discovers fsm fuel rounds s p)))

  after_turn :
      (fuel rounds : ℕ)
      → ((g : Fsm) (b : BackoffCounter) (s : State)
          → P g s
          → Holds (λ o. P o.0 o.1) (join_loop S K C M fuel rounds g b s))
      → (turn : Turn) (s : State) → TurnHolds P turn s
      → Holds
          (λ (o : Fsm × State). P o.0 o.1)
          (elim turn [
            | leaves g ↦ returns (g, s)
            | goes_on g b ↦ join_loop S K C M fuel rounds g b s
          ])
  after_turn fuel rounds rec (leaves g) s h = h
  after_turn fuel rounds rec (goes_on g b) s h = rec g b s h

  join_loop-keeps :
      (fuel rounds : ℕ) (fsm : Fsm) (b : BackoffCounter) (s : State)
      → P fsm s
      → Holds (λ o. P o.0 o.1) (join_loop S K C M fuel rounds fsm b s)
  unfolding join_loop
  join_loop-keeps zero rounds fsm b s p = tt
  join_loop-keeps (suc fuel) rounds fsm b s p =
      elim fsm.state
          as (λ q.
            fsm.state ≡ q → Holds (λ o. P o.0 o.1) (join_loop S K C M (suc fuel) rounds fsm b s)) [
              | not_joined ↦ λ e. rw (join_loop_turn S K C M fuel rounds fsm b s e) (
                  Holds-bind (λ o. P o.0 o.1) (join_round S K C M fuel rounds fsm b s) _
                    (λ o h.
                      after_turn fuel rounds (join_loop-keeps fuel rounds) o.0 o.1
                        (Holds-returns Kept h (join_round-Kept fsm e fuel rounds b s p))))
              | follower ↦ λ e. rw (e, join_loop) p
              | leader ↦ λ e. rw (e, join_loop) p
              | stopped ↦ λ e. rw (e, join_loop) p
            ]
        refl

  pub join-keeps :
      (fuel rounds : ℕ) (fsm : Fsm) (s : State)
      → P fsm s
      → Holds (λ o. P o.0 o.1) (join S K C M fuel rounds fsm s)
  unfolding join
  join-keeps fuel rounds fsm s p =
      join_loop-keeps fuel rounds fsm (Backoff.new fsm.s2c_options.retry) s p
