-- ===== src/Fsm/Cluster.antt =====
-- The nodes of one group side by side on one store (src/fsm.rs). An attempt at leadership is cut
-- into its single creates, so that the creates of different nodes interleave in any order.
pub mod Creates
pub mod Failover
pub mod Leaders
pub mod Turns
use s2c_rs.Base.{
  ℕ, zero, suc, ◌≡◌, List, [], Option, none, some, Bytes, Result, ok, err, Outcome, returns, ◌==◌,
  if◌then◌else◌,
}
use s2c_rs.Backoff.{BackoffCounter, await_attempt}
use s2c_rs.Backoff
use s2c_rs.Codec.{Codec}
use s2c_rs.Config.{S2cOptions, to_unlimited}
use s2c_rs.Failure.{StoreError}
use s2c_rs.Proto.{NodeIdentity, LogEntry, StateRequest, Batch}
use s2c_rs.Store.{ObjectStore, StoreLaws, Extends}
use s2c_rs.Log.{append_again, entry_path}
use s2c_rs.Log
use s2c_rs.Fsm.{Fsm, not_joined, follower, leader}
use s2c_rs.Fsm
use s2c_rs.Fsm.Leadership.{next_index, leadership_entry, won, lost}
use s2c_rs.Fsm.Follower.{Event, follower_loop}
use s2c_rs.Fsm.Leader.{Pending, Round, leader_loop}

-- A node is in no attempt, or in front of a create of one, with the counters of `append` and of
-- `attempt_leadership`.
pub data Phase : Type 0 where
  rests : Fsm → Phase
  tries : Fsm → BackoffCounter → BackoffCounter → Phase

abbrev pub fsm_of : Phase → Fsm
fsm_of (rests fsm) = fsm
fsm_of (tries fsm b b') = fsm

unfoldable pub begin_append : Fsm → BackoffCounter → Phase
begin_append fsm b' = tries fsm (Backoff.new fsm.s2c_log.retry) b'

unfoldable pub begin_attempt : Fsm → Phase
unfolding begin_append
begin_attempt fsm = begin_append fsm (Backoff.new (to_unlimited fsm.s2c_options.retry))

-- What the answer of an append that has ended makes of the node.
unfoldable pub after_append : Fsm → BackoffCounter → Result (Unit {0}) StoreError → Phase
unfolding begin_append
after_append fsm b' (ok u) = rests (won fsm)
after_append fsm b' (err e) = elim (lost fsm e) [
  | some g ↦ rests g
  | none ↦ begin_append fsm (await_attempt b')
]

-- What the answer of a create makes of it.
unfoldable pub after_create :
    Fsm → BackoffCounter → BackoffCounter → Result (Unit {0}) StoreError → Phase
unfolding after_append
after_create fsm b b' (ok u) = after_append fsm b' (ok u)
after_create fsm b b' (err e) = elim (append_again b e) [
  | some c ↦ tries fsm c b'
  | none ↦ after_append fsm b' (err e)
]

module _ (S : ObjectStore) (C : Codec LogEntry) where
  open S use {State, put_create}

  unfoldable pub create : Phase → State → Phase × State
  unfolding after_create
  create (rests fsm) s = (rests fsm, s)
  create (tries fsm b b') s =
      let (r, t) =
        put_create (entry_path S fsm.s2c_log (next_index fsm)) (C.encode (leadership_entry fsm))
          s in
      (after_create fsm b b' r, t)

  unfoldable pub creates : ℕ → Phase → State → Phase × State
  creates zero p s = (p, s)
  creates (suc n) p s = let (p', s') = create p s in creates n p' s'

-- The nodes, by number, and the store.
pub record Cluster (S : ObjectStore) : Type 0 where
  pub nodes : ℕ → Phase
  pub store : S.State

abbrev pub set_node : ℕ → Phase → (ℕ → Phase) → ℕ → Phase
set_node k p nodes j = if k == j then p else nodes j

module _ (S : ObjectStore) where
  open S use {State}

  unfoldable pub new_cluster : Bytes → (ℕ → S2cOptions) → (ℕ → NodeIdentity) → State → Cluster S
  unfolding Fsm.new Log.new
  new_cluster group options ids s = record {
    nodes = λ k. rests (Fsm.new group (options k) (ids k) (Log.new group (options k).retry));
    store = s;
  }

  module _ (L : StoreLaws S) (C : Codec LogEntry) (R : Codec StateRequest) (B : Codec Batch) where
    -- A node joins a leader, hears from it, leads, or makes a create of its attempt; anybody else
    -- may add to the store.
    pub data Step (c : Cluster S) : Cluster S → Type 0 where
      begins :
          (k : ℕ) (fsm : Fsm)
          → c.nodes k ≡ rests fsm
          → fsm.state ≡ not_joined
          → Step c (record c { nodes = set_node k (begin_attempt fsm) c.nodes })
      tries_create :
          (k : ℕ)
          → Step c (record {
            nodes = set_node k (create S C (c.nodes k) c.store).0 c.nodes;
            store = (create S C (c.nodes k) c.store).1;
          })
      follows :
          (k : ℕ) (fsm : Fsm)
          → c.nodes k ≡ rests fsm
          → fsm.state ≡ not_joined
          → Step c
              (record c { nodes = set_node k (rests (record fsm { state = follower })) c.nodes })
      hears :
          (k : ℕ) (fsm : Fsm) (es : List Event)
          → c.nodes k ≡ rests fsm
          → fsm.state ≡ follower
          → Step c (record c { nodes = set_node k (rests (follower_loop fsm es).fsm) c.nodes })
      leads :
          (k : ℕ) (fsm : Fsm) (rounds : ℕ) (rs : List Round) (q : Pending) (t : State)
          → c.nodes k ≡ rests fsm
          → fsm.state ≡ leader
          → leader_loop S R B rounds (record { fsm = fsm; acc = [] }) rs c.store ≡ returns (q, t)
          → Step c (record { nodes = set_node k (rests q.fsm) c.nodes; store = t })
      others : (t : State) → Extends S L c.store t → Step c (record c { store = t })

    pub data Reach (c : Cluster S) : Cluster S → Type 0 where
      start : Reach c c
      later : {d e : Cluster S} → Reach c d → Step d e → Reach c e
