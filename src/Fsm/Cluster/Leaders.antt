-- ===== src/Fsm/Cluster/Leaders.antt =====
-- The leaders of a cluster.
pub mod Members
pub mod Elections
use s2c_rs.Base.{
  ℕ, ◌≡◌, refl, sym, subst, ◌∙◌, ap, ◌≢◌, ◌⊎◌, inl, inr, Bool, true, false, List, [], Option, none,
  some, Option-cases, Bytes, Result, ok, err, Result-cases, Outcome, returns, Holds, Holds-mono,
  Holds-all, Holds-returns, arith, ℕ_discrete, ◌==◌, if◌then◌else◌, ltb,
}
use s2c_rs.Backoff.{BackoffCounter, await_attempt}
use s2c_rs.Backoff
use s2c_rs.Codec.{Codec}
use s2c_rs.Config.{S2cOptions}
use s2c_rs.Failure.{StoreError, generic, not_found, already_exists, other}
use s2c_rs.Paths.{KeysResolver}
use s2c_rs.Paths
use s2c_rs.Proto.{NodeIdentity, LogEntry, StateRequest, Batch}
use s2c_rs.Store.{ObjectStore, StoreLaws, Extends}
use s2c_rs.Log.{append, append_again, entry_path}
use s2c_rs.Log.Append.{Appended, append-Appended}
use s2c_rs.Fsm.{Fsm, FsmState, not_joined, follower, leader, stopped}
use s2c_rs.Fsm.Leadership.{next_index, next_epoch, leadership_entry, won, lost}
use s2c_rs.Fsm.Leadership.Election.{EpochIsIndex}
use s2c_rs.Fsm.Leadership.Campaign.{any_log, IsTaken, IsTaken-later}
use s2c_rs.Fsm.Follower.{Event, follower_loop}
use s2c_rs.Fsm.Follower.Rounds.{follower_loop-keeps}
use s2c_rs.Fsm.Leader.{Pending, Round, leader_loop}
use s2c_rs.Fsm.Leader.Rounds.{leader_loop-keeps}
use s2c_rs.Fsm.Cluster.{
  Phase, rests, tries, fsm_of, begin_append, begin_attempt, after_append, after_create, create,
  Cluster, set_node, new_cluster, Step, begins, tries_create, follows, hears, leads, others, Reach,
  start, later,
}
use s2c_rs.Fsm.Cluster.Leaders.Members.{
  Taken, IsMember, Unled, IsNode, IsMember-later, IsElected, Fresh, replaced-IsElected, moved,
}
use s2c_rs.Fsm.Cluster.Leaders.Elections.{create-IsElected}

module _ (S : ObjectStore) (L : StoreLaws S) (C : Codec LogEntry) (keys : KeysResolver) where
  open S use {State}

  -- What the follower loop leaves of the node.
  abbrev SameTerm : Fsm → Fsm → Type 0
  SameTerm fsm g =
      (g.s2c_log.keys ≡ fsm.s2c_log.keys)
      × (g.epoch ≡ fsm.epoch)
      × (g.commit_index ≡ fsm.commit_index)
      × (g.state ≡ leader → fsm.state ≡ leader)

  follower_loop-SameTerm : (fsm : Fsm) (es : List Event) → SameTerm fsm (follower_loop fsm es).fsm
  follower_loop-SameTerm fsm es =
      follower_loop-keeps (SameTerm fsm) (λ g n h. h) (λ g h. (h.0, h.1, h.2, λ e. cc)) (λ r g h. h)
        fsm es (refl, refl, refl, λ e. e)

  module _ (R : Codec StateRequest) (B : Codec Batch) where
    leader_loop-SameTerm :
        (fsm : Fsm) (rounds : ℕ) (rs : List Round) (s t : State) (q : Pending)
        → leader_loop S R B rounds (record { fsm = fsm; acc = [] }) rs s ≡ returns (q, t)
        → Extends S L s t × SameTerm fsm q.fsm
    leader_loop-SameTerm fsm rounds rs s t q h =
        Holds-returns (λ o. Extends S L s o.1 × SameTerm fsm o.0.fsm) h
          (leader_loop-keeps S (λ g u. Extends S L s u × SameTerm fsm g) (λ g ids u k. k)
            (λ f v g u k. Holds-all (append S f g.s2c_log g.commit_index v u) (λ o e.
              let done = append-Appended S L f g.s2c_log g.commit_index v u o.0 o.1 e in
              (λ w y z. done.keeps w y (k.0 w y z), k.1)))
            R B rounds (record { fsm = fsm; acc = [] }) rs s
            (λ w y z. z, (refl, refl, refl, λ e. e)))

    Step-IsElected :
        {c d : Cluster S} → Step S L C R B c d → IsElected S L C keys c → IsElected S L C keys d
    unfolding begin_attempt begin_append
    Step-IsElected {c} (begins k fsm a n) v =
        moved S L C keys c v k fsm fsm a (begin_attempt fsm) c.store refl n (λ q w h. h) refl refl
          refl (λ e. e)
    Step-IsElected {c} (tries_create k) v = create-IsElected S L C keys c k (c.nodes k) refl v
    Step-IsElected {c} (follows k fsm a n) v =
        moved S L C keys c v k fsm (record fsm { state = follower }) a
          (rests (record fsm { state = follower })) c.store refl tt (λ q w h. h) refl refl refl
          (λ e. cc)
    Step-IsElected {c} (hears k fsm es a n) v =
        let (l, e, i, led) = follower_loop-SameTerm fsm es in
        moved S L C keys c v k fsm (follower_loop fsm es).fsm a (rests (follower_loop fsm es).fsm)
          c.store refl tt (λ q w h. h) l e i led
    Step-IsElected {c} (leads k fsm rounds rs q t a n h) v =
        let (x, (l, e, i, led)) = leader_loop-SameTerm fsm rounds rs c.store t q h in
        moved S L C keys c v k fsm q.fsm a (rests q.fsm) t refl tt x l e i led
    Step-IsElected {c} (others t x) v = record {
      member = λ k. (
        IsMember-later S L C keys (fsm_of (c.nodes k)) c.store t x (v.member k).0,
        (v.member k).1,
      );
      once = v.once;
    }

    pub Reach-IsElected :
        {c d : Cluster S} → Reach S L C R B c d → IsElected S L C keys c → IsElected S L C keys d
    Reach-IsElected start v = v
    Reach-IsElected (later r s) v = Step-IsElected s (Reach-IsElected r v)

module _ (S : ObjectStore) (L : StoreLaws S) (C : Codec LogEntry) (R : Codec StateRequest)
    (B : Codec Batch) where
  pub new_cluster-IsElected :
      (group : Bytes) (options : ℕ → S2cOptions) (ids : ℕ → NodeIdentity) (s : S.State)
      → IsElected S L C (Paths.new group) (new_cluster S group options ids s)
  unfolding new_cluster
  new_cluster-IsElected group options ids s = record {
    member = λ k. (record { same_keys = refl; term = refl; taken = λ e. cc }, tt);
    once = λ i j a b e. cc;
  }

  -- In every state that a group of new nodes on one store can reach, with the creates of their
  -- attempts, their loops and other writers that keep what is stored interleaved in any order,
  -- two nodes that are leader in the same epoch are the same node.
  pub one_leader_per_epoch :
      (group : Bytes) (options : ℕ → S2cOptions) (ids : ℕ → NodeIdentity) (s : S.State)
      (c : Cluster S) (i j : ℕ)
      → Reach S L C R B (new_cluster S group options ids s) c
      → (fsm_of (c.nodes i)).state ≡ leader
      → (fsm_of (c.nodes j)).state ≡ leader
      → (fsm_of (c.nodes i)).epoch ≡ (fsm_of (c.nodes j)).epoch
      → i ≡ j
  one_leader_per_epoch group options ids s c i j r a b e =
      let v =
        Reach-IsElected S L C (Paths.new group) R B r (new_cluster-IsElected group options ids s) in
      v.once i j a b (sym (v.member i).0.term ∙ e ∙ (v.member j).0.term)
