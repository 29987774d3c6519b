-- ===== src/Fsm/Cluster/Turns.antt =====
-- A turn of `start` against the steps of a cluster.
use s2c_rs.Base.{
  ℕ, zero, suc, ◌≡◌, refl, sym, subst, ◌≢◌, [], returns, Holds, Holds-all, Holds-mono,
  Holds-returns, arith,
}
use s2c_rs.Codec.{Codec}
use s2c_rs.Proto.{LogEntry, S2cMessage, StateRequest, Batch}
use s2c_rs.Store.{ObjectStore, StoreLaws, Extends}
use s2c_rs.Fsm.{Fsm, not_joined, follower}
use s2c_rs.Fsm.Leadership.{attempt_leadership}
use s2c_rs.Fsm.Follower.{follower_loop}
use s2c_rs.Fsm.Leader.{leader_loop}
use s2c_rs.Fsm.Join.{Link, discover_leader_state, connect, follow_leader}
use s2c_rs.Log.Keeps.{Extends-StoreKeeps}
use s2c_rs.Fsm.Join.Reads.{
  LinkKeeps, LinkKeeps-LinkHolds, discover-keeps, connect-keeps, follow-keeps,
}
use s2c_rs.Fsm.Join.Rounds.{JoinKeeps}
use s2c_rs.Fsm.Start.{Shift, turn}
use s2c_rs.Fsm.Start.Rounds.{turn-keeps}
use s2c_rs.Fsm.Cluster.{
  Phase, rests, begin_attempt, create, creates, Cluster, set_node, Step, begins, tries_create,
  follows, hears, leads, others, Reach, start, later,
}
use s2c_rs.Fsm.Cluster.Creates.{attempt_in_creates}

module _ (S : ObjectStore) (L : StoreLaws S) (C : Codec LogEntry) (R : Codec StateRequest)
    (B : Codec Batch) where
  open S use {State}

  -- The cluster reaches a state in which node `k` is there, the store is that one, and the other
  -- nodes are as they were.
  pub record Gets (c : Cluster S) (k : ℕ) (p : Phase) (t : State) : Type 0 where
    pub cluster : Cluster S
    pub reach : Reach S L C R B c cluster
    pub node : cluster.nodes k ≡ p
    pub store : cluster.store ≡ t
    pub rest : (j : ℕ) → k ≢ j → cluster.nodes j ≡ c.nodes j

  same_store : (s : State) → Extends S L s s
  same_store s q w h = h

  -- One more step of the node.
  Gets-step :
      {c : Cluster S} {k : ℕ} {p : Phase} {s : State} (g : Gets c k p s) (q : Phase) (t : State)
      → Step S L C R B g.cluster (record { nodes = set_node k q g.cluster.nodes; store = t })
      → Gets c k q t
  Gets-step {c} {k} g q t step = record {
    cluster = record { nodes = set_node k q g.cluster.nodes; store = t };
    reach = later g.reach step;
    node = ground arith;
    store = refl;
    rest = λ j n. ground (arith, g.rest j n);
  }

  -- One that leaves the store.
  Gets-moves :
      {c : Cluster S} {k : ℕ} {p : Phase} {s : State} (g : Gets c k p s) (q : Phase)
      → Step S L C R B g.cluster (record g.cluster { nodes = set_node k q g.cluster.nodes })
      → Gets c k q s
  Gets-moves {c} {k} g q step = subst (Gets c k q) g.store (Gets-step g q g.cluster.store step)

  Gets-Extends :
      {c : Cluster S} {k : ℕ} {p : Phase} {s t : State}
      → Extends S L s t
      → Gets c k p s
      → Gets c k p t
  Gets-Extends {c} {k} {p} {s} {t} x g = record {
    cluster = record g.cluster { store = t };
    reach = later g.reach (others t (subst (λ u. Extends S L u t) (sym g.store) x));
    node = g.node;
    store = refl;
    rest = g.rest;
  }

  Gets-create :
      {c : Cluster S} {k : ℕ} {p : Phase} {s : State}
      → Gets c k p s
      → Gets c k (create S C p s).0 (create S C p s).1
  Gets-create {c} {k} {p} {s} g = rw (g.node, g.store) at (Gets-step g _ _ (tries_create k))

  Gets-creates :
      {c : Cluster S} {k : ℕ} (n : ℕ) (p : Phase) (s : State)
      → Gets c k p s
      → Gets c k (creates S C n p s).0 (creates S C n p s).1
  unfolding creates
  Gets-creates zero p s g = g
  Gets-creates (suc n) p s g = Gets-creates n (create S C p s).0 (create S C p s).1 (Gets-create g)

  module _ (c : Cluster S) (k : ℕ) where
    abbrev Rests : Fsm → State → Type 0
    Rests fsm s = Gets c k (rests fsm) s

    attempt-Gets :
        (fsm : Fsm) (fuel rounds : ℕ) (s : State)
        → fsm.state ≡ not_joined
        → Rests fsm s
        → Holds (λ o. Rests o.0 o.1) (attempt_leadership S C fuel rounds fsm s)
    attempt-Gets fsm fuel rounds s n g =
        Holds-all (attempt_leadership S C fuel rounds fsm s) (λ o e.
          let (n_creates, h) = attempt_in_creates S C fuel rounds fsm o.0 s o.1 e in
          let begun = Gets-moves g (begin_attempt fsm) (begins k fsm g.node n) in
          rw h at (Gets-creates n_creates (begin_attempt fsm) s begun))

    module _ (K : Link S) (N : LinkKeeps S L K) (M : Codec S2cMessage) where
      join-Gets : JoinKeeps S K C M Rests
      join-Gets = record {
        discovers = λ fsm fuel rounds s g.
            Holds-mono (discover_leader_state S C fuel rounds fsm s) (λ o x. Gets-Extends x g)
              (discover-keeps S _ (Extends-StoreKeeps S L s) C fsm fuel rounds s (same_store s));
        connects = λ fsm fuel id s g.
            Holds-mono (connect S K fuel fsm id s) (λ o x. Gets-Extends x g)
              (connect-keeps S K _ _ (LinkKeeps-LinkHolds S L K s N) fsm fuel id s (same_store s));
        follows = λ fsm fuel s n g.
            Holds-mono (follow_leader S K M fuel fsm s)
              (λ o x.
                let now = Gets-Extends x.0 g in
                (
                  now,
                  λ _.
                      Gets-moves now (rests (record fsm { state = follower }))
                        (follows k fsm now.node n),
                ))
              (follow-keeps S K _ _ (LinkKeeps-LinkHolds S L K s N) M fsm fuel s (same_store s));
        attempts = attempt-Gets;
      }

      -- If the client stores nothing away, a turn of `start` that returns, on the node and the
      -- store of a cluster, is a sequence of steps of the cluster: it reaches a state in which
      -- the node is at rest as the turn leaves it, the store is the one that the turn leaves, and
      -- every other node is as it was.
      pub turn_in_steps :
          (fuel rounds : ℕ) (fsm h : Fsm) (shift : Shift) (t : State)
          → c.nodes k ≡ rests fsm
          → turn S K C M R B fuel rounds fsm shift c.store ≡ returns (h, t)
          → Gets c k (rests h) t
      turn_in_steps fuel rounds fsm h shift t n e =
          Holds-returns (λ o. Rests o.0 o.1) e
            (turn-keeps S K C M R B Rests join-Gets
              (λ f es s e g. Gets-moves g (rests (follower_loop f es).fsm) (hears k f es g.node e))
              (λ f rounds rs s e g.
                Holds-all (leader_loop S R B rounds (record { fsm = f; acc = [] }) rs s) (λ o h.
                  Gets-step g (rests o.0.fsm) o.1
                    (leads k f rounds rs o.0 o.1 g.node e (rw g.store h))))
              fuel rounds fsm shift c.store
              (record { cluster = c; reach = start; node = n; store = refl; rest = λ j m. refl }))
