-- ===== src/Fsm/Cluster/Leaders/Members.antt =====
-- The invariant of a cluster, and the steps of one node that keep it.
use s2c_rs.Base.{
  ℕ, ◌≡◌, refl, sym, subst, ◌∙◌, ◌⊎◌, inl, inr, true, false, none, arith, ℕ_discrete, ◌==◌,
}
use s2c_rs.Codec.{Codec}
use s2c_rs.Paths.{KeysResolver}
use s2c_rs.Proto.{LogEntry}
use s2c_rs.Store.{ObjectStore, StoreLaws, Extends}
use s2c_rs.Log.{entry_path}
use s2c_rs.Fsm.{Fsm, not_joined, leader}
use s2c_rs.Fsm.Leadership.Election.{EpochIsIndex}
use s2c_rs.Fsm.Leadership.Campaign.{any_log, IsTaken, IsTaken-later}
use s2c_rs.Fsm.Cluster.{Phase, rests, tries, fsm_of, Cluster, set_node}

-- A node in an attempt is not joined.
abbrev pub Unled : Phase → Type 0
Unled (rests fsm) = Unit
Unled (tries fsm b b') = fsm.state ≡ not_joined

module _ (S : ObjectStore) (L : StoreLaws S) (C : Codec LogEntry) (keys : KeysResolver) where
  open S use {State}

  abbrev pub Taken : ℕ → State → Type 0
  Taken i s = IsTaken S L C keys i s

  -- What holds of a node, by the store: a leader's index is taken.
  pub record IsMember (fsm : Fsm) (s : State) : Type 0 where
    pub same_keys : fsm.s2c_log.keys ≡ keys
    pub term : EpochIsIndex fsm
    pub taken : fsm.state ≡ leader → Taken fsm.commit_index s

  abbrev pub IsNode : Phase → State → Type 0
  IsNode p s = IsMember (fsm_of p) s × Unled p

  pub IsMember-later : (fsm : Fsm) (s t : State) → Extends S L s t → IsMember fsm s → IsMember fsm t
  IsMember-later fsm s t x m = record {
    same_keys = m.same_keys;
    term = m.term;
    taken = λ e. IsTaken-later S L C keys fsm.commit_index s t x (m.taken e);
  }

  -- Every node is a member, and two leaders have different indices.
  pub record IsElected (c : Cluster S) : Type 0 where
    pub member : (k : ℕ) → IsNode (c.nodes k) c.store
    pub once :
        (i j : ℕ)
        → (fsm_of (c.nodes i)).state ≡ leader
        → (fsm_of (c.nodes j)).state ≡ leader
        → (fsm_of (c.nodes i)).commit_index ≡ (fsm_of (c.nodes j)).commit_index
        → i ≡ j

  -- A leader was leader at this index before, or the index was free.
  abbrev pub Fresh : Fsm → State → Fsm → Type 0
  Fresh fsm s g =
      g.state ≡ leader
      → ((fsm.state ≡ leader) × (fsm.commit_index ≡ g.commit_index))
        ⊎ (L.contents s (entry_path S (any_log S L C keys) g.commit_index) ≡ none)

  module _ (c : Cluster S) (v : IsElected c) (k : ℕ) (p : Phase) (t : State)
      (x : Extends S L c.store t) (m : IsNode p t)
      (fresh : Fresh (fsm_of (c.nodes k)) c.store (fsm_of p)) where
    -- The index of the node's next state is not that of another leader.
    alone :
        (j : ℕ)
        → (fsm_of p).state ≡ leader
        → (fsm_of (c.nodes j)).state ≡ leader
        → (fsm_of p).commit_index ≡ (fsm_of (c.nodes j)).commit_index
        → k ≡ j
    alone j a b e = elim (fresh a) [
      | inl (l, same) ↦ v.once k j l b (same ∙ e)
      | inr free ↦ absurd (
          (v.member j).0.taken b
            (subst (λ i. L.contents c.store (entry_path S (any_log S L C keys) i) ≡ none) e free))
    ]

    node_of :
        (j : ℕ) → ((k ≡ j) × (set_node k p c.nodes j ≡ p)) ⊎ (set_node k p c.nodes j ≡ c.nodes j)
    node_of j = elim (ℕ_discrete k j) [
      | yes e ↦ let y : (k == j) ≡ true = ground arith in inl (e, rw y refl)
      | no e ↦ let y : (k == j) ≡ false = ground arith in inr (rw y refl)
    ]

    pub replaced-IsElected : IsElected (record { nodes = set_node k p c.nodes; store = t })
    replaced-IsElected = record {
      member = λ j. elim (node_of j) [
        | inl (e, q) ↦ subst (λ y. IsNode y t) (sym q) m
        | inr q ↦
            subst (λ y. IsNode y t) (sym q)
              (IsMember-later (fsm_of (c.nodes j)) c.store t x (v.member j).0, (v.member j).1)
      ];
      once = λ i j a b e. elim (node_of i) [
        | inl (ki, qi) ↦ elim (node_of j) [
          | inl (kj, qj) ↦ sym ki ∙ kj
          | inr qj ↦ sym ki ∙ alone j (rw qi at a) (rw qj at b) (rw (qi, qj) at e)
        ]
        | inr qi ↦ elim (node_of j) [
          | inl (kj, qj) ↦ sym (alone i (rw qj at b) (rw qi at a) (sym (rw (qi, qj) at e))) ∙ kj
          | inr qj ↦ v.once i j (rw qi at a) (rw qj at b) (rw (qi, qj) at e)
        ]
      ];
    }

  -- A node that rests goes on without an election.
  module _ (c : Cluster S) (v : IsElected c) (k : ℕ) (fsm g : Fsm) (a : c.nodes k ≡ rests fsm) where
    rested : IsMember fsm c.store
    rested = (subst (λ p. IsNode p c.store) a (v.member k)).0

    pub moved :
        (p : Phase) (t : State)
        → fsm_of p ≡ g
        → Unled p
        → Extends S L c.store t
        → g.s2c_log.keys ≡ fsm.s2c_log.keys
        → g.epoch ≡ fsm.epoch
        → g.commit_index ≡ fsm.commit_index
        → (g.state ≡ leader → fsm.state ≡ leader)
        → IsElected (record { nodes = set_node k p c.nodes; store = t })
    moved p t q u x keeps epoch index led =
        replaced-IsElected c v k p t x
          (
            rw q (record {
              same_keys = keeps ∙ rested.same_keys;
              term = epoch ∙ rested.term ∙ sym index;
              taken = λ e.
                  rw index
                    (IsTaken-later S L C keys fsm.commit_index c.store t x (rested.taken (led e)));
            }),
            u,
          )
          (λ e. inl (rw a (led (rw q at e)), rw (a, q) (sym index)))
