-- ===== src/Fsm/Cluster/Failover.antt =====
-- Who can be elected after a first election.
pub mod Phases
use s2c_rs.Base.{
  ℕ, ◌≡◌, ◌↔◌, refl, sym, subst, ◌∙◌, ◌≢◌, ◌⊎◌, inl, inr, List, [], some, Option-cases, ok, err,
  Result-cases, Bytes, true, false, returns, Holds, Holds-all, Holds-returns, arith, ℕ_discrete,
  ◌==◌,
}
use s2c_rs.Backoff.{BackoffCounter, await_attempt}
use s2c_rs.Backoff
use s2c_rs.Codec.{Codec}
use s2c_rs.Config.{S2cOptions}
use s2c_rs.Failure.{StoreError}
use s2c_rs.Paths
use s2c_rs.Proto.{NodeIdentity, LogEntry, StateRequest, Batch}
use s2c_rs.Store.{ObjectStore, StoreLaws}
use s2c_rs.Log.{append, append_again, entry_path}
use s2c_rs.Fsm.{Fsm, not_joined, follower, leader, stopped}
use s2c_rs.Fsm.Leadership.{next_index, leadership_entry, won, lost}
use s2c_rs.Fsm.Follower.{Event, follower_loop}
use s2c_rs.Fsm.Follower.Rounds.{follower_loop-keeps}
use s2c_rs.Fsm.Leader.{Pending, Round, leader_loop}
use s2c_rs.Fsm.Leader.Rounds.{leader_loop-keeps}
use s2c_rs.Fsm.Cluster.{
  Phase, rests, tries, fsm_of, begin_append, begin_attempt, after_append, after_create, create,
  Cluster, set_node, new_cluster, Step, begins, tries_create, follows, hears, leads, others, Reach,
  start, later,
}
use s2c_rs.Fsm.Cluster.Leaders.Members.{Unled}
use s2c_rs.Fsm.Leadership.Keeps.{lost_cases}
use s2c_rs.Fsm.Cluster.Leaders.{new_cluster-IsElected, Reach-IsElected}
use s2c_rs.Fsm.Cluster.Failover.Phases.{
  Young, Young-index, unled-index, won-Young, Fit, Goes, follower_loop-Young, set_node-Goes,
  rests-Goes, unled-Goes,
}

module _ (S : ObjectStore) (L : StoreLaws S) (C : Codec LogEntry) where
  open S use {State}

  after_append-Fit :
      (fsm : Fsm) (b' : BackoffCounter) (e : StoreError)
      → fsm.state ≡ not_joined
      → fsm.commit_index ≡ 0
      → Fit (after_append fsm b' (err e))
  unfolding after_append begin_append
  after_append-Fit fsm b' e n h = elim (Option-cases (lost fsm e)) [
    | inl x ↦ rw (x, after_append) (inr (λ l. cc, h), n)
    | inr (g, x) ↦
        rw (x, after_append)
          (elim (lost_cases fsm g e x) [
            | inl q ↦ rw q (inr (λ l. cc, h), tt)
            | inr q ↦ rw q (inr (λ l. cc, h), tt)
          ])
  ]

  create-Goes : (p : Phase) (s : State) → Goes p (create S C p s).0
  unfolding create after_create after_append
  create-Goes (rests fsm) s f = (f, λ l. l)
  create-Goes (tries fsm b b') s (y, n) =
      let path = entry_path S fsm.s2c_log (next_index fsm) in
      let payload = C.encode (leadership_entry fsm) in
      let none_yet : fsm.commit_index ≡ 0 = unled-index fsm y (λ l. cc) in
      (
        elim (Result-cases (S.put_create path payload s).0) [
          | inl (u, h) ↦ rw (h, after_create, after_append) (won-Young fsm none_yet, tt)
          | inr (e, h) ↦ elim (Option-cases (append_again b e)) [
            | inl q ↦ rw (h, q, after_create) (after_append-Fit fsm b' e n none_yet)
            | inr (d, q) ↦ rw (h, q, after_create) (y, n)
          ]
        ],
        λ l. absurd cc,
      )

  module _ (R : Codec StateRequest) (B : Codec Batch) where
    leader_loop-Young :
        (fsm : Fsm) (rounds : ℕ) (rs : List Round) (s t : State) (q : Pending)
        → leader_loop S R B rounds (record { fsm = fsm; acc = [] }) rs s ≡ returns (q, t)
        → fsm.state ≡ leader
        → (q.fsm.state ≡ leader) × (q.fsm.commit_index ≡ fsm.commit_index)
    leader_loop-Young fsm rounds rs s t q h e =
        Holds-returns (λ o. (o.0.fsm.state ≡ leader) × (o.0.fsm.commit_index ≡ fsm.commit_index)) h
          (leader_loop-keeps S (λ g u. (g.state ≡ leader) × (g.commit_index ≡ fsm.commit_index))
            (λ g ids u k. k)
            (λ f v g u k. Holds-all (append S f g.s2c_log g.commit_index v u) (λ o _. k)) R B rounds
            (record { fsm = fsm; acc = [] }) rs s (e, refl))

    Step-Goes : {c d : Cluster S} → Step S L C R B c d → (j : ℕ) → Goes (c.nodes j) (d.nodes j)
    unfolding begin_attempt begin_append
    Step-Goes {c} (begins k fsm a n) =
        set_node-Goes c.nodes k (begin_attempt fsm)
          (rests-Goes fsm fsm (c.nodes k) (begin_attempt fsm) a refl n (λ y. (y, λ l. l)))
    Step-Goes {c} (tries_create k) =
        set_node-Goes c.nodes k (create S C (c.nodes k) c.store).0 (create-Goes (c.nodes k) c.store)
    Step-Goes {c} (follows k fsm a n) =
        let g = record fsm { state = follower } in
        set_node-Goes c.nodes k (rests g) (
          rests-Goes fsm g (c.nodes k) (rests g) a refl tt
            (unled-Goes fsm g (λ l. cc) (λ l. cc) refl))
    Step-Goes {c} (hears k fsm es a n) =
        let g = (follower_loop fsm es).fsm in
        set_node-Goes c.nodes k (rests g) (
          rests-Goes fsm g (c.nodes k) (rests g) a refl tt (λ y.
            let none_yet = unled-index fsm y (λ l. cc) in
            (inr (follower_loop-Young fsm es (λ l. cc) none_yet), λ l. absurd cc)))
    Step-Goes {c} (leads k fsm rounds rs q t a n h) = set_node-Goes c.nodes k (rests q.fsm) (
        rests-Goes fsm q.fsm (c.nodes k) (rests q.fsm) a refl tt (λ y.
          let (l, i) = leader_loop-Young fsm rounds rs c.store t q h n in
          (inl (l, i ∙ Young-index fsm y n), λ e. l)))
    Step-Goes {c} (others t x) = λ j f. (f, λ l. l)

    Reach-Goes : {c d : Cluster S} → Reach S L C R B c d → (j : ℕ) → Goes (c.nodes j) (d.nodes j)
    Reach-Goes start j f = (f, λ l. l)
    Reach-Goes (later r s) j f =
        let (g, led) = Reach-Goes r j f in
        let (h, led_on) = Step-Goes s j g in (h, λ e. led_on (led e))

    Reach-trans :
        {c d e : Cluster S} → Reach S L C R B c d → Reach S L C R B d e → Reach S L C R B c e
    Reach-trans r start = r
    Reach-trans r (later q s) = later (Reach-trans r q) s

    new_cluster-Fit :
        (group : Bytes) (options : ℕ → S2cOptions) (ids : ℕ → NodeIdentity) (s : State) (j : ℕ)
        → Fit ((new_cluster S group options ids s).nodes j)
    unfolding new_cluster
    new_cluster-Fit group options ids s j = (inr (λ l. cc, refl), tt)

    -- If a node leads in a state that a group of new nodes on one store can reach, then in every
    -- state that is reached from there it is the one node that leads.
    pub no_failover :
        (group : Bytes) (options : ℕ → S2cOptions) (ids : ℕ → NodeIdentity) (s : State)
        (c d : Cluster S) (i j : ℕ)
        → Reach S L C R B (new_cluster S group options ids s) c
        → Reach S L C R B c d
        → (fsm_of (c.nodes i)).state ≡ leader
        → ((fsm_of (d.nodes j)).state ≡ leader) ↔ (i ≡ j)
    no_failover group options ids s c d i j r q a =
        let fit = λ (k : ℕ). new_cluster-Fit group options ids s k in
        let (at_c, _) = Reach-Goes r i (fit i) in
        let (at_d, led) = Reach-Goes q i at_c in
        let (other, _) = Reach-Goes (Reach-trans r q) j (fit j) in
        let v =
          Reach-IsElected S L C (Paths.new group) R B (Reach-trans r q)
            (new_cluster-IsElected S L C R B group options ids s) in
        (
          λ b. v.once i j (led a) b (
              Young-index (fsm_of (d.nodes i)) at_d.0 (led a)
              ∙ sym (Young-index (fsm_of (d.nodes j)) other.0 b)),
          λ e. subst (λ k. (fsm_of (d.nodes k)).state ≡ leader) e (led a),
        )
