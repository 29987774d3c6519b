-- ===== src/Fsm/Cluster/Leaders/Elections.antt =====
-- The creates of an attempt and the invariant of a cluster.
use s2c_rs.Base.{ℕ, ◌≡◌, refl, sym, subst, inl, inr, Option-cases, err, Result-cases}
use s2c_rs.Backoff.{BackoffCounter, await_attempt}
use s2c_rs.Backoff
use s2c_rs.Codec.{Codec}
use s2c_rs.Failure.{StoreError}
use s2c_rs.Paths.{KeysResolver}
use s2c_rs.Proto.{LogEntry}
use s2c_rs.Store.{ObjectStore, StoreLaws, Extends}
use s2c_rs.Log.{append_again, entry_path}
use s2c_rs.Fsm.{Fsm, not_joined}
use s2c_rs.Fsm.Leadership.{next_index, next_epoch, leadership_entry, won, lost}
use s2c_rs.Fsm.Leadership.Keeps.{lost_cases}
use s2c_rs.Fsm.Leadership.Campaign.{any_log}
use s2c_rs.Fsm.Cluster.{
  Phase, rests, tries, fsm_of, begin_append, after_append, after_create, create, Cluster, set_node,
}
use s2c_rs.Fsm.Cluster.Leaders.Members.{
  Taken, IsMember, IsNode, IsMember-later, IsElected, Fresh, replaced-IsElected, moved,
}

module _ (S : ObjectStore) (L : StoreLaws S) (C : Codec LogEntry) (keys : KeysResolver) where
  open S use {State}

  same_path :
      (fsm : Fsm) (i : ℕ)
      → fsm.s2c_log.keys ≡ keys
      → entry_path S fsm.s2c_log i ≡ entry_path S (any_log S L C keys) i
  unfolding entry_path
  same_path fsm i e = rw e refl

  won-IsMember :
      (fsm : Fsm) (s t : State)
      → IsMember S L C keys fsm s
      → Taken S L C keys (next_index fsm) t
      → IsMember S L C keys (won fsm) t
  unfolding won next_index next_epoch
  won-IsMember fsm s t m h = record {
    same_keys = m.same_keys;
    term = rw m.term refl;
    taken = λ e. h;
  }

  -- What a create leaves.
  abbrev Created : Fsm → State → Phase → State → Type 0
  Created fsm s p t = IsNode S L C keys p t × Fresh S L C keys fsm s (fsm_of p)

  module _ (fsm : Fsm) (s : State) (m : IsMember S L C keys fsm s)
      (n : fsm.state ≡ not_joined) where
    unled :
        (t : State) → Extends S L s t → (b b' : BackoffCounter) → Created fsm s (tries fsm b b') t
    unled t x b b' = ((IsMember-later S L C keys fsm s t x m, n), λ e. cc)

    after_append-Created :
        (t : State) (b' : BackoffCounter) (e : StoreError)
        → Extends S L s t
        → Created fsm s (after_append fsm b' (err e)) t
    unfolding after_append begin_append
    after_append-Created t b' e x = elim (Option-cases (lost fsm e)) [
      | inl h ↦ rw (h, after_append) (unled t x (Backoff.new fsm.s2c_log.retry) (await_attempt b'))
      | inr (g, h) ↦
          rw (h, after_append)
            (elim (lost_cases fsm g e h) [
              | inl q ↦ rw q ((IsMember-later S L C keys fsm s t x m, tt), λ l. cc)
              | inr q ↦ rw q (
                (record { same_keys = m.same_keys; term = m.term; taken = λ l. cc }, tt),
                λ l. cc,
              )
            ])
    ]

    create-Created :
        (b b' : BackoffCounter)
        → let (p, t) = create S C (tries fsm b b') s in Extends S L s t × Created fsm s p t
    unfolding create after_create after_append won next_index
    create-Created b b' =
        let path = entry_path S fsm.s2c_log (next_index fsm) in
        let path_again = entry_path S (any_log S L C keys) (next_index fsm) in
        let payload = C.encode (leadership_entry fsm) in
        let t = (S.put_create path payload s).1 in
        let x : Extends S L s t = λ q w h. L.put_keeps path payload s q w h in
        let same : path ≡ path_again = same_path fsm (next_index fsm) m.same_keys in
        elim (Result-cases (S.put_create path payload s).0) [
          | inl (u, h) ↦
              let (free, stored) = L.put_ok path payload s h in
              rw (h, after_create, after_append)
                (
                  x,
                  (
                    (won-IsMember fsm s t m (λ e. cc (stored, same)), tt),
                    λ l. inr (rw same at free),
                  ),
                )
          | inr (e, h) ↦ elim (Option-cases (append_again b e)) [
            | inl q ↦ rw (h, q, after_create) (x, after_append-Created t b' e x)
            | inr (d, q) ↦ rw (h, q, after_create) (x, unled t x d b')
          ]
        ]

  pub create-IsElected :
      (c : Cluster S) (k : ℕ) (p : Phase)
      → c.nodes k ≡ p
      → IsElected S L C keys c
      → IsElected S L C keys (record {
        nodes = set_node k (create S C p c.store).0 c.nodes;
        store = (create S C p c.store).1;
      })
  create-IsElected c k (rests fsm) a v =
      unfold create in
      (moved S L C keys c v k fsm fsm a (rests fsm) c.store refl tt (λ q w h. h) refl refl refl
        (λ e. e))
  create-IsElected c k (tries fsm b b') a v =
      let (m, n) = subst (λ p. IsNode S L C keys p c.store) a (v.member k) in
      let (x, (node, fresh)) = create-Created fsm c.store m n b b' in
      replaced-IsElected S L C keys c v k (create S C (tries fsm b b') c.store).0
        (create S C (tries fsm b b') c.store).1 x node
        (subst
          (λ p.
            Fresh S L C keys (fsm_of p) c.store (fsm_of (create S C (tries fsm b b') c.store).0))
          (sym a) fresh)
