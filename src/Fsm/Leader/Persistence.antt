-- ===== src/Fsm/Leader/Persistence.antt =====
-- What of a leader's batches reaches the log.
use s2c_rs.Base.{
  zero, ℕ, suc, ◌≡◌, refl, ◌≢◌, List, none, Bytes, err, returns, Holds, Holds-returns,
}
use s2c_rs.Backoff
use s2c_rs.Backoff.{BackoffCounter}
use s2c_rs.Codec.{Codec}
use s2c_rs.Failure.{already_exists}
use s2c_rs.Proto.{StateRequest, Batch, LogEntry}
use s2c_rs.Store.{ObjectStore, StoreLaws}
use s2c_rs.Log.{S2cLog, append, append_loop, append_again, entry_path}
use s2c_rs.Fsm.{Fsm, leader}
use s2c_rs.Fsm.Leadership.{attempt_leadership, leadership_entry, won}
use s2c_rs.Fsm.Leadership.Safety.{attempt_leadership-Ended}
use s2c_rs.Fsm.Leadership.Election.{leader_wins}
use s2c_rs.Fsm.Leader.Rounds.{leader_loop-keeps}
use s2c_rs.Fsm.Leader.{Round, Pending, leader_loop}

-- A create on a key that is taken fails and changes nothing.
abbrev pub CreatesOnce : (S : ObjectStore) → StoreLaws S → Type 0
CreatesOnce S L =
    (p : S.Location) (v : Bytes) (s : S.State)
    → L.contents s p ≢ none
    → ((S.put_create p v s).0 ≡ err already_exists) × ((S.put_create p v s).1 ≡ s)

module _ (S : ObjectStore) (L : StoreLaws S) (once : CreatesOnce S L) where
  open S use {State, Location}

  append_loop_taken :
      (rounds : ℕ) (p : Location) (v : Bytes) (b : BackoffCounter) (s : State)
      → L.contents s p ≢ none
      → append_loop S (suc rounds) p v b s ≡ returns (err already_exists, s)
  unfolding append_loop append_again
  append_loop_taken rounds p v b s h = let (e, k) = once p v s h in rw (e, k, append_loop)

  append_taken :
      (rounds : ℕ) (log : S2cLog) (i : ℕ) (v : Bytes) (s : State)
      → L.contents s (entry_path S log i) ≢ none
      → append S (suc rounds) log i v s ≡ returns (err already_exists, s)
  unfolding append
  append_taken rounds log i v s h = append_loop_taken rounds _ v (Backoff.new log.retry) s h

  module _ (R : Codec StateRequest) (B : Codec Batch) where
    -- The store `s`, and the log and the commit index of `p`.
    abbrev Idle : Pending → State → Fsm → State → Type 0
    Idle p s fsm t =
        (t ≡ s) × (fsm.s2c_log ≡ p.fsm.s2c_log) × (fsm.commit_index ≡ p.fsm.commit_index)

    append-Idle :
        (p : Pending) (s : State)
        → L.contents s (entry_path S p.fsm.s2c_log p.fsm.commit_index) ≢ none
        → (rounds : ℕ) (v : Bytes) (fsm : Fsm) (t : State) → Idle p s fsm t
        → Holds (λ o. Idle p s fsm o.1) (append S rounds fsm.s2c_log fsm.commit_index v t)
    append-Idle p s h zero v fsm t (e, a, b) = unfold append in unfold append_loop in tt
    append-Idle p s h (suc rounds) v fsm t (e, a, b) =
        rw (e, a, b, append_taken rounds p.fsm.s2c_log p.fsm.commit_index v s h) (refl, refl, refl)

    leader_loop-Idle :
        (rounds : ℕ) (p : Pending) (rs : List Round) (s : State)
        → L.contents s (entry_path S p.fsm.s2c_log p.fsm.commit_index) ≢ none
        → Holds (λ o. Idle p s o.0.fsm o.1) (leader_loop S R B rounds p rs s)
    leader_loop-Idle rounds p rs s h =
        leader_loop-keeps S (Idle p s) (λ g ids t k. k) (append-Idle p s h) R B rounds p rs s
          (refl, refl, refl)

    -- While the key of its commit index is taken, a leader writes nothing: after any rounds the
    -- store is what it was, and the commit index too.
    pub leader_persists_nothing :
        (rounds : ℕ) (p q : Pending) (rs : List Round) (s t : State)
        → L.contents s (entry_path S p.fsm.s2c_log p.fsm.commit_index) ≢ none
        → leader_loop S R B (suc rounds) p rs s ≡ returns (q, t)
        → (t ≡ s) × (q.fsm.commit_index ≡ p.fsm.commit_index)
    leader_persists_nothing rounds p q rs s t h e =
        let k =
          Holds-returns (λ o. Idle p s o.0.fsm o.1) e (leader_loop-Idle (suc rounds) p rs s h) in
        (k.0, k.2)

    -- On a store where a create on a taken key fails with `AlreadyExists` and changes nothing,
    -- the leader loop that follows a won election leaves the store as the election left it, if it
    -- returns.
    pub new_leader_persists_nothing :
        (E : Codec LogEntry) (fuel rounds later : ℕ) (fsm g : Fsm) (acc : List StateRequest)
        (q : Pending) (rs : List Round) (s t u : State)
        → fsm.state ≢ leader
        → attempt_leadership S E fuel rounds fsm s ≡ returns (g, t)
        → g.state ≡ leader
        → leader_loop S R B (suc later) (record { fsm = g; acc = acc }) rs t ≡ returns (q, u)
        → u ≡ t
    unfolding won
    new_leader_persists_nothing E fuel rounds later fsm g acc q rs s t u n a l e =
        let ended = attempt_leadership-Ended S L E fuel rounds fsm g s t a in
        let v = E.encode (leadership_entry fsm) in
        let (same, stored) = leader_wins S L E fsm g v s t n ended.1 l in
        let taken : L.contents t (entry_path S g.s2c_log g.commit_index) ≢ none =
          rw (same, stored) (λ k. cc) in
        (leader_persists_nothing later (record { fsm = g; acc = acc }) q rs t u taken e).0
