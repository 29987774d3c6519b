-- ===== src/Fsm/Leadership/Election.antt =====
-- Several attempts on one log, and what the winner's entry says.
use s2c_rs.Base.{
  ℕ, ◌+◌, ◌<◌, ◌^◌, ◌≡◌, refl, sym, ◌≢◌, inl, inr, none, some, Bytes, ok, returns, Option-cases,
  arith,
}
use s2c_rs.Codec.{Codec, CodecLaws}
use s2c_rs.Proto.{LogEntry}
use s2c_rs.Store.{ObjectStore, StoreLaws, Extends}
use s2c_rs.Log.{get_at, entry_path}
use s2c_rs.Log.Read.{get_at-Fetched}
use s2c_rs.Fsm.{Fsm, leader, not_joined}
use s2c_rs.Fsm.Leadership.{next_index, next_epoch, leadership_entry, won, attempt_leadership}
use s2c_rs.Fsm.Leadership.Safety.{
  Attempted, wins, loses, stops, attempt_leadership-Ended, attempt_leadership_taken,
}

abbrev pub EpochIsIndex : Fsm → Type 0
EpochIsIndex fsm = fsm.epoch ≡ fsm.commit_index

won_term :
    (fsm : Fsm)
    → EpochIsIndex fsm
    → fsm.commit_index + 1 < 2 ^ 64
    → EpochIsIndex (won fsm) × ((won fsm).commit_index ≡ fsm.commit_index + 1)
unfolding won next_index next_epoch
won_term fsm e h = ground arith

module _ (S : ObjectStore) (L : StoreLaws S) (C : Codec LogEntry) where
  open S use {State, Location}

  stored_still :
      (p q : Location) (t u : State)
      → p ≡ q
      → Extends S L t u
      → L.contents t p ≢ none
      → L.contents u q ≢ none
  stored_still p q t u e x h = elim (Option-cases (L.contents t p)) [
    | inl n ↦ absurd (h n)
    | inr (w, n) ↦ rw (sym e, x p w n) (λ k. cc)
  ]

  pub leader_wins :
      (fsm g : Fsm) (v : Bytes) (s t : State)
      → fsm.state ≢ leader
      → Attempted S L fsm v s g t
      → g.state ≡ leader
      → (g ≡ won fsm) × (L.contents t (entry_path S fsm.s2c_log (next_index fsm)) ≡ some v)
  leader_wins fsm g v s t n (wins e a c) l = (e, c)
  leader_wins fsm g v s t n (loses e c) l = absurd (n (rw e at l))
  leader_wins fsm g v s t n (stops e) l = cc

  loser_loses :
      (fsm g : Fsm) (v : Bytes) (s t : State)
      → g.state ≡ not_joined
      → Attempted S L fsm v s g t
      → (g ≡ fsm) × (L.contents t (entry_path S fsm.s2c_log (next_index fsm)) ≢ none)
  loser_loses fsm g v s t k (wins e a c) = unfold won in cc
  loser_loses fsm g v s t k (loses e c) = (e, c)
  loser_loses fsm g v s t k (stops e) = cc

  same_path :
      (a b : Fsm)
      → a.s2c_log.keys ≡ b.s2c_log.keys
      → next_index a ≡ next_index b
      → entry_path S a.s2c_log (next_index a) ≡ entry_path S b.s2c_log (next_index b)
  unfolding entry_path
  same_path a b k i = cc

  -- If two nodes that are not leaders try for the same index of a log, and the first attempt
  -- makes its node leader, then the second attempt, on a store that still holds what the first
  -- one left, does not make the other node leader.
  pub at_most_one_leader :
      (fuel rounds fuel' rounds' : ℕ) (a b a' b' : Fsm) (s t u x : State)
      → a.s2c_log.keys ≡ b.s2c_log.keys
      → next_index a ≡ next_index b
      → a.state ≢ leader
      → b.state ≢ leader
      → attempt_leadership S C fuel rounds a s ≡ returns (a', t)
      → a'.state ≡ leader
      → Extends S L t u
      → attempt_leadership S C fuel' rounds' b u ≡ returns (b', x)
      → b'.state ≢ leader
  at_most_one_leader fuel rounds fuel' rounds' a b a' b' s t u x keys index na nb ha la e hb =
      let ended = attempt_leadership-Ended S L C fuel rounds a a' s t ha in
      let v = C.encode (leadership_entry a) in
      attempt_leadership_taken S L C fuel' rounds' b b' u x nb
        (stored_still _ _ t u (same_path a b keys index) e
          (rw (leader_wins a a' v s t na ended.1 la).1 (λ k. cc)))
        hb

  -- If a `NOT_JOINED` node is still `NOT_JOINED` after an attempt, a later attempt of it on a
  -- store that still holds what the first one left does not make it leader.
  pub loser_never_leads :
      (fuel rounds fuel' rounds' : ℕ) (fsm g h : Fsm) (s t u x : State)
      → fsm.state ≡ not_joined
      → attempt_leadership S C fuel rounds fsm s ≡ returns (g, t)
      → g.state ≡ not_joined
      → Extends S L t u
      → attempt_leadership S C fuel' rounds' g u ≡ returns (h, x)
      → h.state ≢ leader
  loser_never_leads fuel rounds fuel' rounds' fsm g h s t u x n a k e b =
      let ended = attempt_leadership-Ended S L C fuel rounds fsm g s t a in
      let (same, taken) = loser_loses fsm g (C.encode (leadership_entry fsm)) s t k ended.1 in
      attempt_leadership_taken S L C fuel' rounds' g h u x (λ y. cc)
        (rw same (stored_still _ _ t u refl e taken)) b

  -- If the epoch of a node that is not leader is its commit index, and the next index is a u64,
  -- both are still equal after an attempt that returns, and an attempt that makes it leader takes
  -- the commit index one further.
  pub attempt_leadership_term :
      (fuel rounds : ℕ) (fsm g : Fsm) (s t : State)
      → EpochIsIndex fsm
      → fsm.commit_index + 1 < 2 ^ 64
      → fsm.state ≢ leader
      → attempt_leadership S C fuel rounds fsm s ≡ returns (g, t)
      → EpochIsIndex g × (g.state ≡ leader → g.commit_index ≡ fsm.commit_index + 1)
  attempt_leadership_term fuel rounds fsm g s t e small n h =
      term_of (C.encode (leadership_entry fsm))
        (attempt_leadership-Ended S L C fuel rounds fsm g s t h).1
    where
      term_of :
          (v : Bytes)
          → Attempted S L fsm v s g t
          → EpochIsIndex g × (g.state ≡ leader → g.commit_index ≡ fsm.commit_index + 1)
      term_of v (wins x a c) = rw x (let (p, q) = won_term fsm e small in (p, λ _. q))
      term_of v (loses x c) = rw x (e, λ l. absurd (n l))
      term_of v (stops x) = rw x (e, λ l. cc)

  -- If an attempt made a node leader and the store still holds what it left, a read that succeeds
  -- at the commit index of the new leader gives bytes that decode to the entry of its election.
  pub leader_entry_read :
      (M : CodecLaws C) (fuel rounds later : ℕ) (fsm g : Fsm) (s t u x : State) (w : Bytes)
      → fsm.state ≢ leader
      → attempt_leadership S C fuel rounds fsm s ≡ returns (g, t)
      → g.state ≡ leader
      → Extends S L t u
      → get_at S later g.s2c_log g.commit_index u ≡ returns (ok w, x)
      → C.decode w ≡ ok (leadership_entry fsm)
  unfolding won
  leader_entry_read M fuel rounds later fsm g s t u x w n h l e r =
      let ended = attempt_leadership-Ended S L C fuel rounds fsm g s t h in
      let v = C.encode (leadership_entry fsm) in
      let (same, stored) = leader_wins fsm g v s t n ended.1 l in
      let p = entry_path S fsm.s2c_log (next_index fsm) in
      let r' : get_at S later fsm.s2c_log (next_index fsm) u ≡ returns (ok w, x) = rw same at r in
      let f = get_at-Fetched S L later fsm.s2c_log (next_index fsm) u (ok w) x r' in
      let written : w ≡ v = cc (f.reads w refl, f.keeps p v (e p v stored)) in
      rw written (M.decode-encode (leadership_entry fsm))
