-- ===== src/Fsm/Leadership/Safety.antt =====
-- `attempt_leadership` against the ends that an attempt can have.
use s2c_rs.Base.{
  ℕ, zero, suc, ◌≡◌, refl, sym, subst, ◌≢◌, inl, inr, Option, none, some, Bytes, ok, err, Outcome,
  returns, panics, running, Outcome-cases, Holds, Holds-mono, Holds-returns, Option-cases, arith,
}
use s2c_rs.Backoff.{BackoffCounter, await_attempt}
use s2c_rs.Backoff
use s2c_rs.Config.{to_unlimited}
use s2c_rs.Codec.{Codec}
use s2c_rs.Failure.{StoreError, generic, not_found, already_exists, other}
use s2c_rs.Proto.{LogEntry}
use s2c_rs.Store.{ObjectStore, StoreLaws, Extends}
use s2c_rs.Log.{append, entry_path}
use s2c_rs.Log.Append.{Appended, append-Appended}
use s2c_rs.Fsm.{Fsm, leader, stopped}
use s2c_rs.Fsm.Leadership.{
  next_index, leadership_entry, won, lost, leadership_loop, attempt_leadership,
}

-- One round of the loop, by the answer of the append.
pub leadership_loop_cases {ℓ} :
    (S : ObjectStore) (P : Outcome (Fsm × S.State) → Type ℓ) (fuel rounds : ℕ) (fsm : Fsm)
    (v : Bytes) (b : BackoffCounter) (s : S.State)
    → P panics
    → P running
    → ((t : S.State)
        → append S rounds fsm.s2c_log (next_index fsm) v s ≡ returns (ok tt, t)
        → P (returns (won fsm, t)))
    → ((e : StoreError) (t : S.State) (g : Fsm)
        → append S rounds fsm.s2c_log (next_index fsm) v s ≡ returns (err e, t)
        → lost fsm e ≡ some g
        → P (returns (g, t)))
    → ((e : StoreError) (t : S.State)
        → append S rounds fsm.s2c_log (next_index fsm) v s ≡ returns (err e, t)
        → lost fsm e ≡ none
        → P (leadership_loop S fuel rounds fsm v (await_attempt b) t))
    → P (leadership_loop S (suc fuel) rounds fsm v b s)
unfolding leadership_loop
leadership_loop_cases S P fuel rounds fsm v b s panic more wins ends again =
    elim (Outcome-cases (append S rounds fsm.s2c_log (next_index fsm) v s)) [
      | inl ((ok u, t), h) ↦ rw (h, leadership_loop) (wins t h)
      | inl ((err e, t), h) ↦ elim (Option-cases (lost fsm e)) [
        | inl n ↦ rw (h, leadership_loop) (subst (λ o. P (answer o t)) (sym n) (again e t h n))
        | inr (g, n) ↦
            rw (h, leadership_loop) (subst (λ o. P (answer o t)) (sym n) (ends e t g h n))
      ]
      | inr (inl h) ↦ rw (h, leadership_loop) panic
      | inr (inr h) ↦ rw (h, leadership_loop) more
    ]
  where
    answer : Option Fsm → S.State → Outcome (Fsm × S.State)
    answer o t = elim o [
      | some g ↦ returns (g, t)
      | none ↦ leadership_loop S fuel rounds fsm v (await_attempt b) t
    ]

module _ (S : ObjectStore) (L : StoreLaws S) where
  open S use {State, Location}

  abbrev pub term_path : Fsm → Location
  term_path fsm = entry_path S fsm.s2c_log (next_index fsm)

  -- The three ends of an attempt.
  pub data Attempted (fsm : Fsm) (v : Bytes) (s : State) (g : Fsm) (t : State) : Type 0 where
    wins :
        g ≡ won fsm
        → L.contents s (term_path fsm) ≡ none
        → L.contents t (term_path fsm) ≡ some v
        → Attempted fsm v s g t
    loses : g ≡ fsm → L.contents t (term_path fsm) ≢ none → Attempted fsm v s g t
    stops : g ≡ record fsm { state = stopped } → Attempted fsm v s g t

  lost-Attempted :
      (fsm g : Fsm) (v : Bytes) (s t : State) (e : StoreError)
      → Appended S L (term_path fsm) v s (err e) t
      → lost fsm e ≡ some g
      → Attempted fsm v s g t
  unfolding lost
  lost-Attempted fsm g v s t (generic m) a h = stops (ground arith)
  lost-Attempted fsm g v s t already_exists a h = loses (cc) (a.taken refl)
  lost-Attempted fsm g v s t not_found a h = stops (cc)
  lost-Attempted fsm g v s t other a h = stops (cc)

  -- What is stored stays, and the attempt ends in one of the three ways.
  abbrev pub Ended : Fsm → Bytes → State → Fsm × State → Type 0
  Ended fsm v s o = Extends S L s o.1 × Attempted fsm v s o.0 o.1

  earlier :
      (fsm : Fsm) (v : Bytes) (s u : State) (o : Fsm × State)
      → Extends S L s u
      → Ended fsm v u o
      → Ended fsm v s o
  earlier fsm v s u o x (k, wins e a c) = (
    λ q w h. k q w (x q w h),
    wins e
        (elim (Option-cases (L.contents s (term_path fsm))) [
          | inl n ↦ n
          | inr (w, n) ↦ cc (x (term_path fsm) w n)
        ])
        c,
  )
  earlier fsm v s u o x (k, loses e c) = (λ q w h. k q w (x q w h), loses e c)
  earlier fsm v s u o x (k, stops e) = (λ q w h. k q w (x q w h), stops e)

  leadership_loop-Ended :
      (fuel rounds : ℕ) (fsm : Fsm) (v : Bytes) (b : BackoffCounter) (s : State)
      → Holds (Ended fsm v s) (leadership_loop S fuel rounds fsm v b s)
  leadership_loop-Ended zero rounds fsm v b s = unfold leadership_loop in tt
  leadership_loop-Ended (suc fuel) rounds fsm v b s =
      leadership_loop_cases S (Holds (Ended fsm v s)) fuel rounds fsm v b s tt tt
        (λ t h.
          let a = append-Appended S L rounds fsm.s2c_log (next_index fsm) v s (ok tt) t h in
          (a.keeps, wins refl (a.stores refl).0 (a.stores refl).1))
        (λ e t g h n.
          let a = append-Appended S L rounds fsm.s2c_log (next_index fsm) v s (err e) t h in
          (a.keeps, lost-Attempted fsm g v s t e a n))
        (λ e t h n.
          let a = append-Appended S L rounds fsm.s2c_log (next_index fsm) v s (err e) t h in
          Holds-mono (leadership_loop S fuel rounds fsm v (await_attempt b) t)
            (λ o. earlier fsm v s t o a.keeps)
            (leadership_loop-Ended fuel rounds fsm v (await_attempt b) t))

  module _ (C : Codec LogEntry) where
    -- An attempt that returns keeps everything that is stored, and it wins an index that was free
    -- and writes its entry there, or finds the index taken and leaves the node as it was, or
    -- stops the node.
    pub attempt_leadership-Ended :
        (fuel rounds : ℕ) (fsm g : Fsm) (s t : State)
        → attempt_leadership S C fuel rounds fsm s ≡ returns (g, t)
        → Ended fsm (C.encode (leadership_entry fsm)) s (g, t)
    unfolding attempt_leadership
    attempt_leadership-Ended fuel rounds fsm g s t h =
        Holds-returns (Ended fsm (C.encode (leadership_entry fsm)) s) h (
          leadership_loop-Ended fuel rounds fsm (C.encode (leadership_entry fsm))
            (Backoff.new (to_unlimited fsm.s2c_options.retry)) s)

    -- Where the index is taken the node does not become leader.
    pub attempt_leadership_taken :
        (fuel rounds : ℕ) (fsm g : Fsm) (s t : State)
        → fsm.state ≢ leader
        → L.contents s (term_path fsm) ≢ none
        → attempt_leadership S C fuel rounds fsm s ≡ returns (g, t)
        → g.state ≢ leader
    attempt_leadership_taken fuel rounds fsm g s t n k h =
        elim (attempt_leadership-Ended fuel rounds fsm g s t h).1 [
          | wins e a c ↦ absurd (k a)
          | loses e c ↦ rw e n
          | stops e ↦ rw e (λ x. cc)
        ]
