-- ===== src/Log/Append.antt =====
-- What `append` leaves in the store.
use s2c_rs.Base.{
  ℕ, zero, suc, ◌≡◌, ◌≢◌, none, some, Bytes, Result, ok, err, Result-cases, Outcome, returns,
  Option-cases, Holds, Holds-mono, Holds-returns, inl, inr,
}
use s2c_rs.Backoff
use s2c_rs.Backoff.{BackoffCounter}
use s2c_rs.Failure.{StoreError, already_exists}
use s2c_rs.Store.{ObjectStore, StoreLaws, Extends}
use s2c_rs.Log.{S2cLog, append_again, append_loop, append, entry_path}

-- One round of the loop: it ends with the store's answer, or goes round again.
pub append_loop_cases {ℓ} :
    (S : ObjectStore) (P : Outcome (Result (Unit {0}) StoreError × S.State) → Type ℓ) (fuel : ℕ)
    (p : S.Location) (v : Bytes) (b : BackoffCounter) (s : S.State)
    → ((S.put_create p v s).0 ≡ ok tt → P (returns (ok tt, (S.put_create p v s).1)))
    → ((e : StoreError)
        → (S.put_create p v s).0 ≡ err e
        → append_again b e ≡ none
        → P (returns (err e, (S.put_create p v s).1)))
    → ((e : StoreError) (b' : BackoffCounter)
        → (S.put_create p v s).0 ≡ err e
        → append_again b e ≡ some b'
        → P (append_loop S fuel p v b' (S.put_create p v s).1))
    → P (append_loop S (suc fuel) p v b s)
unfolding append_loop
append_loop_cases S P fuel p v b s done failed again = elim (Result-cases (S.put_create p v s).0) [
  | inl (u, h) ↦ rw (h, append_loop) (done h)
  | inr (e, h) ↦
      rw (h, append_loop)
        (elim (Option-cases (append_again b e)) [
          | inl n ↦ rw n (failed e h n)
          | inr (b', n) ↦ rw n (again e b' h n)
        ])
]

module _ (S : ObjectStore) (L : StoreLaws S) where
  open S use {State, Location, put_create}

  -- What an append that returned did, whichever way it ended.
  pub record Appended (p : Location) (v : Bytes) (s : State) (r : Result (Unit {0}) StoreError)
      (t : State) : Type 0 where
    pub keeps : Extends S L s t
    pub stores : r ≡ ok tt → (L.contents s p ≡ none) × (L.contents t p ≡ some v)
    pub taken : r ≡ err already_exists → L.contents t p ≢ none

  stored_later :
      (p : Location) (v : Bytes) (s : State)
      → L.contents s p ≢ none
      → L.contents (put_create p v s).1 p ≢ none
  stored_later p v s h = elim (Option-cases (L.contents s p)) [
    | inl e ↦ absurd (h e)
    | inr (w, e) ↦ rw (L.put_keeps p v s p w e) (λ n. cc)
  ]

  absent_before :
      (p : Location) (v : Bytes) (s : State)
      → L.contents (put_create p v s).1 p ≡ none
      → L.contents s p ≡ none
  absent_before p v s h = elim (Option-cases (L.contents s p)) [
    | inl e ↦ e
    | inr (w, e) ↦ cc (L.put_keeps p v s p w e)
  ]

  append_loop-Appended :
      (fuel : ℕ) (p : Location) (v : Bytes) (b : BackoffCounter) (s : State)
      → Holds (λ o. Appended p v s o.0 o.1) (append_loop S fuel p v b s)
  append_loop-Appended zero p v b s = unfold append_loop in tt
  append_loop-Appended (suc fuel) p v b s =
      append_loop_cases S (Holds (λ o. Appended p v s o.0 o.1)) fuel p v b s
        (λ h. record { keeps = L.put_keeps p v s; stores = λ _. L.put_ok p v s h; taken = λ e. cc })
        (λ e h _. record {
          keeps = L.put_keeps p v s;
          stores = λ n. cc;
          taken = λ n. stored_later p v s (L.put_exists p v s (cc));
        })
        (λ e b' _ _.
          Holds-mono (append_loop S fuel p v b' (put_create p v s).1)
            (λ o a. record {
              keeps = λ q w k. a.keeps q w (L.put_keeps p v s q w k);
              stores = λ n. (absent_before p v s (a.stores n).0, (a.stores n).1);
              taken = a.taken;
            })
            (append_loop-Appended fuel p v b' (put_create p v s).1))

  -- An append that returns keeps everything that is stored; if it succeeds, its key was free
  -- before and holds the payload after; if it answers `AlreadyExists`, its key is taken.
  pub append-Appended :
      (fuel : ℕ) (log : S2cLog) (index : ℕ) (v : Bytes) (s : State)
      (r : Result (Unit {0}) StoreError) (t : State)
      → append S fuel log index v s ≡ returns (r, t)
      → Appended (entry_path S log index) v s r t
  unfolding append
  append-Appended fuel log index v s r t h =
      Holds-returns (λ o. Appended (entry_path S log index) v s o.0 o.1) h
        (append_loop-Appended fuel (entry_path S log index) v (Backoff.new log.retry) s)
