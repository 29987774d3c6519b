-- ===== src/Log/Read.antt =====
-- What `get_at` reads.
use s2c_rs.Base.{
  ℕ, zero, suc, ◌≡◌, refl, none, some, Bytes, Result, ok, err, Result-cases, Outcome, returns,
  Holds, Holds-mono, Holds-returns, Option-cases, inl, inr,
}
use s2c_rs.Backoff.{BackoffCounter, can_attempt, await_attempt, reset}
use s2c_rs.Backoff
use s2c_rs.Failure.{StoreError}
use s2c_rs.Store.{ObjectStore, StoreLaws, Extends}
use s2c_rs.Log.{S2cLog, read_again, get_loop, get_at, append, entry_path}
use s2c_rs.Log.Append.{append-Appended}

-- One round: the body is read, a failure is returned, or the loop goes round again.
pub get_loop_cases {ℓ} :
    (S : ObjectStore) (P : Outcome (Result Bytes StoreError × S.State) → Type ℓ) (fuel : ℕ)
    (p : S.Location) (b : BackoffCounter) (s : S.State)
    → ((h : S.Handle) (v : Bytes)
        → (S.get p s).0 ≡ ok h
        → (S.bytes h (S.get p s).1).0 ≡ ok v
        → P (returns (ok v, (S.bytes h (S.get p s).1).1)))
    → ((h : S.Handle) (e : StoreError)
        → (S.get p s).0 ≡ ok h
        → (S.bytes h (S.get p s).1).0 ≡ err e
        → ((read_again (reset b) e ≡ none → P (returns (err e, (S.bytes h (S.get p s).1).1)))
            × ((b' : BackoffCounter)
                → read_again (reset b) e ≡ some b'
                → P (get_loop S fuel p b' (S.bytes h (S.get p s).1).1))))
    → ((e : StoreError)
        → (S.get p s).0 ≡ err e
        → ((read_again b e ≡ none → P (returns (err e, (S.get p s).1)))
            × ((b' : BackoffCounter)
                → read_again b e ≡ some b'
                → P (get_loop S fuel p b' (S.get p s).1))))
    → P (get_loop S (suc fuel) p b s)
unfolding get_loop
get_loop_cases S P fuel p b s done broken failed = elim (Result-cases (S.get p s).0) [
  | inl (h, g) ↦ elim (Result-cases (S.bytes h (S.get p s).1).0) [
    | inl (v, k) ↦ rw (g, k, get_loop) (done h v g k)
    | inr (e, k) ↦
        rw (g, k, get_loop)
          (elim (Option-cases (read_again (reset b) e)) [
            | inl n ↦ rw n ((broken h e g k).0 n)
            | inr (b', n) ↦ rw n ((broken h e g k).1 b' n)
          ])
  ]
  | inr (e, g) ↦
      rw (g, get_loop)
        (elim (Option-cases (read_again b e)) [
          | inl n ↦ rw n ((failed e g).0 n)
          | inr (b', n) ↦ rw n ((failed e g).1 b' n)
        ])
]

module _ (S : ObjectStore) (L : StoreLaws S) where
  open S use {State, Location, Handle, get, bytes}

  -- What a read that returned says.
  pub record Fetched (p : Location) (s : State) (r : Result Bytes StoreError) (t : State)
      : Type 0 where
    pub keeps : Extends S L s t
    pub reads : (v : Bytes) → r ≡ ok v → L.contents t p ≡ some v

  Fetched-later :
      (p : Location) (s u : State) (o : Result Bytes StoreError × State)
      → Extends S L s u
      → Fetched p u o.0 o.1
      → Fetched p s o.0 o.1
  Fetched-later p s u o x f = record { keeps = λ q w k. f.keeps q w (x q w k); reads = f.reads }

  both_keep : (p : Location) (h : Handle) (s : State) → Extends S L s (bytes h (get p s).1).1
  both_keep p h s q w k = L.bytes_keeps h (get p s).1 q w (L.get_keeps p s q w k)

  get_loop-Fetched :
      (fuel : ℕ) (p : Location) (b : BackoffCounter) (s : State)
      → Holds (λ o. Fetched p s o.0 o.1) (get_loop S fuel p b s)
  get_loop-Fetched zero p b s = unfold get_loop in tt
  get_loop-Fetched (suc fuel) p b s =
      get_loop_cases S (Holds (λ o. Fetched p s o.0 o.1)) fuel p b s
        (λ h v g k. record {
          keeps = both_keep p h s;
          reads = λ w e. both_keep p h s p w (cc (L.get_ok p s h g, L.bytes_ok h (get p s).1 v k));
        })
        (λ h e g k. (
          λ _. record { keeps = both_keep p h s; reads = λ v n. cc },
          λ b' n.
              Holds-mono (get_loop S fuel p b' (bytes h (get p s).1).1)
                (λ o f. Fetched-later p s _ o (both_keep p h s) f)
                (get_loop-Fetched fuel p b' (bytes h (get p s).1).1),
        ))
        (λ e g. (
          λ _. record { keeps = L.get_keeps p s; reads = λ v n. cc },
          λ b' n.
              Holds-mono (get_loop S fuel p b' (get p s).1)
                (λ o f. Fetched-later p s _ o (L.get_keeps p s) f)
                (get_loop-Fetched fuel p b' (get p s).1),
        ))

  pub get_at-Fetched :
      (fuel : ℕ) (log : S2cLog) (index : ℕ) (s : State) (r : Result Bytes StoreError) (t : State)
      → get_at S fuel log index s ≡ returns (r, t)
      → Fetched (entry_path S log index) s r t
  unfolding get_at
  get_at-Fetched fuel log index s r t h =
      Holds-returns (λ o. Fetched (entry_path S log index) s o.0 o.1) h
        (get_loop-Fetched fuel (entry_path S log index) (Backoff.new log.retry) s)

  -- If an append of a payload at an index succeeded and the store still holds what it held then,
  -- a read of that index that succeeds returns the payload.
  pub get_at-append :
      (fuel later : ℕ) (log : S2cLog) (index : ℕ) (v w : Bytes) (s t u x : State)
      → append S fuel log index v s ≡ returns (ok tt, t)
      → Extends S L t u
      → get_at S later log index u ≡ returns (ok w, x)
      → w ≡ v
  get_at-append fuel later log index v w s t u x a e g =
      let f = get_at-Fetched later log index u (ok w) x g in
      let p = entry_path S log index in
      let stored = (append-Appended S L fuel log index v s (ok tt) t a).stores refl in
      cc (f.reads w refl, f.keeps p v (e p v stored.1))
