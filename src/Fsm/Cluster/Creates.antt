-- ===== src/Fsm/Cluster/Creates.antt =====
-- An attempt in single creates against `attempt_leadership`.
use s2c_rs.Base.{
  ℕ, zero, suc, ◌+◌, ◌≡◌, refl, ◌∙◌, ap, subst, none, some, Result, ok, err, returns, Holds,
  Holds-mono, Holds-returns, arith,
}
use s2c_rs.Backoff.{BackoffCounter, await_attempt}
use s2c_rs.Backoff
use s2c_rs.Codec.{Codec}
use s2c_rs.Config.{to_unlimited}
use s2c_rs.Failure.{StoreError}
use s2c_rs.Proto.{LogEntry}
use s2c_rs.Store.{ObjectStore}
use s2c_rs.Log.{append_loop, append, entry_path}
use s2c_rs.Log.Append.{append_loop_cases}
use s2c_rs.Fsm.{Fsm}
use s2c_rs.Fsm.Leadership.{next_index, leadership_entry, lost, leadership_loop, attempt_leadership}
use s2c_rs.Fsm.Leadership.Safety.{leadership_loop_cases}
use s2c_rs.Fsm.Cluster.{
  Phase, rests, tries, begin_append, begin_attempt, after_append, after_create, create, creates,
}

after_append-some :
    (fsm : Fsm) (b' : BackoffCounter) (e : StoreError) (g : Fsm)
    → lost fsm e ≡ some g
    → after_append fsm b' (err e) ≡ rests g
unfolding after_append
after_append-some fsm b' e g n = rw (n, after_append) refl

after_append-none :
    (fsm : Fsm) (b' : BackoffCounter) (e : StoreError)
    → lost fsm e ≡ none
    → after_append fsm b' (err e) ≡ begin_append fsm (await_attempt b')
unfolding after_append lost Backoff.new await_attempt Backoff.can_attempt
after_append-none fsm b' e n = rw (n, after_append) refl

module _ (S : ObjectStore) (C : Codec LogEntry) where
  open S use {State}

  creates_add :
      (n m : ℕ) (p : Phase) (s : State)
      → creates S C (n + m) p s ≡ creates S C m (creates S C n p s).0 (creates S C n p s).1
  unfolding creates
  creates_add zero m p s = let e : 0 + m ≡ m = omega arith in rw e refl
  creates_add (suc n) m p s =
      let e : suc n + m ≡ suc (n + m) = omega arith in
      rw e (creates_add n m (create S C p s).0 (create S C p s).1)

  -- A number of creates takes the node and the store there.
  abbrev pub Reaches : Phase → State → Phase → State → Type 0
  Reaches p s q t = (n : ℕ) × (creates S C n p s ≡ (q, t))

  Reaches-trans :
      (p q r : Phase) (s t u : State) → Reaches p s q t → Reaches q t r u → Reaches p s r u
  Reaches-trans p q r s t u (n, a) (m, b) =
      (n + m, creates_add n m p s ∙ ap (λ (x : Phase × State). creates S C m x.0 x.1) a ∙ b)

  module _ (fsm : Fsm) (b' : BackoffCounter) where
    append_loop-Reaches :
        (fuel : ℕ) (b : BackoffCounter) (s : State)
        → Holds
            (λ o. Reaches (tries fsm b b') s (after_append fsm b' o.0) o.1)
            (append_loop S fuel
              (entry_path S fsm.s2c_log (next_index fsm))
              (C.encode (leadership_entry fsm))
              b
              s)
    unfolding creates create after_create
    append_loop-Reaches zero b s = unfold append_loop in tt
    append_loop-Reaches (suc fuel) b s =
        let p = entry_path S fsm.s2c_log (next_index fsm) in
        let v = C.encode (leadership_entry fsm) in
        append_loop_cases S (Holds (λ o. Reaches (tries fsm b b') s (after_append fsm b' o.0) o.1))
          fuel p v b s (λ h. (1, rw (h, after_create) refl))
          (λ e h n. (1, rw (h, n, after_create) refl))
          (λ e c h n.
            let next : Reaches (tries fsm b b') s (tries fsm c b') (S.put_create p v s).1 =
              (1, rw (h, n, after_create) refl) in
            Holds-mono (append_loop S fuel p v c (S.put_create p v s).1)
              (λ o r. Reaches-trans _ _ _ s _ o.1 next r)
              (append_loop-Reaches fuel c (S.put_create p v s).1))

    append-Reaches :
        (rounds : ℕ) (s t : State) (r : Result (Unit {0}) StoreError)
        → append S rounds fsm.s2c_log (next_index fsm) (C.encode (leadership_entry fsm)) s
          ≡ returns (r, t)
        → Reaches (begin_append fsm b') s (after_append fsm b' r) t
    unfolding append begin_append
    append-Reaches rounds s t r h =
        Holds-returns
          (λ o.
            Reaches (tries fsm (Backoff.new fsm.s2c_log.retry) b') s (after_append fsm b' o.0) o.1)
          h (append_loop-Reaches rounds (Backoff.new fsm.s2c_log.retry) s)

  leadership_loop-Reaches :
      (fuel rounds : ℕ) (fsm : Fsm) (b' : BackoffCounter) (s : State)
      → Holds
          (λ o. Reaches (begin_append fsm b') s (rests o.0) o.1)
          (leadership_loop S fuel rounds fsm (C.encode (leadership_entry fsm)) b' s)
  unfolding after_append
  leadership_loop-Reaches zero rounds fsm b' s = unfold leadership_loop in tt
  leadership_loop-Reaches (suc fuel) rounds fsm b' s =
      let v = C.encode (leadership_entry fsm) in
      leadership_loop_cases S (Holds (λ o. Reaches (begin_append fsm b') s (rests o.0) o.1)) fuel
        rounds fsm v b' s tt tt (λ t h. append-Reaches fsm b' rounds s t (ok tt) h)
        (λ e t g h n.
          subst (λ q. Reaches (begin_append fsm b') s q t) (after_append-some fsm b' e g n)
            (append-Reaches fsm b' rounds s t (err e) h))
        (λ e t h n.
          let next : Reaches (begin_append fsm b') s (begin_append fsm (await_attempt b')) t =
            subst (λ q. Reaches (begin_append fsm b') s q t) (after_append-none fsm b' e n)
              (append-Reaches fsm b' rounds s t (err e) h) in
          Holds-mono (leadership_loop S fuel rounds fsm v (await_attempt b') t)
            (λ o r. Reaches-trans _ _ _ s t o.1 next r)
            (leadership_loop-Reaches fuel rounds fsm (await_attempt b') t))

  -- An attempt at leadership that returns is some number of single creates from its beginning:
  -- they leave the node at rest as the attempt leaves it, and the same store.
  pub attempt_in_creates :
      (fuel rounds : ℕ) (fsm g : Fsm) (s t : State)
      → attempt_leadership S C fuel rounds fsm s ≡ returns (g, t)
      → (n : ℕ) × (creates S C n (begin_attempt fsm) s ≡ (rests g, t))
  unfolding attempt_leadership begin_attempt
  attempt_in_creates fuel rounds fsm g s t h =
      let b' = Backoff.new (to_unlimited fsm.s2c_options.retry) in
      Holds-returns (λ o. Reaches (begin_append fsm b') s (rests o.0) o.1) h
        (leadership_loop-Reaches fuel rounds fsm b' s)
