-- ===== src/Fsm/Leadership/Stays.antt =====
-- A node on a store whose creates fail only in ways that a later attempt can mend.
use s2c_rs.Base.{
  ℕ, zero, suc, ◌≡◌, refl, ◌≢◌, ◌⊎◌, inl, inr, true, some, Bytes, Result, err, returns, Holds,
  Holds-returns, arith,
}
use s2c_rs.Backoff.{BackoffCounter, await_attempt}
use s2c_rs.Backoff
use s2c_rs.Codec.{Codec}
use s2c_rs.Config.{to_unlimited}
use s2c_rs.Failure.{StoreError, generic, not_found, already_exists, other, is_transient}
use s2c_rs.Proto.{LogEntry}
use s2c_rs.Store.{ObjectStore}
use s2c_rs.Log.{S2cLog, append_loop, append, entry_path}
use s2c_rs.Log.Append.{append_loop_cases}
use s2c_rs.Fsm.{Fsm, stopped}
use s2c_rs.Fsm.Leadership.{
  next_index, leadership_entry, won, lost, leadership_loop, attempt_leadership,
}
use s2c_rs.Fsm.Leadership.Safety.{leadership_loop_cases}

abbrev pub IsMild : StoreError → Type 0
IsMild e = (e ≡ already_exists) ⊎ (is_transient e ≡ true)

-- Every error of a create is `AlreadyExists` or transient.
abbrev pub FailsMildly : ObjectStore → Type 0
FailsMildly S =
    (p : S.Location) (v : Bytes) (s : S.State) (e : StoreError)
    → (S.put_create p v s).0 ≡ err e
    → IsMild e

abbrev pub Goes : Fsm → Type 0
Goes fsm = fsm.state ≢ stopped

lost-Goes : (fsm g : Fsm) (e : StoreError) → IsMild e → lost fsm e ≡ some g → Goes fsm → Goes g
unfolding lost is_transient
lost-Goes fsm g already_exists m h n = λ k. n (cc)
lost-Goes fsm g (generic x) (inl e) h n = cc
lost-Goes fsm g (generic x) (inr e) h n = ground (arith, e)
lost-Goes fsm g not_found (inl e) h n = cc
lost-Goes fsm g not_found (inr e) h n = cc
lost-Goes fsm g other (inl e) h n = cc
lost-Goes fsm g other (inr e) h n = cc

module _ (S : ObjectStore) (mild : FailsMildly S) where
  open S use {State, Location}

  abbrev Answered : Result (Unit {0}) StoreError × State → Type 0
  Answered o = (e : StoreError) → o.0 ≡ err e → IsMild e

  append_loop-Answered :
      (fuel : ℕ) (p : Location) (v : Bytes) (b : BackoffCounter) (s : State)
      → Holds Answered (append_loop S fuel p v b s)
  append_loop-Answered zero p v b s = unfold append_loop in tt
  append_loop-Answered (suc fuel) p v b s =
      append_loop_cases S (Holds Answered) fuel p v b s (λ h e k. cc)
        (λ e h n f k. mild p v s f (cc))
        (λ e b' h n. append_loop-Answered fuel p v b' (S.put_create p v s).1)

  append-IsMild :
      (rounds : ℕ) (log : S2cLog) (i : ℕ) (v : Bytes) (s t : State) (e : StoreError)
      → append S rounds log i v s ≡ returns (err e, t)
      → IsMild e
  unfolding append
  append-IsMild rounds log i v s t e h =
      Holds-returns Answered h
        (append_loop-Answered rounds (entry_path S log i) v (Backoff.new log.retry) s) e refl

  leadership_loop-Goes :
      (fuel rounds : ℕ) (fsm : Fsm) (v : Bytes) (b : BackoffCounter) (s : State)
      → Goes fsm
      → Holds (λ o. Goes o.0) (leadership_loop S fuel rounds fsm v b s)
  unfolding won
  leadership_loop-Goes zero rounds fsm v b s n = unfold leadership_loop in tt
  leadership_loop-Goes (suc fuel) rounds fsm v b s n =
      leadership_loop_cases S (Holds (λ o. Goes o.0)) fuel rounds fsm v b s tt tt (λ t h k. cc)
        (λ e t g h l.
          lost-Goes fsm g e (append-IsMild rounds fsm.s2c_log (next_index fsm) v s t e h) l n)
        (λ e t h l. leadership_loop-Goes fuel rounds fsm v (await_attempt b) t n)

  pub attempt_leadership-Goes :
      (C : Codec LogEntry) (fuel rounds : ℕ) (fsm : Fsm) (s : State)
      → Goes fsm
      → Holds (λ o. Goes o.0) (attempt_leadership S C fuel rounds fsm s)
  unfolding attempt_leadership
  attempt_leadership-Goes C fuel rounds fsm s n =
      leadership_loop-Goes fuel rounds fsm (C.encode (leadership_entry fsm))
        (Backoff.new (to_unlimited fsm.s2c_options.retry)) s n
