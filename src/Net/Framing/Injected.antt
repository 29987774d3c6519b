-- ===== src/Net/Framing/Injected.antt =====
-- `S2CMessageReaderTestWrapper` of src/network/message_rw.rs: the reader with failures injected.
-- The closure `fail_every` is a step on a state of its own; what the inspector is shown is listed.
use s2c_rs.Base.{
  ℕ, zero, suc, ◌%◌, ◌≡◌, refl, sym, Bool, ◌&&◌, List, [], ◌∷◌, ◌++◌, Bytes, codes, Result, ok, err,
  Result-cases, Outcome, returns, running, ◌>>=◌, ◌==◌, ltb, u64_add, if◌then◌else◌, inl, inr,
  arith, ◌⊎◌,
}
use s2c_rs.Codec.{Codec}
use s2c_rs.Net.Error.{NetworkError, io}
use s2c_rs.Net.Framing.{Reader, read_next_message}
use s2c_rs.Proto.{S2cMessage}

pub data Failure : Type 0 where
  io_failure drop : Failure

pub record Wrapper (F : Type 0) : Type 0 where
  pub inner : Reader
  pub failures : List Failure
  pub reading_counter : ℕ
  pub fail_every : F

unfoldable pub new : {F : Type 0} → Reader → List Failure → F → Wrapper F
new inner failures fail_every = record {
  inner = inner;
  failures = failures;
  reading_counter = 0;
  fail_every = fail_every;
}

pub record Injected (F : Type 0) : Type 0 where
  pub result : Result S2cMessage NetworkError
  pub wrapper : Wrapper F
  pub inspected : List S2cMessage
  pub rest : Bytes

unfoldable pub should_fail : ℕ → ℕ → Bool
should_fail fail_every counter = ltb 0 fail_every && counter % fail_every == 0

module _ {F : Type 0} (next_fail : F → ℕ × F) where
  -- A message that is not to be dropped: it is returned, or an error in its place.
  pub data Fate : Type 0 where
    given : Result S2cMessage NetworkError → Wrapper F → Fate
    dropped : Wrapper F → Fate

  -- `failures.pop_front()` and `push_back`.
  unfoldable pub inject : S2cMessage → Wrapper F → List Failure → Fate
  inject m w [] = given (ok m) w
  inject m w (io_failure ∷ fs) =
      given (err (io (codes "some msg"))) (record w { failures = fs ++ (io_failure ∷ []) })
  inject m w (drop ∷ fs) = dropped (record w { failures = fs ++ (drop ∷ []) })

  -- The counter and the closure after a message.
  unfoldable pub counted : Wrapper F → Wrapper F
  counted w = record w {
    reading_counter = u64_add w.reading_counter 1;
    fail_every = (next_fail w.fail_every).1;
  }

  unfoldable pub judge : S2cMessage → Wrapper F → Fate
  unfolding should_fail
  judge m w =
      let w' = counted w in
      if should_fail (next_fail w.fail_every).0 w'.reading_counter
      then inject m w' w'.failures
      else given (ok m) w'

  unfoldable pub read_injected :
      Bytes → Codec S2cMessage → ℕ → Wrapper F → Bytes → Outcome (Injected F)
  read_injected eof C zero w arriving = running
  read_injected eof C (suc fuel) w arriving =
      let f = read_next_message eof C w.inner arriving in
      let w' = record w { inner = f.reader } in
      elim f.result [
        | err e ↦ returns (record { result = err e; wrapper = w'; inspected = []; rest = f.rest })
        | ok m ↦ elim (judge m w') [
          | given r w'' ↦
              returns (record { result = r; wrapper = w''; inspected = m ∷ []; rest = f.rest })
          | dropped w'' ↦ read_injected eof C fuel w'' f.rest >>= λ later.
              returns (record later { inspected = m ∷ later.inspected })
        ]
      ]

  -- The next call of the closure lets the message pass.
  abbrev pub Passes : Wrapper F → Type 0
  Passes w = (w.failures ≡ []) ⊎ ((next_fail w.fail_every).0 ≡ 0)

  judge-Passes : (m : S2cMessage) (w : Wrapper F) → Passes w → judge m w ≡ given (ok m) (counted w)
  unfolding judge inject counted
  judge-Passes m w (inr h) = ground (arith, h)
  judge-Passes m w (inl h) = ground (arith, h)

  pub transparent :
      (eof : Bytes) (C : Codec S2cMessage) (fuel : ℕ) (w : Wrapper F) (arriving : Bytes)
      → Passes w
      → let f = read_next_message eof C w.inner arriving in
        (i : Injected F) × (read_injected eof C (suc fuel) w arriving ≡ returns i)
        × (i.result ≡ f.result)
        × (i.rest ≡ f.rest)
  unfolding read_injected
  transparent eof C fuel w arriving p =
      let f = read_next_message eof C w.inner arriving in
      elim (Result-cases f.result) [
        | inl (m, e) ↦
            let j = judge-Passes m (record w { inner = f.reader }) p in
            (
              record {
                result = ok m;
                wrapper = counted (record w { inner = f.reader });
                inspected = m ∷ [];
                rest = f.rest;
              },
              rw (e, j, read_injected) refl,
              sym e,
              refl,
            )
        | inr (x, e) ↦ (
          record {
            result = err x;
            wrapper = record w { inner = f.reader };
            inspected = [];
            rest = f.rest;
          },
          rw (e, read_injected) refl,
          sym e,
          refl,
        )
      ]
