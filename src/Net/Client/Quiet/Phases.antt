-- ===== src/Net/Client/Quiet/Phases.antt =====
-- How far the first handshake of a client has come.
use s2c_rs.Base.{
  ℕ, ◌≡◌, sym, subst, ◌≢◌, inl, inr, Bool-cases, List, [], ◌∷◌, Bytes, take, arith, ℕ_discrete,
  ◌==◌,
}
use s2c_rs.Net.Framing.{frame}
use s2c_rs.Net.Client.{
  Call, idle, admitted, registered, queued, returned, Lock, handshaking, Client, set_call,
}

abbrev pub IsGone : Call → Type 0
IsGone idle = ⊥
IsGone (admitted id payload) = ⊥
IsGone (registered id payload i) = ⊥
IsGone (queued id i) = Unit
IsGone (returned id r) = Unit

module _ (k : ℕ) (p : Bytes) where
  -- How far the payload of the call has come.
  pub data Stage (x : Call) (receiver : List Bytes) (stream : Bytes) : Type 0 where
    asks : (id : Bytes) → x ≡ admitted id p → receiver ≡ [] → stream ≡ [] → Stage x receiver stream
    knows :
        (id : Bytes) (i : ℕ)
        → x ≡ registered id p i
        → receiver ≡ []
        → stream ≡ []
        → Stage x receiver stream
    queues : IsGone x → receiver ≡ p ∷ [] → stream ≡ [] → Stage x receiver stream
    wrote : IsGone x → receiver ≡ [] → (n : ℕ) → stream ≡ take n (frame p) → Stage x receiver stream

  -- The handshake of call `k` is awaited, and no other call was made, or its time is over.
  pub data Quiet (lock : Lock) (calls : ℕ → Call) (receiver : List Bytes) (stream : Bytes)
      : Type 0 where
    during :
        lock ≡ handshaking k
        → ((j : ℕ) → k ≢ j → calls j ≡ idle)
        → Stage (calls k) receiver stream
        → Quiet lock calls receiver stream
    past : lock ≢ handshaking k → calls k ≢ idle → Quiet lock calls receiver stream

  abbrev pub IsQuiet : Client → Type 0
  IsQuiet c = Quiet c.rw_lock c.calls c.receiver c.stream

  pub set_call_other :
      (j : ℕ) (x : Call) (calls : ℕ → Call)
      → x ≢ idle
      → calls k ≢ idle
      → set_call j x calls k ≢ idle
  set_call_other j x calls n l = elim (Bool-cases (j == k)) [ inl e ↦ rw e n | inr e ↦ rw e l ]

  set_call_own : (x : Call) (calls : ℕ → Call) → set_call k x calls k ≡ x
  set_call_own x calls = ground arith

  others_idle :
      (x : Call) (calls : ℕ → Call)
      → ((j : ℕ) → k ≢ j → calls j ≡ idle)
      → (j : ℕ) → k ≢ j
      → set_call k x calls j ≡ idle
  others_idle x calls o j n = ground (arith, o j n)

  -- The one call goes on.
  pub call_moves :
      (j : ℕ) (x : Call) (lock : Lock) (calls : ℕ → Call) (receiver after : List Bytes)
      (stream : Bytes)
      → calls j ≢ idle
      → x ≢ idle
      → (k ≡ j → Stage (calls k) receiver stream → Stage x after stream)
      → Quiet lock calls receiver stream
      → Quiet lock (set_call j x calls) after stream
  call_moves j x lock calls receiver after stream a n f (past h l) =
      past h (set_call_other j x calls n l)
  call_moves j x lock calls receiver after stream a n f (during h o s) = elim (ℕ_discrete k j) [
    | yes e ↦
        subst (λ i. Quiet lock (set_call i x calls) after stream) e
          (during h (others_idle x calls o)
            (subst (λ y. Stage y after stream) (sym (set_call_own x calls)) (f e s)))
    | no e ↦ absurd (a (o j e))
  ]

  pub ended_moves :
      (x y : Call) (id : Bytes) (i : ℕ) (receiver : List Bytes) (stream : Bytes)
      → x ≡ queued id i
      → IsGone y
      → Stage x receiver stream
      → Stage y receiver stream
  ended_moves x y id i receiver stream e g (asks id' q r s) = absurd cc
  ended_moves x y id i receiver stream e g (knows id' j q r s) = absurd cc
  ended_moves x y id i receiver stream e g (queues h r s) = queues g r s
  ended_moves x y id i receiver stream e g (wrote h r n s) = wrote g r n s
