-- ===== src/Net/Client/Reconnect/Late.antt =====
-- What a client knows of the requests that are sent after its token was cancelled.
use s2c_rs.Base.{
  ℕ, ◌≤◌, ◌<◌, ◌≡◌, sym, ◌∙◌, ◌≢◌, ◌⊎◌, true, false, inl, inr, Bytes, ok, err, ◌==◌, arith,
  ℕ_discrete,
}
use s2c_rs.Proto.{S2cMessage}
use s2c_rs.Net.Inflight.{InflightRequests, dropped, answered, add, discard, lookup, settle}
use s2c_rs.Net.Inflight.Channels.{settle_cases}
use s2c_rs.Net.Client.{
  ready, Call, idle, admitted, registered, queued, returned, handshaking, Reader, Writer, Client,
  set_call,
}

-- From channel `n` on nothing was answered with a message.
abbrev pub IsQuiet : ℕ → InflightRequests → Type 0
IsQuiet n q =
    (n ≤ q.next) × ((i : ℕ) (m : S2cMessage) → n ≤ i → i < q.next → q.slots i ≢ answered (ok m))

settle-quiet :
    (q : InflightRequests) (n : ℕ) (id : Bytes) (i : ℕ) (m : S2cMessage)
    → IsQuiet n q
    → n ≤ i
    → i < q.next
    → settle (lookup id q.requests) dropped q.slots i ≢ answered (ok m)
settle-quiet q n id i m h a b e = elim (settle_cases (lookup id q.requests) dropped q.slots i) [
  | inl (o, x) ↦ cc
  | inr x ↦ h.1 i m a b (sym x ∙ e)
]

pub add-IsQuiet : (q : InflightRequests) (n : ℕ) (id : Bytes) → IsQuiet n q → IsQuiet n (add id q).1
unfolding add
add-IsQuiet q n id h = (
  omega (arith, h.0),
  λ i m a b e. elim (ℕ_discrete q.next i) [
    | yes s ↦ ground arith
    | no s ↦ settle-quiet q n id i m h a (omega arith) (ground arith)
  ],
)

pub discard-IsQuiet :
    (q : InflightRequests) (n : ℕ) (id : Bytes) → IsQuiet n q → IsQuiet n (discard id q)
unfolding discard
discard-IsQuiet q n id h = (h.0, λ i m a b e. settle-quiet q n id i m h a b e)

-- A call whose channel, if it has one, is `n` or later, and that has no answer.
abbrev pub IsLate : ℕ → InflightRequests → Call → Type 0
IsLate n q idle = ⊥
IsLate n q (admitted id payload) = Unit
IsLate n q (registered id payload i) = (n ≤ i) × (i < q.next)
IsLate n q (queued id i) = (n ≤ i) × (i < q.next)
IsLate n q (returned id (ok m)) = ⊥
IsLate n q (returned id (err e)) = Unit

-- The tasks have ended under a cancelled token, the client is not ready, and `connect`, if one is
-- on its way, has a late call, and so are the calls in `W`.
pub record IsDead (n : ℕ) (w : Bytes) (W : ℕ → Type 0) (c : Client) : Type 0 where
  pub cancelled : c.cancelled ≡ true
  pub reader : c.reader ≡ Reader.gone
  pub writer : c.writer ≡ Writer.gone
  pub state : c.client_state ≢ ready
  pub quiet : IsQuiet n c.inflight_requests
  pub late : (k : ℕ) → (c.rw_lock ≡ handshaking k) ⊎ W k → IsLate n c.inflight_requests (c.calls k)
  pub written : c.written ≡ w

pub IsLate-next :
    (n : ℕ) (q r : InflightRequests) (x : Call) → q.next ≤ r.next → IsLate n q x → IsLate n r x
IsLate-next n q r idle h l = l
IsLate-next n q r (admitted id payload) h l = tt
IsLate-next n q r (registered id payload i) h l = (l.0, omega (arith, l.1))
IsLate-next n q r (queued id i) h l = (l.0, omega (arith, l.1))
IsLate-next n q r (returned id (ok m)) h l = l
IsLate-next n q r (returned id (err e)) h l = tt

pub IsLate-set_call :
    (n : ℕ) (q : InflightRequests) (k j : ℕ) (x : Call) (calls : ℕ → Call)
    → (k ≡ j → IsLate n q x)
    → IsLate n q (calls j)
    → IsLate n q (set_call k x calls j)
IsLate-set_call n q k j x calls h l = elim (ℕ_discrete k j) [
  | yes e ↦ let y : (k == j) ≡ true = ground arith in rw y (h e)
  | no e ↦ let y : (k == j) ≡ false = ground arith in rw y l
]
