-- ===== src/Net/Client/Invariants.antt =====
-- Properties of the table and of the calls over the steps of a client.
use s2c_rs.Base.{
  ℕ, List, subst, ◌≡◌, refl, Bool, Bool-cases, inl, inr, Option, none, some, Option-cases, Bytes,
  Result, ok, err, ◌==◌,
}
use s2c_rs.Codec.{Codec}
use s2c_rs.Proto.{S2cMessage, S2cError}
use s2c_rs.Net.Error.{ClientError, NetworkError}
use s2c_rs.Net.Error
use s2c_rs.Net.Inflight.{InflightRequests, Slot, waiting, dropped, answered, add}
use s2c_rs.Net.Inflight.Resolution.{Op, adds, discards, responds, fails, clears, step}
use s2c_rs.Net.Client.{
  ClientState, not_connected, connected, ready, closed, running, Call, idle, admitted, registered,
  queued, returned, Client, set_call,
}
use s2c_rs.Net.Client.Calls.{
  refusal, send, register, enqueue, refuse, give_up, settle_call, time_out,
}
use s2c_rs.Net.Client.Loops.{
  check_in, take_message, after_read, disconnect, check_out, wake, write_out,
}
use s2c_rs.Net.Client.Connection.{
  connect_tcp, connect, spawn_drain_in, spawn_drain_out, cancel_tasks, is_handshake, handshaken,
  close,
}
use s2c_rs.Net.Client.System.{
  Step, Reach, start, later, sends, registers, enqueues, refuses, settles, times_out, connects,
  shakes, closes, drains, checks_in, receives, disconnects, checks_out, wakes, writes, drops_reader,
  drops_writer,
}

-- A response that `drain_in` hands on has no error.
abbrev pub HasNoError : Op → Type 0
HasNoError (responds m) = m.error ≡ none
HasNoError (adds id) = Unit
HasNoError (discards id) = Unit
HasNoError (fails e) = Unit
HasNoError clears = Unit

-- A property of the table, and one of a call by the table, which the sections keep.
pub record CallsKeep (I : InflightRequests → Type 0) (J : InflightRequests → Call → Type 0)
    : Type 0 where
  pub of_step : (q : InflightRequests) (o : Op) → HasNoError o → I q → I (step q o)
  pub of_call :
      (q : InflightRequests) (o : Op) (x : Call) → HasNoError o → I q → J q x → J (step q o) x
  pub of_idle : (q : InflightRequests) → J q idle
  pub of_admitted : (q : InflightRequests) (id payload : Bytes) → J q (admitted id payload)
  pub of_registered :
      (q : InflightRequests) (id payload : Bytes)
      → I q
      → J (step q (adds id)) (registered id payload q.next)
  pub of_queued :
      (q : InflightRequests) (id payload : Bytes) (i : ℕ)
      → J q (registered id payload i)
      → J q (queued id i)
  pub of_error : (q : InflightRequests) (id : Bytes) (e : ClientError) → J q (returned id (err e))
  pub of_answer :
      (q : InflightRequests) (id : Bytes) (i : ℕ) (m : S2cMessage)
      → I q
      → J q (queued id i)
      → q.slots i ≡ answered (ok m)
      → J q (returned id (ok m))

module _ (I : InflightRequests → Type 0) (J : InflightRequests → Call → Type 0)
    (keeps : CallsKeep I J) where
  abbrev Kept : InflightRequests → (ℕ → Call) → Type 0
  Kept q calls = I q × ((k : ℕ) → J q (calls k))

  Kept-step :
      (q : InflightRequests) (o : Op) (calls : ℕ → Call)
      → HasNoError o
      → Kept q calls
      → Kept (step q o) calls
  Kept-step q o calls n (v, t) = (keeps.of_step q o n v, λ k. keeps.of_call q o (calls k) n v (t k))

  Kept-set_call :
      (q : InflightRequests) (k : ℕ) (x : Call) (calls : ℕ → Call)
      → J q x
      → Kept q calls
      → Kept q (set_call k x calls)
  Kept-set_call q k x calls h (v, t) =
      (v, λ j. elim (Bool-cases (k == j)) [ inl e ↦ rw e h | inr e ↦ rw e (t j) ])

  abbrev pub Keeps : Client → Type 0
  Keeps c = Kept c.inflight_requests c.calls

  module _ (c : Client) (t : Keeps c) where
    send-Kept : (k : ℕ) (id payload : Bytes) → Keeps (send k id payload c)
    unfolding send
    send-Kept k id payload = elim (Option-cases (refusal c.client_state)) [
      | inl e ↦
          rw (e, send)
            (Kept-set_call c.inflight_requests k (admitted id payload) c.calls
              (keeps.of_admitted c.inflight_requests id payload) t)
      | inr (x, e) ↦
          rw (e, send)
            (Kept-set_call c.inflight_requests k (returned id (err x)) c.calls
              (keeps.of_error c.inflight_requests id x) t)
    ]

    register-Kept : (k : ℕ) (id payload : Bytes) → Keeps (register k id payload c)
    unfolding register step add
    register-Kept k id payload =
        let q = c.inflight_requests in
        Kept-set_call (step q (adds id)) k (registered id payload q.next) c.calls
          (keeps.of_registered q id payload t.0) (Kept-step q (adds id) c.calls tt t)

    give_up-Kept : (k : ℕ) (id : Bytes) (e : ClientError) → Keeps (give_up k id e c)
    unfolding give_up step
    give_up-Kept k id e =
        let q = c.inflight_requests in
        Kept-set_call (step q (discards id)) k (returned id (err e)) c.calls
          (keeps.of_error (step q (discards id)) id e) (Kept-step q (discards id) c.calls tt t)

    settle-Kept :
        (k : ℕ) (id : Bytes) (x : Slot)
        → ((m : S2cMessage) → x ≡ answered (ok m) → J c.inflight_requests (returned id (ok m)))
        → Keeps (settle_call k id x c)
    unfolding settle_call
    settle-Kept k id waiting h = t
    settle-Kept k id dropped h = give_up-Kept k id Error.not_connected
    settle-Kept k id (answered (ok m)) h =
        Kept-set_call c.inflight_requests k (returned id (ok m)) c.calls (h m refl) t
    settle-Kept k id (answered (err e)) h = give_up-Kept k id e

    take_message-Kept :
        (e : Option S2cError) (m : S2cMessage) → m.error ≡ e → Keeps (take_message e m c)
    unfolding take_message step
    take_message-Kept none m n = Kept-step c.inflight_requests (responds m) c.calls n t
    take_message-Kept (some e) m n = t

    after_read-Kept : (r : Result S2cMessage NetworkError) → Keeps (after_read r c)
    unfolding after_read step
    after_read-Kept (ok m) = elim (Bool-cases (running c.client_state)) [
      | inl e ↦ rw e (take_message-Kept m.error m refl)
      | inr e ↦ rw e t
    ]
    after_read-Kept (err e) =
        Kept-step c.inflight_requests (fails (Error.ClientError.io e)) c.calls tt t

    write_out-Kept :
        (payload : Bytes) (rest : List Bytes) (failed : Option ℕ)
        → Keeps (write_out payload rest failed c)
    unfolding write_out
    write_out-Kept payload rest failed = elim (Bool-cases (running c.client_state)) [
      | inl e ↦ elim (Option-cases failed) [ inl w ↦ rw (e, w) t | inr (n, w) ↦ rw (e, w) t ]
      | inr e ↦ rw e t
    ]

    cancel_tasks-Kept : (s : ClientState) → Keeps (cancel_tasks (record c { client_state = s }))
    unfolding cancel_tasks
    cancel_tasks-Kept s = elim (Bool-cases c.tracker_closed) [ inl e ↦ rw e t | inr e ↦ rw e t ]

    handshaken-Kept : (r : Result S2cMessage ClientError) → Keeps (handshaken r c)
    unfolding handshaken
    handshaken-Kept (ok m) = elim (Bool-cases (is_handshake m.body)) [
      | inl e ↦ rw e t
      | inr e ↦ rw e t
    ]
    handshaken-Kept (err e) = cancel_tasks-Kept not_connected

    close-Kept : Keeps (close c)
    unfolding close
    close-Kept =
        elim c.client_state
          as (λ s. Keeps (elim s [
            | closed ↦ c
            | not_connected ↦ cancel_tasks (record c { client_state = closed })
            | connected ↦ cancel_tasks (record c { client_state = closed })
            | ready ↦ cancel_tasks (record c { client_state = closed })
          ])) [
            | closed ↦ t
            | not_connected ↦ cancel_tasks-Kept closed
            | connected ↦ cancel_tasks-Kept closed
            | ready ↦ cancel_tasks-Kept closed
          ]

    module _ (runs : Bool → Bool) (C : Codec S2cMessage) where
      connect_tcp-Kept :
          (k : ℕ) (id : Bytes) (r : Result (Unit {0}) ClientError)
          → Keeps (connect_tcp runs C k id r c)
      unfolding connect_tcp spawn_drain_in spawn_drain_out
      connect_tcp-Kept k id (ok u) =
          Kept-set_call c.inflight_requests k _ c.calls (keeps.of_admitted c.inflight_requests id _)
            t
      connect_tcp-Kept k id (err e) = t

      connect-Kept :
          (k : ℕ) (id : Bytes) (r : Result (Unit {0}) ClientError) → Keeps (connect runs C k id r c)
      unfolding connect
      connect-Kept k id r =
          elim c.client_state
            as (λ s. Keeps (elim s [
              | not_connected ↦ connect_tcp runs C k id r c
              | connected ↦ c
              | ready ↦ c
              | closed ↦ c
            ])) [ not_connected ↦ connect_tcp-Kept k id r | connected ↦ t | ready ↦ t | closed ↦ t ]

  module _ (runs : Bool → Bool) (C : Codec S2cMessage) where
    Step-Kept : {c d : Client} → Step runs C c d → Keeps c → Keeps d
    unfolding check_in check_out wake disconnect enqueue refuse time_out
    Step-Kept {c} (sends k id payload a b) t = send-Kept c t k id payload
    Step-Kept {c} (registers k id payload a) t = register-Kept c t k id payload
    Step-Kept {c} (enqueues k id payload i a b) t =
        Kept-set_call c.inflight_requests k (queued id i) c.calls
          (keeps.of_queued c.inflight_requests id payload i
            (subst (J c.inflight_requests) a (t.1 k)))
          t
    Step-Kept {c} (refuses k id payload i a) t =
        Kept-set_call c.inflight_requests k _ c.calls (keeps.of_error c.inflight_requests id _) t
    Step-Kept {c} (settles k id i a) t =
        let q = c.inflight_requests in
        settle-Kept c t k id (q.slots i)
          (λ m h. keeps.of_answer q id i m t.0 (subst (J q) a (t.1 k)) h)
    Step-Kept {c} (times_out k id i a) t = give_up-Kept c t k id Error.timeout
    Step-Kept {c} (connects k id r a b e) t = connect-Kept c t runs C k id r
    Step-Kept {c} (shakes k id r a b) t = handshaken-Kept c t r
    Step-Kept {c} (closes a) t = close-Kept c t
    Step-Kept (drains a b) t = t
    Step-Kept (checks_in a) t = t
    Step-Kept {c} (receives r a) t = after_read-Kept c t r
    Step-Kept (disconnects a) t = t
    Step-Kept (checks_out a) t = t
    Step-Kept (wakes a) t = t
    Step-Kept {c} (writes payload rest failed a b) t = write_out-Kept c t payload rest failed
    Step-Kept (drops_reader a) t = t
    Step-Kept (drops_writer a) t = t

    pub Reach-Kept : {c d : Client} → Reach runs C c d → Keeps c → Keeps d
    Reach-Kept start t = t
    Reach-Kept (later r s) t = Step-Kept s (Reach-Kept r t)
