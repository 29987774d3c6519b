-- ===== src/Net/Client/Reconnect/Dead.antt =====
-- The sections of the calls and of the lock's holder on such a client.
use s2c_rs.Base.{
  [], ◌∷◌, ◌++◌, ℕ, ◌≤◌, ◌≡◌, refl, sym, subst, ◌≢◌, Bool, true, false, inl, inr, Option-cases,
  List, Bytes, Result, ok, err, ◌==◌, if◌then◌else◌, arith,
}
use s2c_rs.Codec.{Codec}
use s2c_rs.Proto.{S2cMessage}
use s2c_rs.Net.Error.{ClientError}
use s2c_rs.Net.Error
use s2c_rs.Net.Inflight.{InflightRequests, Slot, waiting, dropped, answered, add, discard}
use s2c_rs.Net.Client.{
  ClientState, not_connected, connected, ready, closed, Call, idle, admitted, registered, queued,
  returned, Lock, free, handshaking, draining, Client, set_call,
}
use s2c_rs.Net.Client.Calls.{refusal, send, register, enqueue, refuse, give_up, settle_call}
use s2c_rs.Net.Client.Connection.{
  handshake_message, connect_tcp, connect, spawn_drain_in, spawn_drain_out, cancel_tasks,
  handshaken, close,
}
use s2c_rs.Net.Client.Reconnect.Late.{
  IsDead, IsLate, IsLate-next, IsLate-set_call, IsQuiet, add-IsQuiet, discard-IsQuiet,
}

-- A call is late from its start on.
pub send-IsLate :
    (n k : ℕ) (id payload : Bytes) (c : Client)
    → IsLate n (send k id payload c).inflight_requests ((send k id payload c).calls k)
unfolding send
send-IsLate n k id payload c =
    let same : (k == k) ≡ true = ground arith in
    elim (Option-cases (refusal c.client_state)) [
      | inl e ↦ rw (e, send, same) tt
      | inr (x, e) ↦ rw (e, send, same) tt
    ]

module _ (n : ℕ) (w : Bytes) (W : ℕ → Type 0) (c : Client) (d : IsDead n w W c) where
  -- A section of a call: it changes the table and the call only.
  call_section :
      (q : InflightRequests) (k : ℕ) (x : Call) (receiver : List Bytes)
      → IsQuiet n q
      → c.inflight_requests.next ≤ q.next
      → (IsLate n c.inflight_requests (c.calls k) → IsLate n q x)
      → IsDead n w W
          (record c { inflight_requests = q; calls = set_call k x c.calls; receiver = receiver })
  call_section q k x receiver quiet more l = record {
    cancelled = d.cancelled;
    reader = d.reader;
    writer = d.writer;
    state = d.state;
    quiet = quiet;
    late = λ j h.
        IsLate-set_call n q k j x c.calls
          (λ e. l (subst (λ i. IsLate n c.inflight_requests (c.calls i)) (sym e) (d.late j h)))
          (IsLate-next n c.inflight_requests q (c.calls j) more (d.late j h));
    written = d.written;
  }

  pub give_up-IsDead : (k : ℕ) (id : Bytes) (e : ClientError) → IsDead n w W (give_up k id e c)
  unfolding give_up discard
  give_up-IsDead k id e =
      call_section (discard id c.inflight_requests) k (returned id (err e)) c.receiver
        (discard-IsQuiet c.inflight_requests n id d.quiet) (omega arith) (λ l. tt)

  pub send-IsDead :
      (k : ℕ) (id payload : Bytes) → c.calls k ≡ idle → IsDead n w W (send k id payload c)
  unfolding send
  send-IsDead k id payload a = elim (Option-cases (refusal c.client_state)) [
    | inl e ↦
        rw (e, send)
          (call_section c.inflight_requests k (admitted id payload) c.receiver d.quiet (omega arith)
            (λ l. tt))
    | inr (x, e) ↦
        rw (e, send)
          (call_section c.inflight_requests k (returned id (err x)) c.receiver d.quiet (omega arith)
            (λ l. tt))
  ]

  pub register-IsDead : (k : ℕ) (id payload : Bytes) → IsDead n w W (register k id payload c)
  unfolding register add
  register-IsDead k id payload =
      let q = c.inflight_requests in
      call_section (add id q).1 k (registered id payload q.next) c.receiver
        (add-IsQuiet q n id d.quiet) (omega arith) (λ l. (d.quiet.0, omega arith))

  pub enqueue-IsDead :
      (k : ℕ) (id payload : Bytes) (i : ℕ)
      → c.calls k ≡ registered id payload i
      → IsDead n w W (enqueue k id payload i c)
  unfolding enqueue
  enqueue-IsDead k id payload i a =
      call_section c.inflight_requests k (queued id i) (c.receiver ++ (payload ∷ [])) d.quiet
        (omega arith) (λ l. subst (IsLate n c.inflight_requests) a l)

  pub refuse-IsDead : (k : ℕ) (id : Bytes) → IsDead n w W (refuse k id c)
  unfolding refuse
  refuse-IsDead k id =
      call_section c.inflight_requests k (returned id (err Error.not_connected)) c.receiver d.quiet
        (omega arith) (λ l. tt)

  pub settle-IsDead :
      (k : ℕ) (id : Bytes) (i : ℕ) (x : Slot)
      → c.calls k ≡ queued id i
      → c.inflight_requests.slots i ≡ x
      → IsDead n w W (settle_call k id x c)
  unfolding settle_call
  settle-IsDead k id i waiting a e = d
  settle-IsDead k id i dropped a e = give_up-IsDead k id Error.not_connected
  settle-IsDead k id i (answered (err f)) a e = give_up-IsDead k id f
  settle-IsDead k id i (answered (ok m)) a e =
      call_section c.inflight_requests k (returned id (ok m)) c.receiver d.quiet (omega arith) (λ l.
        let (from, below) = subst (IsLate n c.inflight_requests) a l in d.quiet.1 i m from below e)

  -- A method of the lock's holder: it does not make the client ready, and leaves no handshake.
  lock_section :
      (s : ClientState) (lock : Lock) (tracker token : Bool)
      → token ≡ true
      → s ≢ ready
      → ((k : ℕ) → lock ≢ handshaking k)
      → IsDead n w W (record c {
        client_state = s;
        rw_lock = lock;
        tracker_closed = tracker;
        cancelled = token;
      })
  lock_section s lock tracker token b h l = record {
    cancelled = b;
    reader = d.reader;
    writer = d.writer;
    state = h;
    quiet = d.quiet;
    late = λ k e. elim e [ inl x ↦ absurd (l k x) | inr x ↦ d.late k (inr x) ];
    written = d.written;
  }

  cancel_tasks-IsDead :
      (s : ClientState) → s ≢ ready → IsDead n w W (cancel_tasks (record c { client_state = s }))
  unfolding cancel_tasks
  cancel_tasks-IsDead s h =
      elim c.tracker_closed
        as (λ b. IsDead n w W (
          if b then record c { client_state = s; rw_lock = free } else record c {
            client_state = s;
            tracker_closed = true;
            cancelled = true;
            rw_lock = draining;
          })) [
            | true ↦ lock_section s free c.tracker_closed c.cancelled d.cancelled h (λ k f. cc)
            | false ↦ lock_section s draining true true refl h (λ k f. cc)
          ]

  pub handshaken-IsDead :
      (k : ℕ) (id : Bytes) (r : Result S2cMessage ClientError)
      → c.rw_lock ≡ handshaking k
      → c.calls k ≡ returned id r
      → IsDead n w W (handshaken r c)
  unfolding handshaken
  handshaken-IsDead k id (ok m) a b =
      absurd (subst (IsLate n c.inflight_requests) b (d.late k (inl a)))
  handshaken-IsDead k id (err e) a b = cancel_tasks-IsDead not_connected (λ h. cc)

  pub close-IsDead : IsDead n w W (close c)
  unfolding close
  close-IsDead =
      elim c.client_state
        as (λ s. IsDead n w W (elim s [
          | closed ↦ c
          | not_connected ↦ cancel_tasks (record c { client_state = closed })
          | connected ↦ cancel_tasks (record c { client_state = closed })
          | ready ↦ cancel_tasks (record c { client_state = closed })
        ])) [
          | closed ↦ d
          | not_connected ↦ cancel_tasks-IsDead closed (λ h. cc)
          | connected ↦ cancel_tasks-IsDead closed (λ h. cc)
          | ready ↦ cancel_tasks-IsDead closed (λ h. cc)
        ]

  module _ (runs : Bool → Bool) (C : Codec S2cMessage) (stay : runs true ≡ false) where
    connect_tcp-IsDead :
        (k : ℕ) (id : Bytes) (r : Result (Unit {0}) ClientError)
        → IsDead n w W (connect_tcp runs C k id r c)
    unfolding connect_tcp spawn_drain_in spawn_drain_out
    connect_tcp-IsDead k id (err e) = record {
      cancelled = d.cancelled;
      reader = d.reader;
      writer = d.writer;
      state = d.state;
      quiet = d.quiet;
      late = d.late;
      written = d.written;
    }
    connect_tcp-IsDead k id (ok u) = record {
      cancelled = d.cancelled;
      reader = ground (arith, d.cancelled, stay);
      writer = ground (arith, d.cancelled, stay);
      state = λ h. cc;
      quiet = d.quiet;
      late = λ j h. elim h [
        | inl x ↦
            let y : (k == j) ≡ true = ground arith in
            subst
              (λ b.
                IsLate n c.inflight_requests (
                  if b then admitted id (C.encode (handshake_message c.context id)) else c.calls j))
              (sym y) tt
        | inr x ↦ IsLate-set_call n c.inflight_requests k j _ c.calls (λ e. tt) (d.late j (inr x))
      ];
      written = d.written;
    }

    pub connect-IsDead :
        (k : ℕ) (id : Bytes) (r : Result (Unit {0}) ClientError)
        → IsDead n w W (connect runs C k id r c)
    unfolding connect
    connect-IsDead k id r =
        elim c.client_state
          as (λ s. IsDead n w W (elim s [
            | not_connected ↦ connect_tcp runs C k id r c
            | connected ↦ c
            | ready ↦ c
            | closed ↦ c
          ])) [ not_connected ↦ connect_tcp-IsDead k id r | connected ↦ d | ready ↦ d | closed ↦ d ]

  pub freed-IsDead : IsDead n w W (record c { rw_lock = free })
  freed-IsDead = record {
    cancelled = d.cancelled;
    reader = d.reader;
    writer = d.writer;
    state = d.state;
    quiet = d.quiet;
    late = λ k h. elim h [ inl x ↦ cc | inr x ↦ d.late k (inr x) ];
    written = d.written;
  }
