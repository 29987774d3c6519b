-- ===== src/Net/Client/Silence.antt =====
-- A client whose tasks have ended while it still counts as connected.
use s2c_rs.Base.{
  ℕ, ◌≡◌, refl, ◌≢◌, Bool, true, false, inl, inr, Option-cases, List, Bytes, Result, ok, err,
  if◌then◌else◌,
}
use s2c_rs.Codec.{Codec}
use s2c_rs.Proto.{S2cMessage}
use s2c_rs.Net.Error.{ClientError}
use s2c_rs.Net.Inflight.{InflightRequests, Slot, waiting, dropped, answered}
use s2c_rs.Net.Client.{
  ClientState, not_connected, connected, ready, closed, Call, admitted, returned, Lock, free,
  handshaking, draining, Reader, Writer, Client, set_call,
}
use s2c_rs.Net.Client.Calls.{
  refusal, send, register, enqueue, refuse, give_up, settle_call, time_out,
}
use s2c_rs.Net.Client.Connection.{connect, cancel_tasks, close}
use s2c_rs.Net.Client.System.{
  Ended, Step, Reach, start, later, sends, registers, enqueues, refuses, settles, times_out,
  connects, shakes, closes, drains, checks_in, receives, disconnects, checks_out, wakes, writes,
  drops_reader, drops_writer,
}

-- No task runs, `connect` would do nothing, and nothing more was written.
pub record IsSilent (w : Bytes) (c : Client) : Type 0 where
  pub reader : c.reader ≡ Reader.gone
  pub writer : c.writer ≡ Writer.gone
  pub state : c.client_state ≢ not_connected
  pub lock : (k : ℕ) → c.rw_lock ≢ handshaking k
  pub written : c.written ≡ w

module _ (w : Bytes) (c : Client) (d : IsSilent w c) where
  call_section :
      (q : InflightRequests) (k : ℕ) (x : Call) (receiver : List Bytes)
      → IsSilent w
          (record c { inflight_requests = q; calls = set_call k x c.calls; receiver = receiver })
  call_section q k x receiver = record {
    reader = d.reader;
    writer = d.writer;
    state = d.state;
    lock = d.lock;
    written = d.written;
  }

  send-IsSilent : (k : ℕ) (id payload : Bytes) → IsSilent w (send k id payload c)
  unfolding send
  send-IsSilent k id payload = elim (Option-cases (refusal c.client_state)) [
    | inl e ↦ rw (e, send) (call_section c.inflight_requests k (admitted id payload) c.receiver)
    | inr (x, e) ↦
        rw (e, send) (call_section c.inflight_requests k (returned id (err x)) c.receiver)
  ]

  settle-IsSilent : (k : ℕ) (id : Bytes) (x : Slot) → IsSilent w (settle_call k id x c)
  unfolding settle_call give_up
  settle-IsSilent k id waiting = d
  settle-IsSilent k id dropped = call_section _ k _ c.receiver
  settle-IsSilent k id (answered (err e)) = call_section _ k _ c.receiver
  settle-IsSilent k id (answered (ok m)) = call_section _ k _ c.receiver

  lock_section :
      (s : ClientState) (lock : Lock) (tracker token : Bool)
      → s ≢ not_connected
      → ((k : ℕ) → lock ≢ handshaking k)
      → IsSilent w (record c {
        client_state = s;
        rw_lock = lock;
        tracker_closed = tracker;
        cancelled = token;
      })
  lock_section s lock tracker token h l = record {
    reader = d.reader;
    writer = d.writer;
    state = h;
    lock = l;
    written = d.written;
  }

  close-IsSilent : IsSilent w (close c)
  unfolding close cancel_tasks
  close-IsSilent =
      elim c.client_state
        as (λ s. IsSilent w (elim s [
          | closed ↦ c
          | not_connected ↦ cancel_tasks (record c { client_state = closed })
          | connected ↦ cancel_tasks (record c { client_state = closed })
          | ready ↦ cancel_tasks (record c { client_state = closed })
        ])) [ closed ↦ d | not_connected ↦ cancelled | connected ↦ cancelled | ready ↦ cancelled ]
    where
      cancelled : IsSilent w (cancel_tasks (record c { client_state = closed }))
      cancelled =
          elim c.tracker_closed
            as (λ b. IsSilent w (
              if b then record c { client_state = closed; rw_lock = free } else record c {
                client_state = closed;
                tracker_closed = true;
                cancelled = true;
                rw_lock = draining;
              })) [
                | true ↦ lock_section closed free c.tracker_closed c.cancelled (λ h. cc) (λ k f. cc)
                | false ↦ lock_section closed draining true true (λ h. cc) (λ k f. cc)
              ]

  connect-IsSilent :
      (runs : Bool → Bool) (C : Codec S2cMessage) (k : ℕ) (id : Bytes)
      (r : Result (Unit {0}) ClientError)
      → IsSilent w (connect runs C k id r c)
  unfolding connect
  connect-IsSilent runs C k id r = go c.client_state refl
    where
      go : (s : ClientState) → c.client_state ≡ s → IsSilent w (connect runs C k id r c)
      go not_connected e = absurd (d.state e)
      go connected e = rw (e, connect) d
      go ready e = rw (e, connect) d
      go closed e = rw (e, connect) d

module _ (runs : Bool → Bool) (C : Codec S2cMessage) where
  Step-IsSilent : {w : Bytes} {c d : Client} → Step runs C c d → IsSilent w c → IsSilent w d
  unfolding register enqueue refuse time_out give_up
  Step-IsSilent {w} {c} (sends k id payload a b) t = send-IsSilent w c t k id payload
  Step-IsSilent {w} {c} (registers k id payload a) t = call_section w c t _ k _ c.receiver
  Step-IsSilent {w} {c} (enqueues k id payload i a b) t =
      call_section w c t c.inflight_requests k _ _
  Step-IsSilent {w} {c} (refuses k id payload i a) t =
      call_section w c t c.inflight_requests k _ c.receiver
  Step-IsSilent {w} {c} (settles k id i a) t = settle-IsSilent w c t k id _
  Step-IsSilent {w} {c} (times_out k id i a) t = call_section w c t _ k _ c.receiver
  Step-IsSilent {w} {c} (connects k id r a b e) t = connect-IsSilent w c t runs C k id r
  Step-IsSilent (shakes k id r a b) t = absurd (t.lock k a)
  Step-IsSilent {w} {c} (closes a) t = close-IsSilent w c t
  Step-IsSilent {w} {c} (drains a b) t =
      lock_section w c t c.client_state free c.tracker_closed c.cancelled t.state (λ k h. cc)
  Step-IsSilent (checks_in a) t = absurd (cc (t.reader))
  Step-IsSilent (receives r a) t = absurd (cc (t.reader))
  Step-IsSilent (disconnects a) t = absurd (cc (t.reader))
  Step-IsSilent (checks_out a) t = absurd (cc (t.writer))
  Step-IsSilent (wakes a) t = absurd (cc (t.writer))
  Step-IsSilent (writes payload rest failed a b) t = absurd (cc (t.writer))
  Step-IsSilent (drops_reader a) t = record {
    reader = refl;
    writer = t.writer;
    state = t.state;
    lock = t.lock;
    written = t.written;
  }
  Step-IsSilent (drops_writer a) t = record {
    reader = t.reader;
    writer = refl;
    state = t.state;
    lock = t.lock;
    written = t.written;
  }

  Reach-IsSilent : {w : Bytes} {c d : Client} → Reach runs C c d → IsSilent w c → IsSilent w d
  Reach-IsSilent start t = t
  Reach-IsSilent (later r s) t = Step-IsSilent s (Reach-IsSilent r t)

  -- A client that is ready but whose tasks have ended, with its lock free, has no running task,
  -- is not `NotConnected` and writes nothing in any state that it reaches from there.
  pub ready_stays_silent :
      (c d : Client)
      → c.client_state ≡ ready
      → c.rw_lock ≡ free
      → Ended c
      → Reach runs C c d
      → Ended d × (d.client_state ≢ not_connected) × (d.written ≡ c.written)
  ready_stays_silent c d state lock ended r =
      let s = Reach-IsSilent {w = c.written} r (record {
        reader = ended.0;
        writer = ended.1;
        state = λ h. cc;
        lock = λ k h. cc;
        written = refl;
      }) in
      ((s.reader, s.writer), s.state, s.written)
