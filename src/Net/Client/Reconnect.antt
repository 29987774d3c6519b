-- ===== src/Net/Client/Reconnect.antt =====
-- A client whose token was cancelled.
pub mod Late
pub mod Dead
use s2c_rs.Base.{
  [], ◌∷◌, ◌++◌, ℕ, ◌≤◌, ◌<◌, ◌≡◌, refl, sym, subst, ◌∙◌, ◌≢◌, Bool, true, false, inl, inr,
  Option-cases, List, Bytes, Result, ok, err, ◌==◌, if◌then◌else◌, arith, ℕ_discrete,
}
use s2c_rs.Codec.{Codec}
use s2c_rs.Proto.{S2cMessage}
use s2c_rs.Net.Error.{ClientError}
use s2c_rs.Net.Error
use s2c_rs.Net.Inflight.{
  InflightRequests, Slot, waiting, dropped, answered, add, discard, lookup, settle,
}
use s2c_rs.Net.Inflight.Channels.{settle_cases}
use s2c_rs.Net.Client.{
  ClientState, not_connected, connected, ready, closed, Call, idle, admitted, registered, queued,
  returned, Lock, free, handshaking, draining, Reader, Writer, Client, set_call,
}
use s2c_rs.Net.Client.Calls.{
  refusal, send, register, enqueue, refuse, give_up, settle_call, time_out,
}
use s2c_rs.Net.Client.Connection.{
  handshake_message, connect_tcp, connect, cancel_tasks, handshaken, close,
}
use s2c_rs.Net.Client.System.{
  Ended, Step, Reach, start, later, sends, registers, enqueues, refuses, settles, times_out,
  connects, shakes, closes, drains, checks_in, receives, disconnects, checks_out, wakes, writes,
  drops_reader, drops_writer,
}
use s2c_rs.Net.Client.Runs.{Sending}
use s2c_rs.Net.Client.Reconnect.Late.{IsDead, IsLate}
use s2c_rs.Net.Client.Reconnect.Dead.{
  give_up-IsDead, send-IsDead, send-IsLate, register-IsDead, enqueue-IsDead, refuse-IsDead,
  settle-IsDead, handshaken-IsDead, close-IsDead, connect-IsDead, freed-IsDead,
}

module _ (runs : Bool → Bool) (C : Codec S2cMessage) (stay : runs true ≡ false) where
  Step-IsDead :
      {n : ℕ} {w : Bytes} {W : ℕ → Type 0} {c d : Client}
      → Step runs C c d
      → IsDead n w W c
      → IsDead n w W d
  unfolding time_out
  Step-IsDead {n} {w} {W} {c} (sends k id payload a b) t = send-IsDead n w W c t k id payload a
  Step-IsDead {n} {w} {W} {c} (registers k id payload a) t = register-IsDead n w W c t k id payload
  Step-IsDead {n} {w} {W} {c} (enqueues k id payload i a b) t =
      enqueue-IsDead n w W c t k id payload i a
  Step-IsDead {n} {w} {W} {c} (refuses k id payload i a) t = refuse-IsDead n w W c t k id
  Step-IsDead {n} {w} {W} {c} (settles k id i a) t =
      settle-IsDead n w W c t k id i (c.inflight_requests.slots i) a refl
  Step-IsDead {n} {w} {W} {c} (times_out k id i a) t = give_up-IsDead n w W c t k id Error.timeout
  Step-IsDead {n} {w} {W} {c} (connects k id r a b e) t =
      connect-IsDead n w W c t runs C stay k id r
  Step-IsDead {n} {w} {W} {c} (shakes k id r a b) t = handshaken-IsDead n w W c t k id r a b
  Step-IsDead {n} {w} {W} {c} (closes a) t = close-IsDead n w W c t
  Step-IsDead {n} {w} {W} {c} (drains a b) t = freed-IsDead n w W c t
  Step-IsDead (checks_in a) t = absurd (cc (t.reader))
  Step-IsDead (receives r a) t = absurd (cc (t.reader))
  Step-IsDead (disconnects a) t = absurd (cc (t.reader))
  Step-IsDead (checks_out a) t = absurd (cc (t.writer))
  Step-IsDead (wakes a) t = absurd (cc (t.writer))
  Step-IsDead (writes payload rest failed a b) t = absurd (cc (t.writer))
  Step-IsDead {n} {w} {W} {c} (drops_reader a) t =
      let e : c ≡ record c { reader = Reader.gone } = rw (← t.reader) refl in
      subst (IsDead n w W) e t
  Step-IsDead {n} {w} {W} {c} (drops_writer a) t =
      let e : c ≡ record c { writer = Writer.gone } = rw (← t.writer) refl in
      subst (IsDead n w W) e t

  pub Reach-IsDead :
      {n : ℕ} {w : Bytes} {W : ℕ → Type 0} {c d : Client}
      → Reach runs C c d
      → IsDead n w W c
      → IsDead n w W d
  Reach-IsDead start t = t
  Reach-IsDead (later r s) t = Step-IsDead s (Reach-IsDead r t)

  -- A client as it is lost: no call is on its way that could make it ready.
  pub lost-IsDead :
      (c : Client)
      → c.cancelled ≡ true
      → c.client_state ≡ not_connected
      → c.rw_lock ≡ free
      → Ended c
      → IsDead c.inflight_requests.next c.written (λ k. ⊥) c
  lost-IsDead c cancelled state lock ended = record {
    cancelled = cancelled;
    reader = ended.0;
    writer = ended.1;
    state = λ h. cc;
    quiet = (omega arith, λ i m a b. absurd (omega arith));
    late = λ k h. elim h [ inl x ↦ cc | inr x ↦ absurd x ];
    written = refl;
  }

  -- A call of `send` on such a client returns no message.
  pub Sending-IsDead :
      {n : ℕ} {w : Bytes} {c d : Client} {id payload : Bytes} {m : S2cMessage}
      → IsDead n w (λ k. ⊥) c
      → Sending runs C id payload c (ok m) d
      → ⊥
  Sending-IsDead {n} {w} {d = d} {id} {payload} {m} t x =
      let b = Reach-IsDead x.waits t in
      let s = send-IsDead n w (λ k. ⊥) x.before b x.call id payload x.fresh in
      let watched : IsDead n w (λ j. x.call ≡ j) (send x.call id payload x.before) = record {
        cancelled = s.cancelled;
        reader = s.reader;
        writer = s.writer;
        state = s.state;
        quiet = s.quiet;
        late = λ j h. elim h [
          | inl y ↦ s.late j (inl y)
          | inr e ↦
              subst
                (λ i.
                  IsLate n (send x.call id payload x.before).inflight_requests
                    ((send x.call id payload x.before).calls i))
                e (send-IsLate n x.call id payload x.before)
        ];
        written = s.written;
      } in
      let after = Reach-IsDead x.goes watched in
      subst (IsLate n d.inflight_requests) x.answer (after.late x.call (inr refl))

  -- If a task that is spawned under a cancelled token does not run, a client that is not
  -- connected, whose token is cancelled, whose lock is free and whose tasks have ended is never
  -- ready again and writes nothing more, whatever calls of `connect` and `send` follow.
  pub never_ready_again :
      (c d : Client)
      → c.cancelled ≡ true
      → c.client_state ≡ not_connected
      → c.rw_lock ≡ free
      → Ended c
      → Reach runs C c d
      → (d.client_state ≢ ready) × (d.written ≡ c.written)
  never_ready_again c d cancelled state lock ended r =
      let dead = Reach-IsDead r (lost-IsDead c cancelled state lock ended) in
      (dead.state, dead.written)
