-- ===== src/Net/Client/Quiet.antt =====
-- The first handshake of a client, up to its end, and the writer that is never flushed.
pub mod Phases
pub mod Unlocked
pub mod Sections
use s2c_rs.Base.{
  ℕ, ◌+◌, length-take, ◌≤◌, ◌≡◌, refl, sym, ap, subst, ◌∙◌, ◌≢◌, ◌⊎◌, inl, inr, Bool, Bool-cases,
  Option, none, some, Option-cases, List, [], ◌∷◌, ◌++◌, append-nil, Bytes, Result, ok, err, length,
  take, arith, ℕ_discrete, ◌==◌, if◌then◌else◌, take-append,
}
use s2c_rs.Codec.{Codec}
use s2c_rs.Config.{S2cOptions}
use s2c_rs.Context.{Context}
use s2c_rs.Proto.{S2cMessage}
use s2c_rs.Net.Error.{ClientError, NetworkError}
use s2c_rs.Net.Framing.{frame}
use s2c_rs.Net.Framing.Cut.{length-frame}
use s2c_rs.Net.Inflight.{Slot, waiting, dropped, answered, add}
use s2c_rs.Net.Client.{
  ClientState, not_connected, connected, ready, closed, running, Call, idle, admitted, registered,
  queued, returned, Lock, free, handshaking, draining, Writer, Client, set_call,
}
use s2c_rs.Net.Client
use s2c_rs.Net.Client.Calls.{
  refusal, send, register, enqueue, refuse, give_up, settle_call, time_out,
}
use s2c_rs.Net.Client.Loops.{
  check_in, take_message, after_read, disconnect, check_out, wake, write_out,
}
use s2c_rs.Net.Client.Connection.{
  connect, connect_tcp, spawn_drain_in, spawn_drain_out, cancel_tasks, is_handshake, handshaken,
  handshake_message, close,
}
use s2c_rs.Net.Client.System.{
  Step, Reach, start, later, sends, registers, enqueues, refuses, settles, times_out, connects,
  shakes, closes, drains, checks_in, receives, disconnects, checks_out, wakes, writes, drops_reader,
  drops_writer,
}
use s2c_rs.Net.Client.Quiet.Phases.{asks, knows, queues, wrote, during, past, IsQuiet}
use s2c_rs.Net.Client.Quiet.Unlocked.{send-Quiet, close-Quiet, connect-Quiet}
use s2c_rs.Net.Client.Quiet.Sections.{
  give_up-Quiet, settle-Quiet, register-Quiet, enqueue-Quiet, refuse-Quiet, handshaken-Quiet,
  after_read-Quiet, write_out-Quiet,
}

module _ (k : ℕ) (p : Bytes) where
  module _ (runs : Bool → Bool) (C : Codec S2cMessage) where
    Step-Quiet : {c d : Client} → Step runs C c d → IsQuiet k p c → IsQuiet k p d
    unfolding time_out check_in disconnect check_out wake
    Step-Quiet {c} (sends j id payload a f) q = send-Quiet k p c f j id payload q
    Step-Quiet {c} (registers j id payload a) q = register-Quiet k p c q j id payload a
    Step-Quiet {c} (enqueues j id payload i a b) q = enqueue-Quiet k p c q j id payload i a
    Step-Quiet {c} (refuses j id payload i a) q = refuse-Quiet k p c q j id payload i a
    Step-Quiet {c} (settles j id i a) q =
        settle-Quiet k p c q j id i (c.inflight_requests.slots i) a
    Step-Quiet {c} (times_out j id i a) q = give_up-Quiet k p c q j id i _ a
    Step-Quiet {c} (connects j id r a f e) q = connect-Quiet k p c f runs C j id r a q
    Step-Quiet {c} (shakes j id r h a) q = handshaken-Quiet k p c q j id r h a
    Step-Quiet {c} (closes f) q = close-Quiet k p c f q
    Step-Quiet (drains a b) (past h l) = past (λ x. cc) l
    Step-Quiet (drains a b) (during h o s) = absurd cc
    Step-Quiet (checks_in a) q = q
    Step-Quiet {c} (receives r a) q = after_read-Quiet k p c q r
    Step-Quiet (disconnects a) q = q
    Step-Quiet (checks_out a) q = q
    Step-Quiet (wakes a) q = q
    Step-Quiet {c} (writes payload rest failed a b) q =
        write_out-Quiet k p c q payload rest failed b
    Step-Quiet (drops_reader a) q = q
    Step-Quiet (drops_writer a) q = q

    Reach-Quiet : {c d : Client} → Reach runs C c d → IsQuiet k p c → IsQuiet k p d
    Reach-Quiet start q = q
    Reach-Quiet (later r s) q = Step-Quiet s (Reach-Quiet r q)

-- Up to then only a beginning of the frame of the handshake was handed to the writer.
handed-Quiet :
    (k : ℕ) (p : Bytes) (c : Client)
    → c.rw_lock ≡ handshaking k
    → IsQuiet k p c
    → (n : ℕ) × (c.stream ≡ take n (frame p))
handed-Quiet k p c h (past x y) = absurd (x h)
handed-Quiet k p c h (during x o (asks id y r s)) = (0, s)
handed-Quiet k p c h (during x o (knows id i y r s)) = (0, s)
handed-Quiet k p c h (during x o (queues g r s)) = (0, s)
handed-Quiet k p c h (during x o (wrote g r n s)) = (n, s)

-- A `BufWriter` that is not flushed: what it has passed on of what it was handed. It holds what
-- fits.
pub record BufWriter : Type 1 where
  pub capacity : ℕ
  pub Passes : Bytes → Bytes → Type 0
  pub holds :
      (handed passed : Bytes) → Passes handed passed → length handed ≤ capacity → passed ≡ []

module _ (W : BufWriter) (runs : Bool → Bool) (C : Codec S2cMessage) where
  -- If a writer that is not flushed holds what fits its capacity, the frame of the handshake
  -- fits, and the first connect of a new client has spawned its tasks, then in every state that
  -- the client reaches from there and in which this connect still awaits its handshake, the
  -- writer was handed no more than a beginning of that frame and has passed nothing on.
  pub small_handshake_stays :
      (o : S2cOptions) (context : Context) (k : ℕ) (id : Bytes) (c : Client) (passed : Bytes)
      → Reach runs C (connect runs C k id (ok tt) (Client.new o context)) c
      → c.rw_lock ≡ handshaking k
      → W.Passes c.stream passed
      → 4 + length (C.encode (handshake_message context id)) ≤ W.capacity
      → (n : ℕ) × (c.stream ≡ take n (frame (C.encode (handshake_message context id))))
        × (passed ≡ [])
  unfolding Client.new connect connect_tcp spawn_drain_in spawn_drain_out
  small_handshake_stays o context k id c passed r h w fits =
      let p = C.encode (handshake_message context id) in
      let begin : IsQuiet k p (connect runs C k id (ok tt) (Client.new o context)) =
        during refl (λ j n. ground arith) (asks id (ground arith) refl refl) in
      let (n, e) = handed-Quiet k p c h (Reach-Quiet k p runs C r begin) in
      let short : length c.stream ≤ W.capacity =
        omega (arith, ap length e, length-take n (frame p), length-frame p) in
      (n, e, W.holds c.stream passed w short)
