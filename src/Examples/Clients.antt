-- ===== src/Examples/Clients.antt =====
-- A client that connects and loses its connection.
use s2c_rs.Base.{
  length, take, ◌≤◌, ℕ, ◌≡◌, refl, ◌≢◌, Bool, true, false, not, List, [], ◌∷◌, ◌++◌, Option, none,
  some, Bytes, codes, Result, ok, err, arith,
}
use s2c_rs.Config.{default_options}
use s2c_rs.Context.{Context}
use s2c_rs.Context
use s2c_rs.Proto.{S2cMessage}
use s2c_rs.Net.Error.{NetworkError}
use s2c_rs.Net.Error
use s2c_rs.Net.Inflight.{waiting}
use s2c_rs.Net.Client.{
  Client, ready, not_connected, free, handshaking, returned, queued, Reader, Writer, Call,
}
use s2c_rs.Net.Client
use s2c_rs.Net.Client.Calls.{send, register, enqueue, settle_call}
use s2c_rs.Net.Client.Loops.{check_in, after_read, disconnect, check_out, write_out}
use s2c_rs.Net.Client.Connection.{handshake_message, connect, handshaken}
use s2c_rs.Net.Client.System.{
  Ended, Reach, start, later, sends, registers, enqueues, settles, connects, shakes, checks_in,
  receives, disconnects, checks_out, writes, drops_writer,
}
use s2c_rs.Net.Client.Answers.{answers_match}
use s2c_rs.Net.Framing.{frame}
use s2c_rs.Net.Client.Quiet.{BufWriter, small_handshake_stays}
use s2c_rs.Net.Client.Silence.{ready_stays_silent}
use s2c_rs.Net.Client.Order.{Streamed, payloads, written_in_order}
use s2c_rs.Net.Client.Failures.{failed_read_reaches}
use s2c_rs.Examples.Messages.{message_codec}
use s2c_rs.Examples.Nodes.{node_a}

abbrev pub context : Context
context = Context.new (codes "g") node_a false

abbrev pub fresh : Client
fresh = Client.new default_options context

abbrev pub greeting : S2cMessage
greeting = handshake_message context (codes "h")

-- The handshake is sent.
abbrev dialled : Client
dialled = connect not message_codec 0 (codes "h") (ok tt) fresh

abbrev noted : Client
noted = register 0 (codes "h") (message_codec.encode greeting) dialled

abbrev waits : Client
waits = enqueue 0 (codes "h") (message_codec.encode greeting) 0 noted

abbrev sent : Client
sent = write_out (message_codec.encode greeting) [] none (check_out waits)

-- It is answered, and the answer reaches the call.
abbrev answered : Client
answered = after_read (ok greeting) (check_in sent)

abbrev settled : Client
settled = settle_call 0 (codes "h") (answered.inflight_requests.slots 0) answered

-- The connection breaks before `connect` goes on.
abbrev broken : Client
broken = disconnect (after_read (err (NetworkError.io (codes "reset"))) (check_in settled))

abbrev alone : Client
alone = record broken { writer = Writer.gone }

waits-Reach : Reach not message_codec fresh waits
unfolding Client.new connect s2c_rs.Net.Client.Connection.connect_tcp
    s2c_rs.Net.Client.Connection.spawn_drain_in s2c_rs.Net.Client.Connection.spawn_drain_out
    register s2c_rs.Net.Inflight.add s2c_rs.Net.Inflight.new
waits-Reach =
    later
      (later (later start (connects 0 (codes "h") (ok tt) refl refl (λ a b. (refl, refl))))
        (registers 0 (codes "h") (message_codec.encode greeting) refl))
      (enqueues 0 (codes "h") (message_codec.encode greeting) 0 refl (omega arith))

answered-Reach : Reach not message_codec fresh answered
unfolding enqueue register connect Client.new s2c_rs.Net.Client.Connection.connect_tcp
    s2c_rs.Net.Client.Connection.spawn_drain_in s2c_rs.Net.Client.Connection.spawn_drain_out
    check_out Client.running write_out check_in
answered-Reach =
    later
      (later
        (later (later waits-Reach (checks_out refl))
          (writes (message_codec.encode greeting) [] none refl refl))
        (checks_in refl))
      (receives (ok greeting) refl)

pub settled-Reach : Reach not message_codec fresh settled
unfolding after_read Client.running check_in write_out check_out enqueue register connect Client.new
    s2c_rs.Net.Client.Connection.connect_tcp s2c_rs.Net.Client.Connection.spawn_drain_in
    s2c_rs.Net.Client.Connection.spawn_drain_out
settled-Reach = later answered-Reach (settles 0 (codes "h") 0 refl)

alone-Reach : Reach not message_codec fresh alone
unfolding settle_call after_read Client.running check_in write_out check_out enqueue register
    connect Client.new s2c_rs.Net.Client.Connection.connect_tcp
    s2c_rs.Net.Client.Connection.spawn_drain_in s2c_rs.Net.Client.Connection.spawn_drain_out
    s2c_rs.Net.Inflight.respond s2c_rs.Net.Inflight.lookup s2c_rs.Net.Inflight.add
    s2c_rs.Net.Inflight.Bytes-discrete s2c_rs.Base.ℕ_discrete s2c_rs.Net.Inflight.new
    s2c_rs.Net.Inflight.remove handshake_message s2c_rs.Net.Client.Loops.take_message disconnect
    s2c_rs.Net.Inflight.fail_all s2c_rs.Net.Inflight.settle_all handshaken
    s2c_rs.Net.Client.Connection.is_handshake send
alone-Reach =
    later
      (later
        (later (later settled-Reach (checks_in refl))
          (receives (err (NetworkError.io (codes "reset"))) refl))
        (disconnects refl))
      (drops_writer refl)

settled_call : settled.calls 0 ≡ returned (codes "h") (ok greeting)
unfolding settle_call after_read Client.running check_in write_out check_out enqueue register
    connect Client.new s2c_rs.Net.Client.Connection.connect_tcp
    s2c_rs.Net.Client.Connection.spawn_drain_in s2c_rs.Net.Client.Connection.spawn_drain_out
    s2c_rs.Net.Inflight.respond s2c_rs.Net.Inflight.lookup s2c_rs.Net.Inflight.add
    s2c_rs.Net.Inflight.Bytes-discrete s2c_rs.Base.ℕ_discrete s2c_rs.Net.Inflight.new
    s2c_rs.Net.Inflight.remove handshake_message s2c_rs.Net.Client.Loops.take_message disconnect
    s2c_rs.Net.Inflight.fail_all s2c_rs.Net.Inflight.settle_all handshaken
    s2c_rs.Net.Client.Connection.is_handshake send
settled_call = refl

answers_match_example : (greeting.correlation_id ≡ codes "h") × (greeting.error ≡ none)
answers_match_example =
    answers_match not message_codec default_options context settled 0 (codes "h") greeting
      settled-Reach settled_call

written_in_order_example : Streamed (payloads not message_codec settled-Reach) settled
written_in_order_example =
    written_in_order not message_codec default_options context settled settled-Reach

failed_read_reaches_example :
    let d = after_read (err (NetworkError.io (codes "reset"))) waits in
    (settle_call 0 (codes "h") (d.inflight_requests.slots 0) d).calls 0
    ≡ returned (codes "h") (err (Error.ClientError.io (NetworkError.io (codes "reset"))))
unfolding enqueue register s2c_rs.Net.Inflight.add connect Client.new
    s2c_rs.Net.Client.Connection.connect_tcp s2c_rs.Net.Client.Connection.spawn_drain_in
    s2c_rs.Net.Client.Connection.spawn_drain_out s2c_rs.Net.Inflight.new
failed_read_reaches_example =
    failed_read_reaches not message_codec default_options context waits 0 (codes "h") 0
      (NetworkError.io (codes "reset")) waits-Reach refl refl

-- The broken connection's `connect` still goes on, and the client is ready without its tasks.
abbrev deaf : Client
deaf = handshaken (ok greeting) alone

deaf-Reach : Reach not message_codec fresh deaf
unfolding settle_call after_read Client.running check_in write_out check_out enqueue register
    connect Client.new s2c_rs.Net.Client.Connection.connect_tcp
    s2c_rs.Net.Client.Connection.spawn_drain_in s2c_rs.Net.Client.Connection.spawn_drain_out
    s2c_rs.Net.Inflight.respond s2c_rs.Net.Inflight.lookup s2c_rs.Net.Inflight.add
    s2c_rs.Net.Inflight.Bytes-discrete s2c_rs.Base.ℕ_discrete s2c_rs.Net.Inflight.new
    s2c_rs.Net.Inflight.remove handshake_message s2c_rs.Net.Client.Loops.take_message disconnect
    s2c_rs.Net.Inflight.fail_all s2c_rs.Net.Inflight.settle_all handshaken
    s2c_rs.Net.Client.Connection.is_handshake send
deaf-Reach = later alone-Reach (shakes 0 (codes "h") (ok greeting) refl refl)

deaf_state : (deaf.client_state ≡ ready) × (deaf.rw_lock ≡ free) × Ended deaf
unfolding settle_call after_read Client.running check_in write_out check_out enqueue register
    connect Client.new s2c_rs.Net.Client.Connection.connect_tcp
    s2c_rs.Net.Client.Connection.spawn_drain_in s2c_rs.Net.Client.Connection.spawn_drain_out
    s2c_rs.Net.Inflight.respond s2c_rs.Net.Inflight.lookup s2c_rs.Net.Inflight.add
    s2c_rs.Net.Inflight.Bytes-discrete s2c_rs.Base.ℕ_discrete s2c_rs.Net.Inflight.new
    s2c_rs.Net.Inflight.remove handshake_message s2c_rs.Net.Client.Loops.take_message disconnect
    s2c_rs.Net.Inflight.fail_all s2c_rs.Net.Inflight.settle_all handshaken
    s2c_rs.Net.Client.Connection.is_handshake send
deaf_state = (refl, refl, (refl, refl))

abbrev asks : Client
asks = send 1 (codes "1") (codes "x") deaf

asks-Reach : Reach not message_codec deaf asks
unfolding settle_call after_read Client.running check_in write_out check_out enqueue register
    connect Client.new s2c_rs.Net.Client.Connection.connect_tcp
    s2c_rs.Net.Client.Connection.spawn_drain_in s2c_rs.Net.Client.Connection.spawn_drain_out
    s2c_rs.Net.Inflight.respond s2c_rs.Net.Inflight.lookup s2c_rs.Net.Inflight.add
    s2c_rs.Net.Inflight.Bytes-discrete s2c_rs.Base.ℕ_discrete s2c_rs.Net.Inflight.new
    s2c_rs.Net.Inflight.remove handshake_message s2c_rs.Net.Client.Loops.take_message disconnect
    s2c_rs.Net.Inflight.fail_all s2c_rs.Net.Inflight.settle_all handshaken
    s2c_rs.Net.Client.Connection.is_handshake send
asks-Reach = later start (sends 1 (codes "1") (codes "x") refl refl)

ready_stays_silent_example :
    Ended asks × (asks.client_state ≢ not_connected) × (asks.written ≡ deaf.written)
ready_stays_silent_example =
    ready_stays_silent not message_codec deaf asks deaf_state.0 deaf_state.1 deaf_state.2 asks-Reach

-- A client after its handshake.
abbrev pub shaken : Client
shaken = handshaken (ok greeting) settled

-- A writer with 8 kB.
abbrev large_buffer : BufWriter
large_buffer = record {
  capacity = 8192;
  Passes = λ handed passed. length handed ≤ 8192 → passed ≡ [];
  holds = λ handed passed h l. h l;
}

dialled-Reach : Reach not message_codec dialled sent
unfolding Client.new connect s2c_rs.Net.Client.Connection.connect_tcp
    s2c_rs.Net.Client.Connection.spawn_drain_in s2c_rs.Net.Client.Connection.spawn_drain_out
    register s2c_rs.Net.Inflight.add s2c_rs.Net.Inflight.new enqueue check_out Client.running
dialled-Reach =
    later
      (later
        (later (later start (registers 0 (codes "h") (message_codec.encode greeting) refl))
          (enqueues 0 (codes "h") (message_codec.encode greeting) 0 refl (omega arith)))
        (checks_out refl))
      (writes (message_codec.encode greeting) [] none refl refl)

sent_lock : sent.rw_lock ≡ handshaking 0
unfolding Client.new connect s2c_rs.Net.Client.Connection.connect_tcp register enqueue check_out
    Client.running write_out s2c_rs.Net.Client.Connection.spawn_drain_in
    s2c_rs.Net.Client.Connection.spawn_drain_out
sent_lock = refl

nothing : Bytes
nothing = []

small_handshake_stays_example :
    (n : ℕ) × (sent.stream ≡ take n (frame (message_codec.encode greeting))) × (nothing ≡ [])
unfolding nothing s2c_rs.Context.new handshake_message
small_handshake_stays_example =
    small_handshake_stays large_buffer not message_codec default_options context 0 (codes "h") sent
      nothing dialled-Reach sent_lock (λ l. refl) (omega arith)
