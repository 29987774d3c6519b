-- ===== src/Examples/Answers.antt =====
-- A client that is ready and whose server answers every call, as the client of a node.
use s2c_rs.Base.{
  ℕ, suc, ◌≤◌, ◌≡◌, refl, subst, some, false, not, [], ◌++◌, none, Bytes, codes, ok, arith,
}
use s2c_rs.Config.{default_options}
use s2c_rs.Proto.{S2cMessage, follow_response}
use s2c_rs.Store.{ObjectStore}
use s2c_rs.Net.Framing.{frame}
use s2c_rs.Net.Inflight.{InflightRequests, add, respond, lookup, answered}
use s2c_rs.Net.Inflight.Resolution.{respond_lem}
use s2c_rs.Net.Client.{
  Client, ready, idle, admitted, registered, queued, returned, free, Reader, Writer, Call,
}
use s2c_rs.Net.Client
use s2c_rs.Net.Client.Calls.{send, register, enqueue, settle_call}
use s2c_rs.Net.Client.Loops.{check_in, after_read, check_out, write_out}
use s2c_rs.Net.Client.System.{
  Reach, start, later, registers, enqueues, settles, checks_in, receives, checks_out, writes,
}
use s2c_rs.Net.Client.Runs.{Sending, wrong_state}
use s2c_rs.Fsm.Join.{Link}
use s2c_rs.Fsm.Join.Client.{HasClient}
use s2c_rs.Examples.Memory.{Objects, memory}
use s2c_rs.Examples.Messages.{message_codec}
use s2c_rs.Examples.Clients.{context}

-- The store with a client that is ready and whose tasks are at the heads of their loops; calls from
-- `spare` on were not made.
pub record Live : Type 0 where
  pub objects : Objects
  pub table : InflightRequests
  pub calls : ℕ → Call
  pub stream : Bytes
  pub written : Bytes
  pub spare : ℕ
  pub unused : (k : ℕ) → spare ≤ k → calls k ≡ idle

abbrev pub live_client : Live → Client
live_client s = record {
  s2c_options = default_options;
  context = context;
  inflight_requests = s.table;
  throttle = false;
  client_state = ready;
  receiver = [];
  rw_lock = free;
  tracker_closed = false;
  cancelled = false;
  reader = Reader.checks;
  writer = Writer.checks;
  calls = s.calls;
  stream = s.stream;
  written = s.written;
}

abbrev pub live_memory : ObjectStore
live_memory = record {
  State = Live;
  Location = Bytes;
  Handle = Bytes;
  path_from = λ p. p;
  filename = memory.filename;
  put_create =
      λ p v s. let (r, o) = memory.put_create p v s.objects in (r, record s { objects = o });
  list = λ p s. let (r, o) = memory.list p s.objects in (r, record s { objects = o });
  get = λ p s. let (r, o) = memory.get p s.objects in (r, record s { objects = o });
  bytes = λ h s. let (r, o) = memory.bytes h s.objects in (r, record s { objects = o });
}

abbrev pub reply : Bytes → S2cMessage
reply id = record { correlation_id = id; body = some follow_response; error = none }

-- The sections of a call, up to its queued payload.
abbrev pub asked : Bytes → Bytes → Live → ℕ → Call
asked id payload s = Client.set_call s.spare (queued id s.table.next) (
    Client.set_call s.spare (registered id payload s.table.next)
      (Client.set_call s.spare (admitted id payload) s.calls))

pub asked_unused :
    (id payload : Bytes) (x : Call) (s : Live) (k : ℕ)
    → suc s.spare ≤ k
    → Client.set_call s.spare x (asked id payload s) k ≡ idle
asked_unused id payload x s k h = ground (arith, s.unused k)

abbrev pub replied : Bytes → Bytes → Live → Live
replied id payload s =
    let x = returned id (ok (reply id)) in
    record s {
      table = respond (reply id) (add id s.table).1;
      calls = Client.set_call s.spare x (asked id payload s);
      stream = s.stream ++ frame payload;
      written = s.written ++ frame payload;
      spare = suc s.spare;
      unused = asked_unused id payload x s;
    }

abbrev pub answering : Link live_memory
answering = record {
  connect = λ id s. (ok tt, s);
  send = λ id payload s. (ok (reply id), replied id payload s);
  new_id = λ s. (codes "1", s);
}

added : (id : Bytes) (q : InflightRequests) → lookup id (add id q).1.requests ≡ some q.next
unfolding lookup add
added id q = ground arith

replied_slot :
    (id : Bytes) (q : InflightRequests)
    → (respond (reply id) (add id q).1).slots q.next ≡ answered (ok (reply id))
replied_slot id q = (respond_lem (add id q).1 (reply id) q.next (added id q)).0

-- The call is written, the answer is read, and the call finds it.
abbrev heard : Bytes → Bytes → Live → Client
heard id payload s =
    let c = send s.spare id payload (live_client s) in
    let queues = enqueue s.spare id payload s.table.next (register s.spare id payload c) in
    let wrote = write_out payload [] none (check_out queues) in
    after_read (ok (reply id)) (check_in wrote)

heard-Reach :
    (id payload : Bytes) (s : Live)
    → Reach not message_codec (send s.spare id payload (live_client s)) (heard id payload s)
unfolding register send enqueue check_out Client.running write_out check_in add
heard-Reach id payload s =
    later
      (later
        (later
          (later
            (later (later start (registers s.spare id payload (ground arith)))
              (enqueues s.spare id payload s.table.next (ground arith) (omega arith)))
            (checks_out refl))
          (writes payload [] none refl refl))
        (checks_in refl))
      (receives (ok (reply id)) refl)

heard_call :
    (id payload : Bytes) (s : Live) → (heard id payload s).calls s.spare ≡ queued id s.table.next
unfolding after_read check_in write_out check_out enqueue register send Client.running add
    s2c_rs.Net.Client.Loops.take_message
heard_call id payload s = ground arith

replied-Reach :
    (id payload : Bytes) (s : Live)
    → Reach not message_codec
        (send s.spare id payload (live_client s))
        (live_client (replied id payload s))
unfolding settle_call after_read check_in write_out check_out enqueue register send Client.running
    add s2c_rs.Net.Client.Loops.take_message
replied-Reach id payload s =
    let c = heard id payload s in
    let r : Reach not message_codec (send s.spare id payload (live_client s))
        (settle_call s.spare id (c.inflight_requests.slots s.table.next) c) =
      later (heard-Reach id payload s)
        (settles s.spare id s.table.next (heard_call id payload s)) in
    subst
      (λ x.
        Reach not message_codec (send s.spare id payload (live_client s))
          (settle_call s.spare id x c))
      (replied_slot id s.table) r

replied-Sending :
    (id payload : Bytes) (s : Live)
    → Sending not message_codec id payload
        (live_client s)
        (ok (reply id))
        (live_client (replied id payload s))
replied-Sending id payload s = record {
  call = s.spare;
  before = live_client s;
  waits = start;
  fresh = s.unused s.spare (omega arith);
  unlocked = refl;
  goes = replied-Reach id payload s;
  answer = ground arith;
}

pub answering-HasClient : HasClient live_memory answering not message_codec live_client
answering-HasClient = record {
  puts = λ p v s. start;
  lists = λ p s. start;
  gets = λ p s. start;
  reads = λ h s. start;
  ids = λ s. start;
  connects = λ id s. wrong_state (live_client s) start refl (λ k. cc);
  sends = replied-Sending;
}
