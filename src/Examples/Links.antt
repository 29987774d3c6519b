-- ===== src/Examples/Links.antt =====
-- A node whose client has lost its connection, in front of a log with a leader.
use s2c_rs.Base.{
  ℕ, suc, ◌≤◌, ◌≡◌, refl, ap, subst, Option, some, ◌≢◌, true, false, not, [], ◌∷◌, ◌++◌, none,
  Bytes, codes, err, returns, arith,
}
use s2c_rs.Store.{ObjectStore}
use s2c_rs.Paths.{log_entry}
use s2c_rs.Net.Error.{ClientError}
use s2c_rs.Net.Error
use s2c_rs.Net.Client.{
  Client, ClientState, not_connected, connected, ready, closed, idle, admitted, returned, free,
  Reader, Writer, Call,
}
use s2c_rs.Net.Client
use s2c_rs.Net.Client.Calls.{send, refusal}
use s2c_rs.Net.Client.Connection.{connect, connect_tcp}
use s2c_rs.Net.Client.System.{Ended, Reach, start}
use s2c_rs.Net.Client.Runs.{Sending, Connecting, unreachable}
use s2c_rs.Fsm.{Fsm, follower, leader}
use s2c_rs.Fsm.Leadership.{leadership_entry}
use s2c_rs.Fsm.Join.{Link}
use s2c_rs.Fsm.Join.Client.{HasClient}
use s2c_rs.Fsm.Start.{Shift}
use s2c_rs.Fsm.Start.Rounds.{turns}
use s2c_rs.Fsm.Start.Lost.{lost_client_never_follows}
use s2c_rs.Examples.Memory.{Objects, memory}
use s2c_rs.Examples.Serial.{codec, batch, state_requests}
use s2c_rs.Examples.Messages.{message_codec}
use s2c_rs.Examples.Nodes.{fsm_a, fsm_b, entry_codec, after_a}
use s2c_rs.Examples.Clients.{fresh}

-- The store with a client that is not connected and has no call on its way; calls from `spare` on
-- were not made.
record Held : Type 0 where
  objects : Objects
  client : Client
  spare : ℕ
  unused : (k : ℕ) → spare ≤ k → client.calls k ≡ idle
  unlocked : client.rw_lock ≡ free
  offline : client.client_state ≡ not_connected
  over : Ended client

abbrev held_memory : ObjectStore
held_memory = record {
  State = Held;
  Location = Bytes;
  Handle = Bytes;
  path_from = λ p. p;
  filename = memory.filename;
  put_create =
      λ p v s. let (r, o) = memory.put_create p v s.objects in (r, record s { objects = o });
  list = λ p s. let (r, o) = memory.list p s.objects in (r, record s { objects = o });
  get = λ p s. let (r, o) = memory.get p s.objects in (r, record s { objects = o });
  bytes = λ h s. let (r, o) = memory.bytes h s.objects in (r, record s { objects = o });
}

-- No server is reached.
abbrev dials : Held → Held
dials s = record s { client = record s.client { tracker_closed = false } }

next_unused :
    (s : Held) (x : Call) (k : ℕ)
    → suc s.spare ≤ k
    → (Client.set_call s.spare x s.client.calls) k ≡ idle
next_unused s x k h = ground (arith, s.unused k)

abbrev refused : Bytes → Held → Held
refused id s =
    let x = returned id (err Error.not_connected) in
    record s {
      client = record s.client { calls = Client.set_call s.spare x s.client.calls };
      spare = suc s.spare;
      unused = next_unused s x;
    }

abbrev unreached : Link held_memory
unreached = record {
  connect = λ id s. (err Error.timeout, dials s);
  send = λ id payload s. (err Error.not_connected, refused id s);
  new_id = λ s. (codes "1", s);
}

-- Only this case of the method is met.
unconnected :
    {A : Type 0} (a c : A) (s : ClientState)
    → s ≡ not_connected
    → elim s [ not_connected ↦ a | connected ↦ c | ready ↦ c | closed ↦ c ] ≡ a
unconnected a c not_connected h = refl
unconnected a c connected h = absurd cc
unconnected a c ready h = absurd cc
unconnected a c closed h = absurd cc

refusing :
    {A : Type 0} (f : ClientError → A) (c : A) (o : Option ClientError) (e : ClientError)
    → o ≡ some e
    → elim o [ some x ↦ f x | none ↦ c ] ≡ f e
refusing f c none e h = absurd cc
refusing f c (some x) e h = ap f cc

connect_unreached :
    (c : Client) (k : ℕ) (id : Bytes) (e : ClientError)
    → c.client_state ≡ not_connected
    → connect not message_codec k id (err e) c ≡ record c { tracker_closed = false }
unfolding connect connect_tcp
connect_unreached c k id e h = unconnected (record c { tracker_closed = false }) c c.client_state h

dials-Connecting :
    (s : Held) → Connecting not message_codec s.client (err Error.timeout) (dials s).client
dials-Connecting s =
    subst (Connecting not message_codec s.client (err Error.timeout))
      (connect_unreached s.client s.spare (codes "c") Error.timeout s.offline)
      (unreachable s.client s.spare (codes "c") Error.timeout (record {
        waits = start;
        fresh = s.unused s.spare (omega arith);
        unlocked = s.unlocked;
        state = s.offline;
        ended = λ _. s.over;
      }))

send_refused :
    (c : Client) (k : ℕ) (id payload : Bytes)
    → c.client_state ≡ not_connected
    → send k id payload c
      ≡ record c { calls = Client.set_call k (returned id (err Error.not_connected)) c.calls }
unfolding send refusal
send_refused c k id payload h =
    refusing (λ x. record c { calls = Client.set_call k (returned id (err x)) c.calls })
      (record c { calls = Client.set_call k (admitted id payload) c.calls })
      (refusal c.client_state) Error.not_connected (ap refusal h)

refused-Sending :
    (id payload : Bytes) (s : Held)
    → Sending not message_codec id payload s.client (err Error.not_connected) (refused id s).client
refused-Sending id payload s =
    let e = send_refused s.client s.spare id payload s.offline in
    record {
      call = s.spare;
      before = s.client;
      waits = start;
      fresh = s.unused s.spare (omega arith);
      unlocked = s.unlocked;
      goes = subst (Reach not message_codec (send s.spare id payload s.client)) e start;
      answer = ground arith;
    }

unreached-HasClient : HasClient held_memory unreached not message_codec (λ s. s.client)
unreached-HasClient = record {
  puts = λ p v s. start;
  lists = λ p s. start;
  gets = λ p s. start;
  reads = λ h s. start;
  ids = λ s. start;
  connects = λ id s. dials-Connecting s;
  sends = refused-Sending;
}

-- What `get_head` names is found under the plain index.
lost_state : Held
unfolding Client.new
lost_state = record {
  objects =
      after_a
      ++ ((log_entry fsm_a.s2c_log.keys 1, entry_codec.encode (leadership_entry fsm_a)) ∷ []);
  client = record fresh { cancelled = true };
  spare = 0;
  unused = λ k h. refl;
  unlocked = refl;
  offline = refl;
  over = (refl, refl);
}

abbrev left : Fsm
left = record fsm_b { commit_index = 5; epoch = 5 }

abbrev no_shift : Shift
no_shift = record { events = []; rounds = [] }

ran :
    (o : Fsm × Held) × (turns held_memory unreached entry_codec message_codec
        (codec state_requests)
        (codec batch)
        7
        7
        left
        (no_shift ∷ [])
        lost_state
      ≡ returns o)
unfolding s2c_rs.Fsm.Start.turn s2c_rs.Fsm.new s2c_rs.Fsm.Join.join s2c_rs.Fsm.Join.join_loop
    s2c_rs.Fsm.Join.join_round s2c_rs.Fsm.Join.discover_leader_state s2c_rs.Fsm.Join.discover_loop
    s2c_rs.Log.get_head s2c_rs.Log.head_loop lost_state s2c_rs.Log.head_index
    s2c_rs.Paths.Decimal.parse_u64 s2c_rs.Log.entry_path log_entry s2c_rs.Log.new s2c_rs.Paths.new
    s2c_rs.Paths.Decimal.decimal s2c_rs.Paths.Decimal.digits s2c_rs.Paths.Decimal.scan
    s2c_rs.Paths.invert s2c_rs.Log.get_at s2c_rs.Log.get_loop s2c_rs.Fsm.Join.after_discover
    s2c_rs.Fsm.Join.parse_leader_state s2c_rs.Fsm.Join.join_leader s2c_rs.Fsm.Join.connect
    s2c_rs.Fsm.Join.connect_loop s2c_rs.Fsm.Join.after_connect s2c_rs.Fsm.Join.is_wrong_state
    s2c_rs.Fsm.Join.try_leadership s2c_rs.Backoff.await_attempt s2c_rs.Backoff.can_attempt
    s2c_rs.Backoff.new s2c_rs.Fsm.Leadership.attempt_leadership leadership_entry
    s2c_rs.Fsm.Leadership.leadership_loop s2c_rs.Fsm.Leadership.next_epoch
    s2c_rs.Fsm.Leadership.next_index s2c_rs.Fsm.Leadership.won s2c_rs.Log.append
    s2c_rs.Log.append_loop
ran = (_, refl)

lost_client_never_follows_example :
    (ran.0.0.state ≢ follower) × (ran.0.1.client.written ≡ lost_state.client.written)
unfolding lost_state Client.new s2c_rs.Fsm.new
lost_client_never_follows_example =
    lost_client_never_follows held_memory unreached not message_codec (λ s. s.client)
      unreached-HasClient refl entry_codec (codec state_requests) (codec batch) 7 7 left ran.0.0
      (no_shift ∷ []) lost_state ran.0.1 refl refl refl (refl, refl) (λ k. cc) ran.1

-- The node became leader instead.
now_leads : ran.0.0.state ≡ leader
unfolding ran
now_leads = refl
