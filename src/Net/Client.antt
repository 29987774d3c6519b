-- ===== src/Net/Client.antt =====
-- src/network/client.rs: `S2cClient`. Its methods and its two tasks are cut into sections between
-- two awaits; a section is a function on the client, and the sections of different callers and
-- tasks interleave in any order (Client/System).
pub mod Calls
pub mod Loops
pub mod Connection
pub mod System
pub mod Runs
pub mod Invariants
pub mod Answers
pub mod Reconnect
pub mod Silence
pub mod Refusals
pub mod Failures
pub mod Order
pub mod Quiet
use s2c_rs.Base.{
  ℕ, zero, suc, ◌≡◌, refl, Bool, true, false, List, [], Bytes, Result, ◌==◌, if◌then◌else◌,
}
use s2c_rs.Config.{S2cOptions}
use s2c_rs.Context.{Context}
use s2c_rs.Proto.{S2cMessage}
use s2c_rs.Net.Error.{ClientError}
use s2c_rs.Net.Inflight.{InflightRequests}
use s2c_rs.Net.Inflight

pub data ClientState : Type 0 where
  not_connected connected ready closed : ClientState

-- The state as the u8 of the atomic, and `AtomicClientState::load` of it.
unfoldable pub as_u8 : ClientState → ℕ
as_u8 not_connected = 0
as_u8 connected = 1
as_u8 ready = 2
as_u8 closed = 3

unfoldable pub load : ℕ → ClientState
load zero = not_connected
load (suc zero) = connected
load (suc (suc zero)) = ready
load (suc (suc (suc n))) = closed

-- A load reads the state that was stored, so the client below keeps the state itself.
pub load-as_u8 : (s : ClientState) → load (as_u8 s) ≡ s
unfolding load as_u8
load-as_u8 not_connected = refl
load-as_u8 connected = refl
load-as_u8 ready = refl
load-as_u8 closed = refl

unfoldable pub running : ClientState → Bool
running ready = true
running connected = true
running not_connected = false
running closed = false

-- Where a call of `send_and_await_response` stands, with its correlation id, its payload and the
-- channel that it awaits.
pub data Call : Type 0 where
  idle : Call
  admitted : (id payload : Bytes) → Call
  registered : (id payload : Bytes) → (channel : ℕ) → Call
  queued : (id : Bytes) → (channel : ℕ) → Call
  returned : (id : Bytes) → Result S2cMessage ClientError → Call

-- Who holds `rw_lock` for writing: nobody, a `connect` that awaits the handshake of a call, or a
-- method that waits for the tasks to end.
pub data Lock : Type 0 where
  free : Lock
  handshaking : ℕ → Lock
  draining : Lock

-- Where the two tasks stand.
pub data Reader : Type 0 where
  gone : Reader
  checks : Reader  -- head of the loop of `drain_in`
  reads : Reader
  failed : Reader  -- after `fail_all`

pub data Writer : Type 0 where
  gone : Writer
  checks : Writer  -- head of the loop of `drain_out`
  sleeps : Writer
  receives : Writer

-- `receiver` is what the channel of payloads holds. `stream` is what `drain_out` handed to the
-- `BufWriter` of the last connection, `written` what it handed to those of all connections: no code
-- flushes them, so how much of it has reached a connection is not said.
pub record Client : Type 0 where
  pub s2c_options : S2cOptions
  pub context : Context
  pub inflight_requests : InflightRequests
  pub throttle : Bool
  pub client_state : ClientState
  pub receiver : List Bytes
  pub rw_lock : Lock
  pub tracker_closed : Bool
  pub cancelled : Bool
  pub reader : Reader
  pub writer : Writer
  pub calls : ℕ → Call
  pub stream : Bytes
  pub written : Bytes

unfoldable pub new : S2cOptions → Context → Client
new s2c_options context = record {
  s2c_options = s2c_options;
  context = context;
  inflight_requests = Inflight.new;
  throttle = false;
  client_state = not_connected;
  receiver = [];
  rw_lock = free;
  tracker_closed = false;
  cancelled = false;
  reader = gone;
  writer = gone;
  calls = λ k. idle;
  stream = [];
  written = [];
}

abbrev pub set_call : ℕ → Call → (ℕ → Call) → ℕ → Call
set_call k x calls j = if k == j then x else calls j
