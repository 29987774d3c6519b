-- ===== src/Net/Server.antt =====
-- src/network/server.rs: the state of `S2cServer`, `bind`, `start`, and what is done with one
-- connection. How its tasks interleave is in Server/Tasks.
pub mod Tasks
pub mod Single
pub mod Closing
pub mod Binding
pub mod Greeting
use s2c_rs.Base.{
  ℕ, zero, suc, ◌≡◌, refl, Bool, true, false, List, [], ◌∷◌, ◌++◌, Option, none, some, Bytes,
  Result, ok, err, Outcome, returns, running, ◌>>=◌, ◌==◌, if◌then◌else◌, eq_bytes,
}
use s2c_rs.Backoff.{BackoffCounter, can_attempt, await_attempt}
use s2c_rs.Backoff
use s2c_rs.Codec.{Codec}
use s2c_rs.Config.{S2cRetryOptions}
use s2c_rs.Proto.{
  S2cMessage, Body, Handshake, NodeIdentity, handshake, state_request, state_request_response,
  replicate_request, replicate_response, follow, follow_response,
}
use s2c_rs.Net.Error.{NetworkError}
use s2c_rs.Net.Framing.{Reader, frame, read_next_message}
use s2c_rs.Net.Group.{GroupServer}

pub data ServerState : Type 0 where
  not_bound binding ready closed : ServerState

-- The state as the u8 of the atomic, and `AtomicServerState::load` of it.
unfoldable pub as_u8 : ServerState → ℕ
as_u8 not_bound = 0
as_u8 binding = 1
as_u8 ready = 2
as_u8 closed = 3

unfoldable pub load : ℕ → ServerState
load zero = not_bound
load (suc zero) = binding
load (suc (suc zero)) = ready
load (suc (suc (suc n))) = closed

-- A load reads the state that was stored, so the model keeps the state itself.
pub load-as_u8 : (s : ServerState) → load (as_u8 s) ≡ s
unfolding load as_u8
load-as_u8 not_bound = refl
load-as_u8 binding = refl
load-as_u8 ready = refl
load-as_u8 closed = refl

-- Whether the state was `current`, and the state after.
unfoldable pub compare_and_exchange : ServerState → ServerState → ServerState → Bool × ServerState
unfolding as_u8
compare_and_exchange current new s = if as_u8 s == as_u8 current then (true, new) else (false, s)

-- `listen` is `TcpListener::bind` on the port, on whatever state it depends.
module _ {S : Type 0} (listen : S → Result (Unit {0}) Bytes × S) where
  unfoldable pub bind_loop : ℕ → BackoffCounter → S → Outcome (Result (Unit {0}) Bytes × S)
  bind_loop zero b s = running
  bind_loop (suc fuel) b s =
      let (re, s') = listen s in
      let again = bind_loop fuel (await_attempt b) s' in
      elim re [
        | ok u ↦ returns (ok u, s')
        | err e ↦ if can_attempt b then again else returns (err e, s')
      ]

  unfoldable pub bind : ℕ → S2cRetryOptions → S → Outcome (Result (Unit {0}) Bytes × S)
  bind fuel retry s = bind_loop fuel (Backoff.new retry) s

  -- `start`: its result and the state that it leaves.
  unfoldable pub started : Result (Unit {0}) Bytes × S → (Result (Unit {0}) Bytes × ServerState) × S
  started (ok u, s) = ((ok u, ready), s)
  started (err e, s) = ((err e, binding), s)

  unfoldable pub start :
      ℕ → S2cRetryOptions → ServerState → S → Outcome ((Result (Unit {0}) Bytes × ServerState) × S)
  start fuel retry state s =
      let (won, state') = compare_and_exchange not_bound binding state in
      if won then (bind fuel retry s >>= λ o. returns (started o)) else returns ((ok tt, state'), s)

-- A round of the loop of `handshake`: whether the read is in time, and whether the answer is
-- written.
pub record Try : Type 0 where
  pub in_time : Bool
  pub write_ok : Bool

-- The handshake, what a write that succeeds has written, and whether the loop has ended.
pub record Greeted : Type 0 where
  pub result : Option Handshake
  pub written : Bytes
  pub ended : Bool

unfoldable pub handshake_of : Option Body → Option Handshake
handshake_of (some (handshake h)) = some h
handshake_of (some (state_request r)) = none
handshake_of (some (state_request_response r)) = none
handshake_of (some (replicate_request r)) = none
handshake_of (some (replicate_response r)) = none
handshake_of (some (follow f)) = none
handshake_of (some follow_response) = none
handshake_of none = none

module _ (C : Codec S2cMessage) where
  -- `write_bytes` and the flush; `write_ok` says whether both succeed.
  unfoldable pub write : Bool → S2cMessage → Option Bytes
  write true m = some (frame (C.encode m))
  write false m = none

  -- The message that came goes back.
  unfoldable pub write_back : Bool → S2cMessage → Handshake → Greeted
  unfolding write
  write_back write_ok m h = elim (write write_ok m) [
    | some bytes ↦ record { result = some h; written = bytes; ended = true }
    | none ↦ record { result = none; written = []; ended = true }
  ]

  -- A message that is no handshake is skipped: `later` is what the later rounds give.
  unfoldable pub reply : Option Handshake → Bool → S2cMessage → Greeted → Greeted
  unfolding write_back
  reply (some h) write_ok m later = write_back write_ok m h
  reply none write_ok m later = later

  unfoldable pub tried : Bool → Result S2cMessage NetworkError → Greeted → Greeted
  tried write_ok (ok m) later = reply (handshake_of m.body) write_ok m later
  tried write_ok (err e) later = record { result = none; written = []; ended = true }

module _ (eof : Bytes) (C : Codec S2cMessage) where
  unfoldable pub shake : Reader → List Try → Bytes → Greeted
  shake r [] arriving = record { result = none; written = []; ended = false }
  shake r (t ∷ ts) arriving =
      let f = read_next_message eof C r arriving in
      let later = shake f.reader ts f.rest in
      if t.in_time
      then tried C t.write_ok f.result later
      else record { result = none; written = []; ended = true }

-- `group_servers`, a map by the id of the group; the newest registration stands first.
abbrev pub GroupServers : Type 0
GroupServers = List (Bytes × GroupServer)

unfoldable pub group_of : Bytes → GroupServers → Option GroupServer
group_of id [] = none
group_of id ((j, g) ∷ gs) = let rest = group_of id gs in if eq_bytes j id then some g else rest

unfoldable pub register_group_server : Bytes → GroupServer → GroupServers → GroupServers
register_group_server id g gs = (id, g) ∷ gs

-- The call that `handle_client` makes for a connection: the future of `GroupServer::handle_client`
-- on a group and a node, if the handshake names both.
unfoldable pub handed_over : Option Handshake → GroupServers → Option (GroupServer × NodeIdentity)
handed_over none gs = none
handed_over (some h) gs = elim (group_of h.group_id gs) [
  | none ↦ none
  | some g ↦ elim h.node_identity [ none ↦ none | some n ↦ some (g, n) ]
]

-- One connection: its reader, the rounds of its handshake, and what arrives.
pub record Connection : Type 0 where
  pub reader : Reader
  pub tries : List Try
  pub arriving : Bytes

-- `handle_client` writes what the handshake writes. The future in `handed_over` is dropped before it
-- is polled, so the groups are as they were.
unfoldable pub handle_client :
    Bytes
    → Codec S2cMessage
    → Connection
    → GroupServers
    → Bytes × Option (GroupServer × NodeIdentity) × GroupServers
handle_client eof C c gs =
    let greeted = shake eof C c.reader c.tries c.arriving in
    (greeted.written, handed_over greeted.result gs, gs)
