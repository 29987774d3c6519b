-- ===== src/Net/Client/Connection.antt =====
-- `connect`, `handshake` and `close` of `S2cClient`, section by section.
use s2c_rs.Base.{
  ℕ, [], Bool, true, false, Option, none, some, Bytes, Result, ok, err, if◌then◌else◌,
}
use s2c_rs.Codec.{Codec}
use s2c_rs.Context.{Context}
use s2c_rs.Proto.{
  S2cMessage, Body, handshake, state_request, state_request_response, replicate_request,
  replicate_response, follow, follow_response,
}
use s2c_rs.Net.Error.{ClientError}
use s2c_rs.Net.Client.{
  not_connected, connected, ready, closed, admitted, free, handshaking, draining, Reader, Writer,
  Client, set_call,
}

unfoldable pub handshake_message : Context → Bytes → S2cMessage
handshake_message context id = record {
  correlation_id = id;
  body = some (
      handshake
        (record { group_id = context.s2c_group_id; node_identity = some context.node_identity }));
  error = none;
}

-- `runs` tells whether a task that is spawned under the token starts, by whether the token is
-- cancelled already.
module _ (runs : Bool → Bool) (C : Codec S2cMessage) where
  unfoldable pub spawn_drain_in : Client → Client
  spawn_drain_in c = record c { reader = if runs c.cancelled then Reader.checks else Reader.gone }

  -- The new writer holds nothing.
  unfoldable pub spawn_drain_out : Client → Client
  spawn_drain_out c = record c {
    stream = [];
    writer = if runs c.cancelled then Writer.checks else Writer.gone;
  }

  -- `handshake` up to its call of `send_and_await_response`, which `connect` awaits under the lock.
  abbrev pub begin_handshake : ℕ → Bytes → Client → Client
  begin_handshake k id c = record c {
    rw_lock = handshaking k;
    calls = set_call k (admitted id (C.encode (handshake_message c.context id))) c.calls;
  }

  -- `connect` on a client that is not connected, with the result of the TCP connection, up to the
  -- first section of its handshake.
  unfoldable pub connect_tcp : ℕ → Bytes → Result (Unit {0}) ClientError → Client → Client
  unfolding handshake_message spawn_drain_in spawn_drain_out
  connect_tcp k id (err e) c = record c { tracker_closed = false }
  connect_tcp k id (ok u) c =
      let stored = record c { tracker_closed = false; client_state = connected } in
      begin_handshake k id (spawn_drain_out (spawn_drain_in stored))

  unfoldable pub connect : ℕ → Bytes → Result (Unit {0}) ClientError → Client → Client
  connect k id tcp c = elim c.client_state [
    | not_connected ↦ connect_tcp k id tcp c
    | connected ↦ c
    | ready ↦ c
    | closed ↦ c
  ]

-- `task_tracker.close()`, and the token's `cancel` and the wait where it was open.
unfoldable pub cancel_tasks : Client → Client
cancel_tasks c =
    if c.tracker_closed
    then record c { rw_lock = free }
    else record c { tracker_closed = true; cancelled = true; rw_lock = draining }

unfoldable pub is_handshake : Option Body → Bool
is_handshake (some (handshake h)) = true
is_handshake (some (state_request r)) = false
is_handshake (some (state_request_response r)) = false
is_handshake (some (replicate_request r)) = false
is_handshake (some (replicate_response r)) = false
is_handshake (some (follow f)) = false
is_handshake (some follow_response) = false
is_handshake none = false

-- `connect` after its handshake; another response is a panic, which gives the lock back.
unfoldable pub handshaken : Result S2cMessage ClientError → Client → Client
unfolding cancel_tasks is_handshake
handshaken (ok m) c =
    if is_handshake m.body
    then record c { client_state = ready; rw_lock = free }
    else record c { rw_lock = free }
handshaken (err e) c = cancel_tasks (record c { client_state = not_connected })

unfoldable pub close : Client → Client
unfolding cancel_tasks
close c = elim c.client_state [
  | closed ↦ c
  | not_connected ↦ cancel_tasks (record c { client_state = closed })
  | connected ↦ cancel_tasks (record c { client_state = closed })
  | ready ↦ cancel_tasks (record c { client_state = closed })
]
