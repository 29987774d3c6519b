-- ===== src/Net/Client/Calls.antt =====
-- `send` and `send_and_await_response` of `S2cClient`, section by section.
use s2c_rs.Base.{ℕ, [], ◌∷◌, ◌++◌, Option, none, some, Bytes, ok, err}
use s2c_rs.Net.Error.{ClientError}
use s2c_rs.Net.Error
use s2c_rs.Net.Inflight.{Slot, waiting, dropped, answered, add, discard}
use s2c_rs.Net.Client.{
  ClientState, not_connected, connected, ready, closed, admitted, registered, queued, returned,
  Client, set_call,
}

-- Why `send` refuses in a state.
unfoldable pub refusal : ClientState → Option ClientError
refusal closed = some Error.closed
refusal not_connected = some Error.not_connected
refusal connected = none
refusal ready = none

-- `send` under the read lock.
unfoldable pub send : ℕ → Bytes → Bytes → Client → Client
unfolding refusal
send k id payload c = elim (refusal c.client_state) [
  | some e ↦ record c { calls = set_call k (returned id (err e)) c.calls }
  | none ↦ record c { calls = set_call k (admitted id payload) c.calls }
]

unfoldable pub register : ℕ → Bytes → Bytes → Client → Client
register k id payload c =
    let (channel, q) = add id c.inflight_requests in
    record c { inflight_requests = q; calls = set_call k (registered id payload channel) c.calls }

-- `self.sender.send(payload)`, once there is room.
unfoldable pub enqueue : ℕ → Bytes → Bytes → ℕ → Client → Client
enqueue k id payload channel c = record c {
  receiver = c.receiver ++ (payload ∷ []);
  calls = set_call k (queued id channel) c.calls;
}

-- The same on a closed channel. The registration stays.
unfoldable pub refuse : ℕ → Bytes → Client → Client
refuse k id c = record c { calls = set_call k (returned id (err Error.not_connected)) c.calls }

-- A call that fails takes its registration out.
unfoldable pub give_up : ℕ → Bytes → ClientError → Client → Client
give_up k id e c = record c {
  inflight_requests = discard id c.inflight_requests;
  calls = set_call k (returned id (err e)) c.calls;
}

-- What the receiver of the channel gives; it still waits where the slot does.
unfoldable pub settle_call : ℕ → Bytes → Slot → Client → Client
unfolding give_up
settle_call k id waiting c = c
settle_call k id dropped c = give_up k id Error.not_connected c
settle_call k id (answered (ok m)) c = record c { calls = set_call k (returned id (ok m)) c.calls }
settle_call k id (answered (err e)) c = give_up k id e c

unfoldable pub time_out : ℕ → Bytes → Client → Client
time_out k id c = give_up k id Error.timeout c
