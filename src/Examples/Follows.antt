-- ===== src/Examples/Follows.antt =====
-- A node whose client is ready, in front of a log with a leader that answers.
use s2c_rs.Base.{
  ℕ, suc, ◌≤◌, ◌≡◌, refl, subst, Option, some, ◌≢◌, true, false, not, List, [], ◌∷◌, ◌++◌, none,
  Bytes, codes, ok, err, returns, arith, ◌==◌, if◌then◌else◌,
}
use s2c_rs.Config.{default_options}
use s2c_rs.Paths.{log_entry}
use s2c_rs.Net.Inflight.{InflightRequests, add, respond, lookup, answered}
use s2c_rs.Net.Client.{
  Client, ready, idle, admitted, registered, queued, returned, free, Reader, Writer, Call,
}
use s2c_rs.Net.Client
use s2c_rs.Net.Client.Calls.{register, enqueue, settle_call}
use s2c_rs.Net.Client.Connection.{handshaken}
use s2c_rs.Net.Client.Loops.{check_in, after_read, check_out, write_out}
use s2c_rs.Net.Client.System.{Reach, later, shakes}
use s2c_rs.Fsm.{Fsm, follower}
use s2c_rs.Fsm
use s2c_rs.Fsm.Leadership.{leadership_entry}
use s2c_rs.Fsm.Join.{Link, join}
use s2c_rs.Fsm.Join.Answers.{FollowAnswer}
use s2c_rs.Fsm.Start.{Shift}
use s2c_rs.Fsm.Start.Rounds.{turns}
use s2c_rs.Fsm.Start.Followed.{follower_was_answered}
use s2c_rs.Fsm.Follower.{elapsed, channel_closed}
use s2c_rs.Examples.Serial.{codec, batch, state_requests}
use s2c_rs.Examples.Messages.{message_codec}
use s2c_rs.Examples.Nodes.{fsm_a, fsm_b, entry_codec, after_a}
use s2c_rs.Examples.Clients.{context, fresh, greeting, shaken, settled-Reach}
use s2c_rs.Examples.Answers.{Live, live_client, live_memory, answering, answering-HasClient}

shaken_unused : (k : ℕ) → 1 ≤ k → shaken.calls k ≡ idle
unfolding settle_call after_read Client.running check_in write_out check_out enqueue register
    s2c_rs.Net.Client.Connection.connect Client.new s2c_rs.Net.Client.Connection.connect_tcp
    s2c_rs.Net.Client.Connection.spawn_drain_in s2c_rs.Net.Client.Connection.spawn_drain_out respond
    lookup add s2c_rs.Net.Inflight.Bytes-discrete s2c_rs.Base.ℕ_discrete s2c_rs.Net.Inflight.new
    s2c_rs.Net.Inflight.remove s2c_rs.Net.Client.Connection.handshake_message
    s2c_rs.Net.Client.Loops.take_message handshaken s2c_rs.Net.Client.Connection.is_handshake
shaken_unused k h = ground arith

-- What `get_head` names is found under the plain index.
shaken_state : Live
shaken_state = record {
  objects =
      after_a
      ++ ((log_entry fsm_a.s2c_log.keys 1, entry_codec.encode (leadership_entry fsm_a)) ∷ []);
  table = shaken.inflight_requests;
  calls = shaken.calls;
  stream = shaken.stream;
  written = shaken.written;
  spare = 1;
  unused = shaken_unused;
}

shaken-Reach : Reach not message_codec fresh (live_client shaken_state)
unfolding settle_call after_read Client.running check_in write_out check_out enqueue register
    s2c_rs.Net.Client.Connection.connect Client.new s2c_rs.Net.Client.Connection.connect_tcp
    s2c_rs.Net.Client.Connection.spawn_drain_in s2c_rs.Net.Client.Connection.spawn_drain_out respond
    lookup add s2c_rs.Net.Inflight.Bytes-discrete s2c_rs.Base.ℕ_discrete s2c_rs.Net.Inflight.new
    s2c_rs.Net.Inflight.remove s2c_rs.Net.Client.Connection.handshake_message
    s2c_rs.Net.Client.Loops.take_message handshaken s2c_rs.Net.Client.Connection.is_handshake
    shaken_state
shaken-Reach = later settled-Reach (shakes 0 (codes "h") (ok greeting) refl refl)

-- It joins, and then its channel is closed after a missed heartbeat.
abbrev shifts : List Shift
shifts =
    record { events = []; rounds = [] }
    ∷ record { events = elapsed ∷ channel_closed ∷ []; rounds = [] }
    ∷ []

abbrev followed : Fsm
followed = record fsm_b { state = follower; missed_heartbeats = 1 }

joined :
    (t : Live) × (turns live_memory answering entry_codec message_codec
        (codec state_requests)
        (codec batch)
        7
        7
        fsm_b
        shifts
        shaken_state
      ≡ returns (followed, t))
unfolding s2c_rs.Fsm.new s2c_rs.Fsm.Join.join s2c_rs.Fsm.Join.join_loop s2c_rs.Fsm.Join.join_round
    s2c_rs.Fsm.Join.discover_leader_state s2c_rs.Fsm.Join.discover_loop s2c_rs.Log.get_head
    s2c_rs.Log.head_loop shaken_state s2c_rs.Log.head_index s2c_rs.Paths.Decimal.parse_u64
    s2c_rs.Log.entry_path log_entry s2c_rs.Log.new s2c_rs.Paths.new s2c_rs.Paths.Decimal.decimal
    s2c_rs.Paths.Decimal.digits s2c_rs.Paths.Decimal.scan s2c_rs.Paths.invert s2c_rs.Log.get_at
    s2c_rs.Log.get_loop s2c_rs.Fsm.Join.after_discover s2c_rs.Fsm.Join.parse_leader_state
    s2c_rs.Fsm.Join.join_leader s2c_rs.Fsm.Join.connect s2c_rs.Fsm.Join.connect_loop
    s2c_rs.Fsm.Join.after_connect s2c_rs.Fsm.Join.is_wrong_state s2c_rs.Fsm.Join.try_leadership
    s2c_rs.Backoff.await_attempt s2c_rs.Backoff.can_attempt s2c_rs.Backoff.new
    s2c_rs.Fsm.Leadership.attempt_leadership leadership_entry s2c_rs.Fsm.Leadership.leadership_loop
    s2c_rs.Fsm.Leadership.next_epoch s2c_rs.Fsm.Leadership.next_index s2c_rs.Fsm.Leadership.won
    s2c_rs.Log.append s2c_rs.Log.append_loop s2c_rs.Fsm.Join.after_follow
    s2c_rs.Fsm.Join.follow_leader s2c_rs.Fsm.Join.follow_loop s2c_rs.Fsm.Start.turn
    s2c_rs.Fsm.Follower.follower_loop s2c_rs.Fsm.Follower.follower_step
    s2c_rs.Fsm.Follower.on_timeout
joined = (_, refl)

follower_was_answered_example :
    (a : FollowAnswer live_memory answering not message_codec fsm_b
      (live_client shaken_state)
      (live_client joined.0))
    × (a.message.correlation_id ≡ a.id)
    × (a.message.error ≡ none)
unfolding Fsm.new
follower_was_answered_example =
    follower_was_answered live_memory answering not message_codec live_client answering-HasClient
      default_options context entry_codec (codec state_requests) (codec batch) 7 7 fsm_b followed
      shifts shaken_state joined.0 shaken-Reach (λ k. cc) joined.1 refl
