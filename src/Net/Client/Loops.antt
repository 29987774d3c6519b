-- ===== src/Net/Client/Loops.antt =====
-- `drain_in` and `drain_out` of `S2cClient`, section by section.
use s2c_rs.Base.{
  ℕ, take, Bool, true, false, List, ◌++◌, Option, none, some, Bytes, Result, ok, err, if◌then◌else◌,
}
use s2c_rs.Proto.{
  S2cMessage, S2cError, not_leader_error, leader_starting_error, not_follower_error,
  slow_down_error, internal_error, unknown_group_error,
}
use s2c_rs.Net.Error.{NetworkError}
use s2c_rs.Net.Error
use s2c_rs.Net.Framing.{frame}
use s2c_rs.Net.Inflight.{respond, fail_all}
use s2c_rs.Net.Client.{not_connected, running, Reader, Writer, Client}

-- The test of `running` at the head of `drain_in`.
unfoldable pub check_in : Client → Client
check_in c = record c { reader = if running c.client_state then Reader.reads else Reader.gone }

unfoldable pub is_slow_down : S2cError → Bool
is_slow_down slow_down_error = true
is_slow_down not_leader_error = false
is_slow_down leader_starting_error = false
is_slow_down not_follower_error = false
is_slow_down internal_error = false
is_slow_down unknown_group_error = false

-- A message with an error is not given to the call that waits for it.
unfoldable pub take_message : Option S2cError → S2cMessage → Client → Client
unfolding is_slow_down
take_message (some e) m c = record c {
  throttle = if is_slow_down e then true else c.throttle;
  reader = Reader.checks;
}
take_message none m c = record c {
  inflight_requests = respond m c.inflight_requests;
  reader = Reader.checks;
}

-- What comes of a read: after a failed one everybody who waits is answered with the error.
unfoldable pub after_read : Result S2cMessage NetworkError → Client → Client
unfolding take_message
after_read (ok m) c =
    if running c.client_state then take_message m.error m c else record c { reader = Reader.gone }
after_read (err e) c = record c {
  inflight_requests = fail_all (Error.ClientError.io e) c.inflight_requests;
  reader = Reader.failed;
}

-- The end of `drain_in` after a failed read.
unfoldable pub disconnect : Client → Client
disconnect c = record c { cancelled = true; client_state = not_connected; reader = Reader.gone }

-- The tests at the head of `drain_out`.
unfoldable pub check_out : Client → Client
check_out c = record c {
  writer =
      if running c.client_state
      then (if c.throttle then Writer.sleeps else Writer.receives)
      else Writer.gone;
}

unfoldable pub wake : Client → Client
wake c = record c { throttle = false; writer = Writer.receives }

-- A payload is taken from the channel. `failed` is the number of bytes of its frame that the writer
-- took before the write failed, if it does.
unfoldable pub write_out : Bytes → List Bytes → Option ℕ → Client → Client
write_out payload rest failed c =
    let taken = record c { receiver = rest } in
    if running c.client_state
    then elim failed [
      | none ↦ record taken {
        stream = c.stream ++ frame payload;
        written = c.written ++ frame payload;
        writer = Writer.checks;
      }
      | some n ↦ record taken {
        stream = c.stream ++ take n (frame payload);
        written = c.written ++ take n (frame payload);
        client_state = not_connected;
        writer = Writer.gone;
      }
    ]
    else record taken { writer = Writer.gone }
