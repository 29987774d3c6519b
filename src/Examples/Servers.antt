-- ===== src/Examples/Servers.antt =====
-- A server that starts, and what it answers.
use s2c_rs.Base.{
  Bool-cases, inl, inr, ◌==◌, false, ℕ, ◌≡◌, refl, true, [], ◌∷◌, ◌++◌, map, some, Bytes, codes,
  Result, err, returns, replicate, arith,
}
use s2c_rs.Config.{default_retry}
use s2c_rs.Net.Framing.{Reader, frame}
use s2c_rs.Net.Framing.Stream.{frames}
use s2c_rs.Net.Framing
use s2c_rs.Net.Client.Connection.{handshake_message}
use s2c_rs.Net.Server.{
  ServerState, not_bound, binding, closed, shake, Connection, start, GroupServers, group_of,
  register_group_server,
}
use s2c_rs.Net.Server.Tasks.{
  Server, new, begin_start, end_start, check_accept, Reach, later, begins, starts, checks,
}
use s2c_rs.Net.Server.Closing.{binds, stays, goes, closed_for_good}
use s2c_rs.Net.Server.Tasks
use s2c_rs.Net.Server.Single.{one_owner}
use s2c_rs.Net.Server.Greeting.{good, shake_lem}
use s2c_rs.Examples.Messages.{message_codec, message_codec_laws}
use s2c_rs.Examples.Frames.{agreement}
use s2c_rs.Examples.Clients.{greeting}
use s2c_rs.Examples.Nodes.{node_a}

-- The first call of `start` has bound the port.
abbrev serving : Server
serving = end_start 0 true (begin_start 0 new)

abbrev first : ℕ
first = 0

one_owner_example : first ≡ first
unfolding new begin_start Tasks.exchange s2c_rs.Net.Server.Single.owns end_start
one_owner_example =
    one_owner serving first first (later (later Tasks.start (begins 0 refl)) (starts 0 true refl))
      refl refl

nobody_binds : (k : ℕ) → binds (serving.tasks k) ≡ false
unfolding new begin_start Tasks.exchange end_start binds
nobody_binds k = elim (Bool-cases (0 == k)) [ inl e ↦ rw e refl | inr e ↦ rw e refl ]

-- The serving task meets the closed server.
closed_for_good_example :
    let last = check_accept 0 (Tasks.close serving) in
    (last.server_state ≡ closed) × (last.connections ≡ serving.connections)
unfolding new begin_start Tasks.exchange end_start Tasks.close Tasks.is_closed
closed_for_good_example =
    closed_for_good serving (check_accept 0 (Tasks.close serving)) nobody_binds
      (goes stays (checks 0 refl))

abbrev reader : Reader
reader = Framing.new 512000

-- Behind a message that is none, a handshake.
shake_lem_example :
    shake (codes "eof") message_codec reader (replicate 2 good) (
      frames (map message_codec.encode (agreement ∷ []))
      ++ (frame (message_codec.encode greeting) ++ []))
    ≡ record {
      result = some (record { group_id = codes "g"; node_identity = some node_a });
      written = frame (message_codec.encode greeting);
      ended = true;
    }
unfolding Framing.new s2c_rs.Net.Server.handshake_of handshake_message s2c_rs.Context.new
shake_lem_example =
    shake_lem (codes "eof") message_codec message_codec_laws (agreement ∷ []) greeting _ reader []
      (omega arith) (omega arith, tt) (refl, tt) (omega arith) refl

-- The port is in use.
abbrev in_use : ℕ → Result (Unit {0}) Bytes × ℕ
in_use s = (err (codes "in use"), s)

failed : start in_use 20 default_retry not_bound 0 ≡ returns ((err (codes "in use"), binding), 0)
unfolding start s2c_rs.Net.Server.compare_and_exchange s2c_rs.Net.Server.bind
    s2c_rs.Net.Server.bind_loop s2c_rs.Backoff.can_attempt s2c_rs.Backoff.new
    s2c_rs.Backoff.await_attempt s2c_rs.Net.Server.started
failed = refl
