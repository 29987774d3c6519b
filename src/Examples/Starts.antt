-- ===== src/Examples/Starts.antt =====
-- A follower whose channel is closed, on a store in memory.
use s2c_rs.Base.{[], ◌≢◌, ◌∷◌, inl, inr, Option-cases, returns, replicate, arith}
use s2c_rs.Fsm.{Fsm, follower}
use s2c_rs.Fsm.Leadership.Stays.{FailsMildly}
use s2c_rs.Fsm.Start.{Shift, start}
use s2c_rs.Fsm.Start.Stays.{start_goes_on}
use s2c_rs.Fsm.Follower.{elapsed, channel_closed}
use s2c_rs.Examples.Memory.{find, memory}
use s2c_rs.Examples.Serial.{codec, batch, state_requests}
use s2c_rs.Examples.Messages.{message_codec}
use s2c_rs.Examples.Nodes.{fsm_b, entry_codec}
use s2c_rs.Examples.Joins.{silent}

memory-FailsMildly : FailsMildly memory
memory-FailsMildly p v s e h = elim (Option-cases (find p s)) [
  | inl n ↦ ground arith
  | inr (w, n) ↦ inl (ground arith)
]

abbrev following : Fsm
following = record fsm_b { state = follower }

-- A heartbeat is missed, and then the channel is closed.
abbrev shift : Shift
shift = record { events = elapsed ∷ channel_closed ∷ []; rounds = [] }

start_goes_on_example :
    start memory silent entry_codec message_codec
      (codec state_requests)
      (codec batch)
      3
      3
      following
      (replicate 7 shift)
      []
    ≢ returns (following, [])
start_goes_on_example =
    start_goes_on memory memory-FailsMildly silent entry_codec message_codec (codec state_requests)
      (codec batch) 3 3 following following (replicate 7 shift) [] [] (λ h. cc)
