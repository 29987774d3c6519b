-- ===== src/Examples/Leaders.antt =====
-- A leader that is sent a request and a follow request.
use s2c_rs.Base.{
  ◌≡◌, refl, ◌≢◌, inl, inr, Option-cases, err, [], ◌∷◌, none, some, Bytes, codes, true, false,
  arith, returns,
}
use s2c_rs.Failure.{already_exists}
use s2c_rs.Codec.{Codec}
use s2c_rs.Proto.{S2cMessageEnvelope, StateRequest, Batch, command, state_request, follow}
use s2c_rs.Fsm.{Fsm, leader, not_joined}
use s2c_rs.Fsm
use s2c_rs.Fsm.Leadership.{won}
use s2c_rs.Fsm.Leader.{Round, Pending, elapsed, take_all, batch_entries, leader_loop}
use s2c_rs.Fsm.Leader.Persistence.{new_leader_persists_nothing}
use s2c_rs.Examples.Serial.{codec, batch, state_requests}
use s2c_rs.Examples.Memory.{Objects, memory, memory_laws, create, find}
use s2c_rs.Examples.Nodes.{node_b, fsm_a, entry_codec, after_a}
use s2c_rs.Examples.Elections.{a_wins, a_leads, not_leader}

abbrev request : StateRequest
request = record {
  body = codes "inc";
  kind = command;
  group_id = codes "g";
  internal = false;
  leader_command = false;
}

abbrev asks : S2cMessageEnvelope
asks = record {
  s2c_message = record {
    correlation_id = codes "1";
    body = some (state_request request);
    error = none;
  };
  node_identity = node_b;
}

abbrev follows : S2cMessageEnvelope
follows = record {
  s2c_message = record {
    correlation_id = codes "2";
    body =
        some
          (follow (record { apply_index = 0; node_identity = some node_b; group_id = codes "g" }));
    error = none;
  };
  node_identity = node_b;
}

abbrev nothing_yet : Pending
nothing_yet = record { fsm = won fsm_a; acc = [] }

abbrev request_codec : Codec StateRequest
request_codec = codec state_requests

abbrev batch_codec : Codec Batch
batch_codec = codec batch

memory-CreatesOnce :
    (p v : Bytes) (t : Objects)
    → find p t ≢ none
    → ((create p v t).0 ≡ err already_exists) × ((create p v t).1 ≡ t)
memory-CreatesOnce p v t h = elim (Option-cases (find p t)) [
  | inl e ↦ absurd (h e)
  | inr (w, e) ↦ ground arith
]

abbrev flushing : Round
flushing = record {
  next = elapsed;
  local_requests = asks ∷ [];
  requests = follows ∷ [];
  interval_over = true;
}

abbrev after_flush : Pending
after_flush = record { fsm = record (won fsm_a) { followers = node_b ∷ [] }; acc = [] }

one_round :
    leader_loop memory request_codec batch_codec 1 nothing_yet (flushing ∷ []) after_a
    ≡ returns (after_flush, after_a)
unfolding leader_loop s2c_rs.Fsm.Leader.is_closed s2c_rs.Fsm.Leader.leader_round take_all
    s2c_rs.Fsm.Leader.first_due s2c_rs.Fsm.Leader.take_due s2c_rs.Fsm.Leader.add_follower
    s2c_rs.Fsm.Leader.flush batch_entries s2c_rs.Fsm.Leader.batch_entry s2c_rs.Log.append
    s2c_rs.Log.append_loop s2c_rs.Log.entry_path s2c_rs.Paths.log_entry s2c_rs.Log.new
    s2c_rs.Paths.new won s2c_rs.Fsm.Leadership.next_index s2c_rs.Log.append_again
    s2c_rs.Paths.Decimal.decimal s2c_rs.Paths.Decimal.digits s2c_rs.Paths.invert Fsm.new
one_round = refl

new_leader_persists_nothing_example : after_a ≡ after_a
unfolding Fsm.new
new_leader_persists_nothing_example =
    new_leader_persists_nothing memory memory_laws memory-CreatesOnce request_codec batch_codec
      entry_codec 3 3 0 fsm_a (won fsm_a) [] after_flush (flushing ∷ []) [] after_a after_a
      not_leader a_wins a_leads one_round
