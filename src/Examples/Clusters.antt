-- ===== src/Examples/Clusters.antt =====
-- Two nodes that try to lead at the same time.
use s2c_rs.Base.{ℕ, suc, zero, ◌≡◌, ◌↔◌, refl, [], codes, returns}
use s2c_rs.Config.{default_options}
use s2c_rs.Proto.{NodeIdentity}
use s2c_rs.Fsm.{leader}
use s2c_rs.Fsm.Leadership.{won}
use s2c_rs.Fsm.Cluster.{
  rests, fsm_of, begin_attempt, create, Cluster, set_node, new_cluster, begins, tries_create, Reach,
  start, later,
}
use s2c_rs.Fsm.Cluster.Failover.{no_failover}
use s2c_rs.Fsm.Cluster.Leaders.{one_leader_per_epoch}
use s2c_rs.Fsm
use s2c_rs.Fsm.Start.{Shift, turn}
use s2c_rs.Fsm.Join.Reads.{LinkKeeps}
use s2c_rs.Fsm.Cluster.Turns.{Gets, turn_in_steps}
use s2c_rs.Examples.Frames.{plain}
use s2c_rs.Examples.Joins.{silent, a_joins}
use s2c_rs.Examples.Memory.{memory, memory_laws}
use s2c_rs.Examples.Serial.{codec, batch, state_requests}
use s2c_rs.Examples.Nodes.{node_a, node_b, fsm_a, entry_codec, after_a}

abbrev identities : ℕ → NodeIdentity
identities zero = node_a
identities (suc k) = node_b

abbrev group : Cluster memory
group = new_cluster memory (codes "g") (λ k. default_options) identities []

abbrev begun : Cluster memory
begun = record group {
  nodes =
      set_node 1 (begin_attempt (fsm_of (group.nodes 1)))
        (set_node 0 (begin_attempt (fsm_of (group.nodes 0))) group.nodes);
}

abbrev after : ℕ → Cluster memory → Cluster memory
after k c = record {
  nodes = set_node k (create memory entry_codec (c.nodes k) c.store).0 c.nodes;
  store = (create memory entry_codec (c.nodes k) c.store).1;
}

-- Both have begun when the second one makes its create, and then the first one.
abbrev led : Cluster memory
led = after 0 (after 1 begun)

begun-Reach : Reach memory memory_laws entry_codec (codec state_requests) (codec batch) group begun
unfolding new_cluster
begun-Reach =
    later (later start (begins 0 (fsm_of (group.nodes 0)) refl refl))
      (begins 1 (fsm_of (group.nodes 1)) refl refl)

led-Reach : Reach memory memory_laws entry_codec (codec state_requests) (codec batch) group led
led-Reach = later (later begun-Reach (tries_create 1)) (tries_create 0)

second_leads : (fsm_of (led.nodes 1)).state ≡ leader
unfolding create begin_attempt new_cluster won
second_leads = refl

abbrev second : ℕ
second = 1

one_leader_per_epoch_example : second ≡ second
one_leader_per_epoch_example =
    one_leader_per_epoch memory memory_laws entry_codec (codec state_requests) (codec batch)
      (codes "g") (λ k. default_options) identities [] led second second led-Reach second_leads
      second_leads refl

-- The one that lost begins again.
abbrev again : Cluster memory
again = record led { nodes = set_node 0 (begin_attempt (fsm_of (led.nodes 0))) led.nodes }

again-Reach : Reach memory memory_laws entry_codec (codec state_requests) (codec batch) led again
unfolding create begin_attempt new_cluster won s2c_rs.Log.entry_path s2c_rs.Paths.log_entry
    s2c_rs.Paths.new s2c_rs.Paths.Decimal.decimal s2c_rs.Paths.Decimal.digits s2c_rs.Paths.invert
    s2c_rs.Fsm.Leadership.next_index s2c_rs.Log.append_again s2c_rs.Fsm.Leadership.lost
again-Reach = later start (begins 0 (fsm_of (led.nodes 0)) refl refl)

abbrev first : ℕ
first = 0

no_failover_example : ((fsm_of (again.nodes first)).state ≡ leader) ↔ (second ≡ first)
no_failover_example =
    no_failover memory memory_laws entry_codec (codec state_requests) (codec batch) (codes "g")
      (λ k. default_options) identities [] led again second first led-Reach again-Reach second_leads

-- The first node at rest, with nothing stored.
abbrev alone : Cluster memory
alone = record { nodes = λ k. rests fsm_a; store = [] }

silent-LinkKeeps : LinkKeeps memory memory_laws silent
silent-LinkKeeps = record {
  connect_keeps = λ id s q w h. h;
  send_keeps = λ id payload s q w h. h;
  new_id_keeps = λ s q w h. h;
}

abbrev no_shift : Shift
no_shift = record { events = []; rounds = [] }

a_turns :
    turn memory silent entry_codec plain (codec state_requests) (codec batch) 3 3 fsm_a no_shift []
    ≡ returns (won fsm_a, after_a)
unfolding turn Fsm.new
a_turns = a_joins

turn_in_steps_example :
    Gets memory memory_laws entry_codec
      (codec state_requests)
      (codec batch)
      alone
      0
      (rests (won fsm_a))
      after_a
turn_in_steps_example =
    turn_in_steps memory memory_laws entry_codec (codec state_requests) (codec batch) alone 0 silent
      silent-LinkKeeps plain 3 3 fsm_a (won fsm_a) no_shift after_a refl a_turns
