-- ===== src/Examples/Groups.antt =====
-- The group server with one client.
use s2c_rs.Base.{drop, ◌≡◌, refl, List, [], ◌∷◌, ◌++◌, map, true, codes, arith}
use s2c_rs.Proto.{S2cMessageEnvelope}
use s2c_rs.Net.Framing.Stream.{verdict, frames}
use s2c_rs.Net.Group.{
  GroupServer, has_node, handle_client, start_read_loop, drain_out, inner_drain_out, Outgoing,
}
use s2c_rs.Net.Group
use s2c_rs.Net.Group.Routing.{to_node, message_of, first_message_lost}
use s2c_rs.Net.Group.Delivery.{for_node, until_error, read_loop-frames}
use s2c_rs.Examples.Frames.{plain, turned_down, agreement, payloads, small_reader}
use s2c_rs.Examples.Nodes.{node_a, node_b}

b_known : has_node node_b (node_a ∷ node_b ∷ []) ≡ true
unfolding has_node Group.is_node
b_known = refl

-- Two messages to one node, and one to another between them.
abbrev mixed : List Outgoing
mixed =
    map (λ x. record { message = x; clients_ins = node_a ∷ node_b ∷ [] })
      (for_node node_b turned_down ∷ for_node node_a agreement ∷ for_node node_b agreement ∷ [])

first_message_lost_example :
    to_node node_b (inner_drain_out [] mixed) ≡ drop 1 (to_node node_b (map message_of mixed))
first_message_lost_example = first_message_lost node_b mixed (b_known, (b_known, (b_known, tt)))

-- Of the two messages, one.
one_left : to_node node_b (inner_drain_out [] mixed) ≡ for_node node_b agreement ∷ []
unfolding has_node Group.is_node inner_drain_out
one_left = refl

abbrev group_started : GroupServer
group_started = record { running = true; clients_ins = node_b ∷ [] }

abbrev outgoing : List S2cMessageEnvelope
outgoing = for_node node_a turned_down ∷ for_node node_a agreement ∷ []

read_loop-frames_example :
    start_read_loop
      (codes "eof")
      plain
      small_reader
      node_a
      (map (λ p. (true, true)) payloads)
      (frames payloads ++ [])
    ≡ until_error node_a (map (verdict plain 4) payloads)
read_loop-frames_example =
    read_loop-frames (codes "eof") plain payloads small_reader node_a []
      (omega arith, (omega arith, (omega arith, (omega arith, tt))))
