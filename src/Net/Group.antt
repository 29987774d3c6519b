-- ===== src/Net/Group.antt =====
-- src/network/group_server.rs: the three loops of `GroupServer` and the registration of a client.
-- A round of a loop carries what it loads and receives; the lists of rounds are the loops' fuel.
pub mod Delivery
pub mod Routing
use s2c_rs.Base.{
  ℕ, ◌+◌, ◌-◌, List, [], ◌∷◌, ◌++◌, Option, none, some, Bool, true, false, ◌&&◌, ◌||◌, ◌==◌, Bytes,
  Result, ok, err, length, take, replicate, if◌then◌else◌, eq_bytes,
}
use s2c_rs.Codec.{Codec}
use s2c_rs.Proto.{NodeIdentity, S2cMessage, S2cMessageEnvelope}
use s2c_rs.Net.Error.{NetworkError}
use s2c_rs.Net.Framing.{Reader, frame, read_next_message}

-- The derived equality of `NodeIdentity`, by which both maps are keyed.
unfoldable pub is_node : NodeIdentity → NodeIdentity → Bool
is_node m n =
    eq_bytes m.id n.id && eq_bytes m.address n.address && m.port == n.port && eq_bytes m.az n.az

unfoldable pub has_node : NodeIdentity → List NodeIdentity → Bool
has_node n [] = false
has_node n (m ∷ ms) = is_node n m || has_node n ms

-- The keys of `clients_ins`, and whether the server runs.
pub record GroupServer : Type 0 where
  pub running : Bool
  pub clients_ins : List NodeIdentity

unfoldable pub new : GroupServer
new = record { running = false; clients_ins = [] }

-- `start`, with whether the task is spawned, and `close`, with whether the token is cancelled.
unfoldable pub start : GroupServer → Bool × GroupServer
start g = if g.running then (false, g) else (true, record g { running = true })

unfoldable pub close : GroupServer → Bool × GroupServer
close g = if g.running then (true, record g { running = false }) else (false, g)

-- With the registered client come its two loops: `true` says that they are spawned.
unfoldable pub handle_client : NodeIdentity → GroupServer → Bool × GroupServer
handle_client n g =
    if g.running && (if has_node n g.clients_ins then false else true)
    then (true, record g { clients_ins = n ∷ g.clients_ins })
    else (false, g)

-- What a read loop handed on, and whether it has ended and cancelled the group.
pub record ReadLoop : Type 0 where
  pub forwarded : List S2cMessageEnvelope
  pub cancelled : Bool
  pub ended : Bool

-- What comes of a read, by `running` as it is loaded after it and what the later rounds do.
unfoldable pub handed_on :
    NodeIdentity → Bool → Result S2cMessage NetworkError → ReadLoop → ReadLoop
handed_on node true (ok m) later = record later {
  forwarded = record { s2c_message = m; node_identity = node } ∷ later.forwarded;
}
handed_on node false (ok m) later = record { forwarded = []; cancelled = false; ended = true }
handed_on node true (err e) later = record { forwarded = []; cancelled = true; ended = true }
handed_on node false (err e) later = record { forwarded = []; cancelled = true; ended = true }

module _ (eof : Bytes) (C : Codec S2cMessage) where
  -- `running` as it is loaded before and after each read.
  unfoldable pub start_read_loop : Reader → NodeIdentity → List (Bool × Bool) → Bytes → ReadLoop
  start_read_loop r node [] arriving = record { forwarded = []; cancelled = false; ended = false }
  start_read_loop r node ((before, after) ∷ rounds) arriving =
      let f = read_next_message eof C r arriving in
      let later = start_read_loop f.reader node rounds f.rest in
      if before
      then handed_on node after f.result later
      else record { forwarded = []; cancelled = false; ended = true }

-- A round of `drain_out`: the load, what is received, and the number of bytes of the frame that the
-- writer took before the write failed, if it does.
pub record Sending : Type 0 where
  pub running : Bool
  pub message : Option S2cMessageEnvelope
  pub failed : Option ℕ

-- What was handed to the `BufWriter`, which is never flushed, and whether the group was cancelled.
pub record DrainOut : Type 0 where
  pub written : Bytes
  pub cancelled : Bool

-- `BytesMut::resize` with zeros.
unfoldable pub resized : Bytes → ℕ → Bytes
resized buf size = take size buf ++ replicate (size - length buf) 0

module _ (C : Codec S2cMessage) where
  -- `encode` appends to the resized buffer; `split` empties it.
  unfoldable pub drain_out : Bytes → List Sending → DrainOut
  drain_out buf [] = record { written = []; cancelled = false }
  drain_out buf (x ∷ xs) =
      let idle = drain_out buf xs in
      let next = drain_out [] xs in
      let skipped = λ (m : S2cMessage). drain_out (resized buf (C.encoded_len m)) xs in
      if x.running
      then elim x.message [
        | none ↦ idle
        | some e ↦ elim (C.encode_into e.s2c_message (resized buf (C.encoded_len e.s2c_message))) [
          | none ↦ skipped e.s2c_message
          | some payload ↦ elim x.failed [
            | none ↦ record next { written = frame payload ++ next.written }
            | some n ↦ record { written = take n (frame payload); cancelled = true }
          ]
        ]
      ]
      else record { written = []; cancelled = false }

-- A round of `inner_drain_out`: the message, and the keys of `clients_ins` when they are read.
pub record Outgoing : Type 0 where
  pub message : S2cMessageEnvelope
  pub clients_ins : List NodeIdentity

-- The messages that reach a client's channel, by the nodes whose senders are known already.
unfoldable pub inner_drain_out : List NodeIdentity → List Outgoing → List S2cMessageEnvelope
inner_drain_out known [] = []
inner_drain_out known (x ∷ xs) =
    let n = x.message.node_identity in
    let rest = inner_drain_out known xs in
    let learned = inner_drain_out (n ∷ known) xs in
    if has_node n known
    then x.message ∷ rest
    else if has_node n x.clients_ins
    then learned
    else rest
