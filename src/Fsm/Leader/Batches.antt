-- ===== src/Fsm/Leader/Batches.antt =====
-- What a leader collects and how it writes a batch.
use s2c_rs.Base.{
  arith, ◌≡◌, refl, ap, ◌∙◌, ◌≢◌, List, [], ◌∷◌, ◌++◌, map, append_assoc, append-nil, Option, none,
  some, false, returns, length, replicate, All,
}
use s2c_rs.Codec.{Codec, CodecLaws}
use s2c_rs.Proto.{
  S2cMessageEnvelope, Body, StateRequest, NodeIdentity, BatchEntry, state_request,
  state_request_response, replicate_request, replicate_response, follow, follow_response, handshake,
}
use s2c_rs.Fsm.Leader.{Pending, add_follower, take_due, take_all, batch_entry, batch_entries}

-- A state request, and the node of a follow request, if the message is one.
abbrev pub request_of : Option Body → List StateRequest
request_of (some (state_request r)) = r ∷ []
request_of (some (follow f)) = []
request_of (some (replicate_request r)) = []
request_of (some (replicate_response r)) = []
request_of (some (state_request_response r)) = []
request_of (some follow_response) = []
request_of (some (handshake r)) = []
request_of none = []

abbrev pub known : Option NodeIdentity → List NodeIdentity
known none = []
known (some id) = id ∷ []

abbrev pub follower_of : Option Body → List NodeIdentity
follower_of (some (follow f)) = known f.node_identity
follower_of (some (state_request r)) = []
follower_of (some (replicate_request r)) = []
follower_of (some (replicate_response r)) = []
follower_of (some (state_request_response r)) = []
follower_of (some follow_response) = []
follower_of (some (handshake r)) = []
follower_of none = []

-- A follow request names its node.
abbrev pub IsNamed : Option Body → Type 0
IsNamed (some (follow f)) = f.node_identity ≢ none
IsNamed (some (state_request r)) = Unit
IsNamed (some (replicate_request r)) = Unit
IsNamed (some (replicate_response r)) = Unit
IsNamed (some (state_request_response r)) = Unit
IsNamed (some follow_response) = Unit
IsNamed (some (handshake r)) = Unit
IsNamed none = Unit

abbrev pub requests_of : List S2cMessageEnvelope → List StateRequest
requests_of [] = []
requests_of (x ∷ xs) = request_of x.s2c_message.body ++ requests_of xs

abbrev pub followers_of : List S2cMessageEnvelope → List NodeIdentity
followers_of [] = []
followers_of (x ∷ xs) = follower_of x.s2c_message.body ++ followers_of xs

abbrev pub with_more : Pending → List StateRequest → List NodeIdentity → Pending
with_more p rs ids = record {
  fsm = record p.fsm { followers = p.fsm.followers ++ ids };
  acc = p.acc ++ rs;
}

with_more-nil : (p : Pending) → p ≡ with_more p [] []
with_more-nil p = ground (arith, append-nil p.acc, append-nil p.fsm.followers)

add_follower_lem :
    (p : Pending) (id : Option NodeIdentity)
    → id ≢ none
    → add_follower p id ≡ returns (with_more p [] (known id))
unfolding add_follower
add_follower_lem p none h = absurd (h refl)
add_follower_lem p (some id) h = ground (arith, append-nil p.acc)

take_due_lem :
    (p : Pending) (b : Option Body)
    → IsNamed b
    → take_due p b ≡ returns (with_more p (request_of b) (follower_of b))
unfolding take_due
take_due_lem p none h = ap returns (with_more-nil p)
take_due_lem p (some (state_request r)) h = ground (arith, append-nil p.fsm.followers)
take_due_lem p (some (follow f)) h = add_follower_lem p f.node_identity h
take_due_lem p (some (replicate_request r)) h = ap returns (with_more-nil p)
take_due_lem p (some (replicate_response r)) h = ap returns (with_more-nil p)
take_due_lem p (some (state_request_response r)) h = ap returns (with_more-nil p)
take_due_lem p (some follow_response) h = ap returns (with_more-nil p)
take_due_lem p (some (handshake r)) h = ap returns (with_more-nil p)

-- If every follow request names its node, the due messages of a round add their state requests to
-- the pending batch and the named nodes to the followers, in order, and change nothing else.
pub take_all_lem :
    (p : Pending) (xs : List S2cMessageEnvelope)
    → All (λ x. IsNamed x.s2c_message.body) xs
    → take_all p xs ≡ returns (with_more p (requests_of xs) (followers_of xs))
unfolding take_all
take_all_lem p [] h = ap returns (with_more-nil p)
take_all_lem p (x ∷ xs) h =
    let b = x.s2c_message.body in
    rw (take_due_lem p b h.0) (
      take_all_lem (with_more p (request_of b) (follower_of b)) xs h.1
      ∙ ground (
        arith,
        append_assoc p.acc (request_of b) (requests_of xs),
        append_assoc p.fsm.followers (follower_of b) (followers_of xs),
      ))

-- What stands in a batch for a request: as many zeros as its encoding is long, then the encoding.
abbrev pub padded : Codec StateRequest → StateRequest → BatchEntry
padded R r = record { body = replicate (length (R.encode r)) 0 ++ R.encode r; internal = false }

batch_entry-padded :
    (R : Codec StateRequest) (L : CodecLaws R) (r : StateRequest)
    → batch_entry R r ≡ returns (padded R r)
unfolding batch_entry
batch_entry-padded R L r =
    ground (arith, L.appends r (replicate (R.encoded_len r) 0), L.len_exact r)

-- A batch has one entry for each request, in order, and its body is as many zeros as the encoding
-- of the request is long and then that encoding.
pub batch_entries-padded :
    (R : Codec StateRequest) (L : CodecLaws R) (rs : List StateRequest)
    → batch_entries R rs ≡ returns (map (padded R) rs)
unfolding batch_entries
batch_entries-padded R L [] = refl
batch_entries-padded R L (r ∷ rs) = rw (batch_entry-padded R L r, batch_entries-padded R L rs)
