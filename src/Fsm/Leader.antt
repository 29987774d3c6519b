-- ===== src/Fsm/Leader.antt =====
-- `leader_loop` of src/fsm.rs. A round is what `next` gives before its timeout, what the two
-- channels hold when they are drained, and whether the flush interval is over at the test.
pub mod Batches
pub mod Rounds
pub mod Persistence
use s2c_rs.Base.{
  ℕ, zero, suc, List, [], ◌∷◌, ◌++◌, Option, none, some, Bool, true, false, ◌||◌, Bytes, Outcome,
  returns, panics, running, ◌>>=◌, length, ltb, if◌then◌else◌, replicate,
}
use s2c_rs.Codec.{Codec}
use s2c_rs.Proto.{
  S2cMessageEnvelope, Body, StateRequest, NodeIdentity, Batch, BatchEntry, state_request,
  state_request_response, replicate_request, replicate_response, follow, follow_response, handshake,
}
use s2c_rs.Store.{ObjectStore}
use s2c_rs.Log.{append}
use s2c_rs.Fsm.{Fsm}

-- What `timeout(remaining, self.next())` gives.
pub data Next : Type 0 where
  elapsed : Next
  received : S2cMessageEnvelope → Next
  channel_closed : Next

pub record Round : Type 0 where
  pub next : Next
  pub local_requests : List S2cMessageEnvelope
  pub requests : List S2cMessageEnvelope
  pub interval_over : Bool

-- The node and the state requests that wait for the next batch.
pub record Pending : Type 0 where
  pub fsm : Fsm
  pub acc : List StateRequest

-- `follow.node_identity.expect(..)`, pushed to the followers.
unfoldable pub add_follower : Pending → Option NodeIdentity → Outcome Pending
add_follower p none = panics
add_follower p (some id) =
    returns (record p { fsm = record p.fsm { followers = p.fsm.followers ++ (id ∷ []) } })

-- One due message.
unfoldable pub take_due : Pending → Option Body → Outcome Pending
take_due p (some (state_request r)) = returns (record p { acc = p.acc ++ (r ∷ []) })
take_due p (some (follow f)) = add_follower p f.node_identity
take_due p (some (replicate_request r)) = returns p
take_due p (some (replicate_response r)) = returns p
take_due p (some (state_request_response r)) = returns p
take_due p (some follow_response) = returns p
take_due p (some (handshake r)) = returns p
take_due p none = returns p

unfoldable pub take_all : Pending → List S2cMessageEnvelope → Outcome Pending
take_all p [] = returns p
take_all p (x ∷ xs) = take_due p x.s2c_message.body >>= λ q. take_all q xs

-- `vec![0; encoded_len]` and then `encode` into it; `expect` panics.
unfoldable pub batch_entry : Codec StateRequest → StateRequest → Outcome BatchEntry
batch_entry R r = elim (R.encode_into r (replicate (R.encoded_len r) 0)) [
  | none ↦ panics
  | some body ↦ returns (record { body = body; internal = false })
]

unfoldable pub batch_entries : Codec StateRequest → List StateRequest → Outcome (List BatchEntry)
batch_entries R [] = returns []
batch_entries R (r ∷ rs) = batch_entry R r >>= λ e. batch_entries R rs >>= λ es. returns (e ∷ es)

-- What the round's first receive adds to the due messages.
unfoldable pub first_due : Next → List S2cMessageEnvelope
first_due (received x) = x ∷ []
first_due elapsed = []
first_due channel_closed = []

unfoldable pub is_closed : Next → Bool
is_closed channel_closed = true
is_closed elapsed = false
is_closed (received x) = false

module _ (S : ObjectStore) (R : Codec StateRequest) (B : Codec Batch) where
  open S use {State}

  -- The result of the append is dropped and the batch with it.
  unfoldable pub flush : ℕ → Pending → State → Outcome (Pending × State)
  flush rounds p s = batch_entries R p.acc >>= λ entries.
      append S rounds p.fsm.s2c_log p.fsm.commit_index (B.encode (record { entries = entries })) s
      >>= λ (re, s'). returns (record p { acc = [] }, s')

  unfoldable pub leader_round : ℕ → Pending → Round → State → Outcome (Pending × State)
  leader_round rounds p r s =
      take_all p (first_due r.next ++ (r.local_requests ++ r.requests)) >>= λ q.
      if r.interval_over || ltb q.fsm.s2c_options.batch_min_count (length q.acc)
      then flush rounds q s
      else returns (q, s)

  -- The loop up to the end of the rounds or a closed channel.
  unfoldable pub leader_loop : ℕ → Pending → List Round → State → Outcome (Pending × State)
  leader_loop rounds p [] s = returns (p, s)
  leader_loop rounds p (r ∷ rs) s =
      let go_on = leader_round rounds p r s >>= λ (q, t). leader_loop rounds q rs t in
      if is_closed r.next then returns (p, s) else go_on
