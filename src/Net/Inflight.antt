-- ===== src/Net/Inflight.antt =====
-- src/network/inflight.rs: the requests that wait for a response. A oneshot channel is a number;
-- `slots` tells for each channel what its receiver would see. The table stands for the HashMap.
pub mod Lookup
pub mod Resolution
pub mod Channels
pub mod Refinement
pub mod Unordered
use s2c_rs.Base.{
  ℕ, suc, ◌+◌, List, [], ◌∷◌, Option, none, some, Bytes, Result, ok, err, ◌==◌, if◌then◌else◌, ◌≡◌,
  ℕ_discrete, length,
}
use mathlib.Core.Logic.{ite}
use s2c_rs.Net.Error.{ClientError}
use s2c_rs.Proto.{S2cMessage}

unfoldable pub Bytes-discrete : Discrete Bytes
Bytes-discrete = hlevel ℕ_discrete

pub data Slot : Type 0 where
  waiting dropped : Slot
  answered : Result S2cMessage ClientError → Slot

abbrev pub Table : Type 0
Table = List (Bytes × ℕ)

pub record InflightRequests : Type 0 where
  pub requests : Table
  pub slots : ℕ → Slot
  pub next : ℕ

unfoldable pub new : InflightRequests
new = record { requests = []; slots = λ i. dropped; next = 0 }

unfoldable pub lookup : Bytes → Table → Option ℕ
lookup k [] = none
lookup k ((j, i) ∷ t) = ite (Bytes-discrete j k) (some i) (lookup k t)

unfoldable pub remove : Bytes → Table → Table
remove k [] = []
remove k ((j, i) ∷ t) = ite (Bytes-discrete j k) (remove k t) ((j, i) ∷ remove k t)

abbrev pub set_slot : ℕ → Slot → (ℕ → Slot) → ℕ → Slot
set_slot i x slots j = if i == j then x else slots j

-- The channel of a sender that leaves the table with `x`, if there is one.
abbrev pub settle : Option ℕ → Slot → (ℕ → Slot) → ℕ → Slot
settle none x slots = slots
settle (some i) x slots = set_slot i x slots

-- `insert` drops the sender that it replaces.
unfoldable pub add : Bytes → InflightRequests → ℕ × InflightRequests
add id q = (
  q.next,
  record {
    requests = (id, q.next) ∷ remove id q.requests;
    slots = set_slot q.next waiting (settle (lookup id q.requests) dropped q.slots);
    next = suc q.next;
  },
)

unfoldable pub respond : S2cMessage → InflightRequests → InflightRequests
respond m q = record q {
  requests = remove m.correlation_id q.requests;
  slots = settle (lookup m.correlation_id q.requests) (answered (ok m)) q.slots;
}

unfoldable pub discard : Bytes → InflightRequests → InflightRequests
discard id q = record q {
  requests = remove id q.requests;
  slots = settle (lookup id q.requests) dropped q.slots;
}

unfoldable pub settle_all : Table → Slot → (ℕ → Slot) → ℕ → Slot
settle_all [] x slots = slots
settle_all ((k, i) ∷ t) x slots = settle_all t x (set_slot i x slots)

unfoldable pub fail_all : ClientError → InflightRequests → InflightRequests
fail_all e q = record q { requests = []; slots = settle_all q.requests (answered (err e)) q.slots }

unfoldable pub clear : InflightRequests → InflightRequests
clear q = record q { requests = []; slots = settle_all q.requests dropped q.slots }

unfoldable pub size : InflightRequests → ℕ
size q = length q.requests
