-- ===== src/Net/Inflight/Refinement/Requests.antt =====
-- What becomes of each request, without a table.
use mathlib.Core.Logic.{ite}
use s2c_rs.Base.{ℕ, suc, List, [], ◌∷◌, Bytes, Result, ok, err, ◌==◌, if◌then◌else◌}
use s2c_rs.Net.Error.{ClientError}
use s2c_rs.Proto.{S2cMessage}
use s2c_rs.Net.Inflight.{Bytes-discrete, Slot, waiting, dropped, answered}
use s2c_rs.Net.Inflight.Resolution.{Op, adds, discards, responds, fails, clears}

-- A request is pending under its id, forgotten, or answered.
pub data Request : Type 0 where
  pending : Bytes → Request
  forgotten : Request
  settled : Result S2cMessage ClientError → Request

-- The requests in the order in which they were made, by number.
pub record Spec : Type 0 where
  pub requests : ℕ → Request
  pub next : ℕ

abbrev pub no_requests : Spec
no_requests = record { requests = λ i. forgotten; next = 0 }

-- What happens to a pending request under `k`, and to every pending one.
abbrev pub take : Bytes → Request → Request → Request
take k y (pending j) = ite (Bytes-discrete k j) y (pending j)
take k y forgotten = forgotten
take k y (settled r) = settled r

abbrev pub take_every : Request → Request → Request
take_every y (pending j) = y
take_every y forgotten = forgotten
take_every y (settled r) = settled r

abbrev pub spec_step : Spec → Op → Spec
spec_step a (adds k) = record {
  requests = λ i. if a.next == i then pending k else take k forgotten (a.requests i);
  next = suc a.next;
}
spec_step a (discards k) = record a { requests = λ i. take k forgotten (a.requests i) }
spec_step a (responds m) = record a {
  requests = λ i. take m.correlation_id (settled (ok m)) (a.requests i);
}
spec_step a (fails e) = record a { requests = λ i. take_every (settled (err e)) (a.requests i) }
spec_step a clears = record a { requests = λ i. take_every forgotten (a.requests i) }

abbrev pub spec_run : Spec → List Op → Spec
spec_run a [] = a
spec_run a (o ∷ os) = spec_run (spec_step a o) os

-- What the receiver of a request sees.
abbrev pub seen : Request → Slot
seen (pending j) = waiting
seen forgotten = dropped
seen (settled r) = answered r
