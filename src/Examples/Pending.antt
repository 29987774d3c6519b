-- ===== src/Examples/Pending.antt =====
-- Two requests in flight.
use mathlib.Core.Quot
use s2c_rs.Base.{
  ℕ, ◌<◌, ◌≡◌, refl, ◌≢◌, List, [], ◌∷◌, Option, none, some, Bytes, codes, Result, ok, err, arith,
}
use s2c_rs.Proto.{S2cMessage}
use s2c_rs.Net.Inflight.{InflightRequests, waiting, answered, lookup, respond, fail_all}
use s2c_rs.Net.Inflight
use s2c_rs.Net.Inflight.Resolution.{
  IsSound, Op, adds, discards, responds, fails, clears, run, run-new-IsSound, respond_lem,
  fail_all_reaches,
}
use s2c_rs.Net.Inflight.Refinement.{run_refines}
use s2c_rs.Net.Inflight.Unordered.{Tidy, Unordered, run_tidy, run_unordered}
use s2c_rs.Net.Inflight.Refinement.Requests.{no_requests, spec_run, seen}

abbrev two_sent : List Op
two_sent = adds (codes "a") ∷ adds (codes "b") ∷ []

abbrev response : S2cMessage
response = record { correlation_id = codes "a"; body = none; error = none }

run_refines_example :
    ((run Inflight.new (adds (codes "a") ∷ adds (codes "a") ∷ responds response ∷ [])).next
      ≡ (spec_run no_requests (adds (codes "a") ∷ adds (codes "a") ∷ responds response ∷ [])).next)
    × ((run Inflight.new (adds (codes "a") ∷ adds (codes "a") ∷ responds response ∷ [])).slots
        ≡ (λ i. seen (
            (spec_run no_requests
                (adds (codes "a") ∷ adds (codes "a") ∷ responds response ∷ [])).requests
              i)))
run_refines_example = run_refines (adds (codes "a") ∷ adds (codes "a") ∷ responds response ∷ [])

first_registered : lookup response.correlation_id (run Inflight.new two_sent).requests ≡ some 0
unfolding lookup run s2c_rs.Net.Inflight.Resolution.step Inflight.add Inflight.new
    Inflight.Bytes-discrete s2c_rs.Base.ℕ_discrete Inflight.remove
first_registered = refl

second_waits : (run Inflight.new two_sent).slots 1 ≡ waiting
unfolding run s2c_rs.Net.Inflight.Resolution.step Inflight.add Inflight.new
second_waits = refl

two_handed_out : (run Inflight.new two_sent).next ≡ 2
unfolding run s2c_rs.Net.Inflight.Resolution.step Inflight.add Inflight.new
two_handed_out = refl

-- The same two senders in either order of the entries.
swapped_finds :
    (k : Bytes)
    → lookup k ((codes "a", 0) ∷ (codes "b", 1) ∷ [])
      ≡ lookup k ((codes "b", 1) ∷ (codes "a", 0) ∷ [])
unfolding lookup
swapped_finds k = ground arith

abbrev listed : Inflight.Table → InflightRequests
listed t = record { requests = t; slots = λ i. waiting; next = 2 }

older_first : Tidy
unfolding lookup Inflight.Bytes-discrete s2c_rs.Base.ℕ_discrete
older_first = (listed ((codes "a", 0) ∷ (codes "b", 1) ∷ []), (refl, (refl, tt)))

newer_first : Tidy
unfolding lookup Inflight.Bytes-discrete s2c_rs.Base.ℕ_discrete
newer_first = (listed ((codes "b", 1) ∷ (codes "a", 0) ∷ []), (refl, (refl, tt)))

either_order : ◌≡◌ {A = Unordered} (Quot.mk older_first) (Quot.mk newer_first)
unfolding older_first newer_first
either_order = Quot.sound (record { next = refl; slots = refl; finds = swapped_finds })

run_unordered_example :
    (◌≡◌ {A = Unordered}
      (Quot.mk (run_tidy older_first (responds response ∷ clears ∷ [])))
      (Quot.mk (run_tidy newer_first (responds response ∷ clears ∷ []))))
    × ((run older_first.0 (responds response ∷ clears ∷ [])).slots
        ≡ (run newer_first.0 (responds response ∷ clears ∷ [])).slots)
run_unordered_example =
    run_unordered older_first newer_first (responds response ∷ clears ∷ []) either_order
