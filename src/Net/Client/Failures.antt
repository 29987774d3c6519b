-- ===== src/Net/Client/Failures.antt =====
-- What a failed read does to the calls that wait.
use s2c_rs.Base.{ℕ, ◌≡◌, subst, Bool, Bytes, err, arith}
use s2c_rs.Codec.{Codec}
use s2c_rs.Config.{S2cOptions}
use s2c_rs.Context.{Context}
use s2c_rs.Proto.{S2cMessage}
use s2c_rs.Net.Error.{NetworkError}
use s2c_rs.Net.Error
use s2c_rs.Net.Inflight.{waiting, answered, fail_all}
use s2c_rs.Net.Inflight.Lookup.{settle_all-lookup}
use s2c_rs.Net.Inflight.Channels.{IsTied}
use s2c_rs.Net.Client.{Call, queued, returned, Client}
use s2c_rs.Net.Client
use s2c_rs.Net.Client.Calls.{give_up, settle_call}
use s2c_rs.Net.Client.Loops.{after_read}
use s2c_rs.Net.Client.System.{Reach}
use s2c_rs.Net.Client.Answers.{CallTied, Reach-Tied, new-Tied}

module _ (runs : Bool → Bool) (C : Codec S2cMessage) where
  -- In every state that a new client can reach, if a read of its connection fails, a call whose
  -- payload is queued and whose channel still waits finds the error of the read in it and returns
  -- that error.
  pub failed_read_reaches :
      (o : S2cOptions) (context : Context) (c : Client) (k : ℕ) (id : Bytes) (i : ℕ)
      (e : NetworkError)
      → Reach runs C (Client.new o context) c
      → c.calls k ≡ queued id i
      → c.inflight_requests.slots i ≡ waiting
      → let d = after_read (err e) c in
        (settle_call k id (d.inflight_requests.slots i) d).calls k
        ≡ returned id (err (Error.ClientError.io e))
  unfolding after_read fail_all settle_call give_up
  failed_read_reaches o context c k id i e r h w =
      let t = Reach-Tied runs C r (new-Tied runs C o context) in
      let tied : IsTied c.inflight_requests id i = subst (CallTied c.inflight_requests) h (t.1 k) in
      let (j, l) = t.0.waited i tied.handed w in
      let q = c.inflight_requests in
      let x =
        settle_all-lookup q.requests (answered (err (Error.ClientError.io e))) q.slots j i l in
      rw x (ground arith)
