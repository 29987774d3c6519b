-- ===== src/Net/Client/Runs.antt =====
-- `send` and `connect` of `S2cClient` from the call to the result, over the steps of Client/System:
-- the sections of the method, and between them whatever its other callers and its tasks do.
use s2c_rs.Base.{ℕ, ◌≡◌, ◌≢◌, Bytes, Bool, true, false, Result, ok, err}
use s2c_rs.Codec.{Codec}
use s2c_rs.Proto.{S2cMessage}
use s2c_rs.Net.Error.{ClientError}
use s2c_rs.Net.Client.{not_connected, idle, returned, free, handshaking, Client}
use s2c_rs.Net.Client.Calls.{send}
use s2c_rs.Net.Client.Connection.{connect, is_handshake, handshaken}
use s2c_rs.Net.Client.System.{Ended, Step, Reach, start, later, sends, connects, shakes}

module _ (runs : Bool → Bool) (C : Codec S2cMessage) where
  -- `send` waits for the lock, and returns what its call does.
  pub record Sending (id payload : Bytes) (c : Client) (r : Result S2cMessage ClientError)
      (d : Client) : Type 0 where
    pub call : ℕ
    pub before : Client
    pub waits : Reach runs C c before
    pub fresh : before.calls call ≡ idle
    pub unlocked : before.rw_lock ≡ free
    pub goes : Reach runs C (send call id payload before) d
    pub answer : d.calls call ≡ returned id r

  -- `connect` has the lock and finds the client not connected; its tracker is open or its tasks
  -- have ended.
  pub record Entered (c : Client) (k : ℕ) (b : Client) : Type 0 where
    pub waits : Reach runs C c b
    pub fresh : b.calls k ≡ idle
    pub unlocked : b.rw_lock ≡ free
    pub state : b.client_state ≡ not_connected
    pub ended : b.tracker_closed ≡ false → Ended b

  -- The ends of `connect`: the client is connected or closed already, the server is not reached,
  -- its handshake is answered, or the handshake fails and the tasks are waited for. An answer that
  -- is no handshake is a panic, and has no result here.
  pub data Connecting (c : Client) : Result (Unit {0}) ClientError → Client → Type 0 where
    wrong_state :
        (b : Client)
        → Reach runs C c b
        → b.rw_lock ≡ free
        → b.client_state ≢ not_connected
        → Connecting c (ok tt) b
    unreachable :
        (b : Client) (k : ℕ) (id : Bytes) (e : ClientError)
        → Entered c k b
        → Connecting c (err e) (connect runs C k id (err e) b)
    shaken :
        (b d : Client) (k : ℕ) (id : Bytes) (m : S2cMessage)
        → Entered c k b
        → Reach runs C (connect runs C k id (ok tt) b) d
        → d.rw_lock ≡ handshaking k
        → d.calls k ≡ returned id (ok m)
        → is_handshake m.body ≡ true
        → Connecting c (ok tt) (handshaken (ok m) d)
    refused :
        (b d f : Client) (k : ℕ) (id : Bytes) (e : ClientError)
        → Entered c k b
        → Reach runs C (connect runs C k id (ok tt) b) d
        → d.rw_lock ≡ handshaking k
        → d.calls k ≡ returned id (err e)
        → Reach runs C (handshaken (err e) d) f
        → f.rw_lock ≡ free
        → Connecting c (err e) f

  pub Reach-trans : {c d e : Client} → Reach runs C c d → Reach runs C d e → Reach runs C c e
  Reach-trans r start = r
  Reach-trans r (later q s) = later (Reach-trans r q) s

  sent :
      {id payload : Bytes} {c d : Client} {r : Result S2cMessage ClientError}
      → (x : Sending id payload c r d) → Step runs C x.before (send x.call id payload x.before)
  sent {id} {payload} x = sends x.call id payload x.fresh x.unlocked

  pub Sending-Reach :
      {id payload : Bytes} {c d : Client} {r : Result S2cMessage ClientError}
      → Sending id payload c r d
      → Reach runs C c d
  Sending-Reach x = Reach-trans (later x.waits (sent x)) x.goes

  pub Sending-after :
      {id payload : Bytes} {c d e : Client} {r : Result S2cMessage ClientError}
      → Reach runs C c d
      → Sending id payload d r e
      → Sending id payload c r e
  Sending-after q x = record {
    call = x.call;
    before = x.before;
    waits = Reach-trans q x.waits;
    fresh = x.fresh;
    unlocked = x.unlocked;
    goes = x.goes;
    answer = x.answer;
  }

  entered :
      {c b : Client} {k : ℕ} (id : Bytes) (r : Result (Unit {0}) ClientError)
      → Entered c k b
      → Reach runs C c (connect runs C k id r b)
  entered {k = k} id r x = later x.waits (connects k id r x.fresh x.unlocked (λ a b. x.ended b))

  pub Connecting-Reach :
      {c d : Client} {r : Result (Unit {0}) ClientError} → Connecting c r d → Reach runs C c d
  Connecting-Reach (wrong_state b w u n) = w
  Connecting-Reach (unreachable b k id e x) = entered id (err e) x
  Connecting-Reach (shaken b d k id m x g l a h) =
      later (Reach-trans (entered id (ok tt) x) g) (shakes k id (ok m) l a)
  Connecting-Reach (refused b d f k id e x g l a h u) =
      Reach-trans (later (Reach-trans (entered id (ok tt) x) g) (shakes k id (err e) l a)) h
