-- ===== src/Net/Client/System.antt =====
-- The steps of a client: any number of callers of `send`, one holder of the lock, and the tasks.
use s2c_rs.Base.{ℕ, Option, ◌<◌, ◌≡◌, Bool, true, false, List, ◌∷◌, Bytes, Result, length}
use s2c_rs.Codec.{Codec}
use s2c_rs.Proto.{S2cMessage}
use s2c_rs.Net.Error.{ClientError, NetworkError}
use s2c_rs.Net.Client.{
  not_connected, idle, admitted, registered, queued, returned, free, handshaking, draining, Reader,
  Writer, Client,
}
use s2c_rs.Net.Client.Calls.{send, register, enqueue, refuse, settle_call, time_out}
use s2c_rs.Net.Client.Loops.{check_in, after_read, disconnect, check_out, wake, write_out}
use s2c_rs.Net.Client.Connection.{connect, handshaken, close}

-- Both tasks have ended.
abbrev pub Ended : Client → Type 0
Ended c = (c.reader ≡ Reader.gone) × (c.writer ≡ Writer.gone)

module _ (runs : Bool → Bool) (C : Codec S2cMessage) where
  pub data Step (c : Client) : Client → Type 0 where
    sends :
        (k : ℕ) (id payload : Bytes)
        → c.calls k ≡ idle
        → c.rw_lock ≡ free
        → Step c (send k id payload c)
    registers :
        (k : ℕ) (id payload : Bytes)
        → c.calls k ≡ admitted id payload
        → Step c (register k id payload c)
    enqueues :
        (k : ℕ) (id payload : Bytes) (i : ℕ)
        → c.calls k ≡ registered id payload i
        → length c.receiver < c.s2c_options.network.max_pending_reqs_per_client
        → Step c (enqueue k id payload i c)
    refuses :
        (k : ℕ) (id payload : Bytes) (i : ℕ)
        → c.calls k ≡ registered id payload i
        → Step c (refuse k id c)
    settles :
        (k : ℕ) (id : Bytes) (i : ℕ)
        → c.calls k ≡ queued id i
        → Step c (settle_call k id (c.inflight_requests.slots i) c)
    times_out : (k : ℕ) (id : Bytes) (i : ℕ) → c.calls k ≡ queued id i → Step c (time_out k id c)
    -- `task_tracker.close()` and the wait, where the tracker is open, come first.
    connects :
        (k : ℕ) (id : Bytes) (tcp : Result (Unit {0}) ClientError)
        → c.calls k ≡ idle
        → c.rw_lock ≡ free
        → (c.client_state ≡ not_connected → c.tracker_closed ≡ false → Ended c)
        → Step c (connect runs C k id tcp c)
    shakes :
        (k : ℕ) (id : Bytes) (r : Result S2cMessage ClientError)
        → c.rw_lock ≡ handshaking k
        → c.calls k ≡ returned id r
        → Step c (handshaken r c)
    closes : c.rw_lock ≡ free → Step c (close c)
    drains : c.rw_lock ≡ draining → Ended c → Step c (record c { rw_lock = free })
    checks_in : c.reader ≡ Reader.checks → Step c (check_in c)
    receives :
        (r : Result S2cMessage NetworkError) → c.reader ≡ Reader.reads → Step c (after_read r c)
    disconnects : c.reader ≡ Reader.failed → Step c (disconnect c)
    checks_out : c.writer ≡ Writer.checks → Step c (check_out c)
    wakes : c.writer ≡ Writer.sleeps → Step c (wake c)
    writes :
        (payload : Bytes) (rest : List Bytes) (failed : Option ℕ)
        → c.writer ≡ Writer.receives
        → c.receiver ≡ payload ∷ rest
        → Step c (write_out payload rest failed c)
    -- A task whose token is cancelled is dropped where it stands.
    drops_reader : c.cancelled ≡ true → Step c (record c { reader = Reader.gone })
    drops_writer : c.cancelled ≡ true → Step c (record c { writer = Writer.gone })

  pub data Reach (c : Client) : Client → Type 0 where
    start : Reach c c
    later : {d e : Client} → Reach c d → Step d e → Reach c e
