-- ===== src/Net/Server/Closing.antt =====
-- A server after `close`.
use s2c_rs.Base.{ℕ, ◌≡◌, refl, ◌≢◌, Bool, true, false, arith}
use s2c_rs.Net.Server.{ServerState, not_bound, binding, ready, closed}
use s2c_rs.Net.Server.Tasks.{
  Task, idle, starting, accepting, awaiting, leaving, releasing, rebinding, ended, Server, set_task,
  exchange, begin_start, is_closed, check_accept, accepted, release, take_back, close, Step, begins,
  starts, checks, accepts, releases, takes_back, rebinds, closes, drops,
}

pub data After (c : Server) : Server → Type 0 where
  stays : After c c
  goes : {d e : Server} → After c d → Step d e → After c e

-- The tasks that are in `bind`.
unfoldable pub binds : Task → Bool
binds idle = false
binds starting = true
binds accepting = false
binds awaiting = false
binds leaving = false
binds releasing = false
binds rebinding = true
binds ended = false

-- The server is closed, no task will make it ready, and so many handlers were spawned.
record IsShut (n : ℕ) (c : Server) : Type 0 where
  shut : c.server_state ≡ closed
  idle_ports : (k : ℕ) → binds (c.tasks k) ≡ false
  spawned : c.connections ≡ n

module _ (n : ℕ) (c : Server) (v : IsShut n c) (k : ℕ) where
  goes_on : (x : Task) → binds x ≡ false → (j : ℕ) → binds (set_task k x c.tasks j) ≡ false
  goes_on x h j = ground (arith, v.idle_ports j)

  moved : (x : Task) → binds x ≡ false → IsShut n (record c { tasks = set_task k x c.tasks })
  moved x h = record { shut = v.shut; idle_ports = goes_on x h; spawned = v.spawned }

  moved_again :
      (x : Task)
      → binds x ≡ false
      → IsShut n (record c { server_state = closed; tasks = set_task k x c.tasks })
  moved_again x h = record { shut = refl; idle_ports = goes_on x h; spawned = v.spawned }

  -- No exchange of a `Closed` state succeeds.
  exchange-IsShut :
      (current next : ServerState) (x : Task)
      → current ≢ closed
      → IsShut n (exchange current next k x ended c)
  unfolding exchange binds
  exchange-IsShut not_bound next x h = rw (v.shut, exchange) (moved_again ended refl)
  exchange-IsShut binding next x h = rw (v.shut, exchange) (moved_again ended refl)
  exchange-IsShut ready next x h = rw (v.shut, exchange) (moved_again ended refl)
  exchange-IsShut closed next x h = absurd (h refl)

Step-IsShut : (n : ℕ) {c d : Server} → Step c d → IsShut n c → IsShut n d
unfolding begin_start check_accept accepted release take_back close is_closed binds
Step-IsShut n {c} (begins k a) v = exchange-IsShut n c v k not_bound binding starting (λ h. cc)
Step-IsShut n {c} (starts k bound a) v = absurd (ground (arith, v.idle_ports k))
Step-IsShut n {c} (checks k a) v = rw v.shut (moved_again n c v k leaving refl)
Step-IsShut n {c} (accepts k true a) v = rw v.shut (moved_again n c v k leaving refl)
Step-IsShut n {c} (accepts k false a) v = moved n c v k leaving refl
Step-IsShut n {c} (releases k a) v = exchange-IsShut n c v k ready not_bound releasing (λ h. cc)
Step-IsShut n {c} (takes_back k a) v = exchange-IsShut n c v k not_bound binding rebinding (λ h. cc)
Step-IsShut n {c} (rebinds k bound a) v = absurd (ground (arith, v.idle_ports k))
Step-IsShut n {c} closes v =
    rw v.shut (record { shut = refl; idle_ports = v.idle_ports; spawned = v.spawned })
Step-IsShut n {c} (drops k a b) v = moved n c v k ended refl

After-IsShut : (n : ℕ) {c d : Server} → After c d → IsShut n c → IsShut n d
After-IsShut n stays v = v
After-IsShut n (goes a s) v = Step-IsShut n s (After-IsShut n a v)

close-IsShut : (c : Server) → ((k : ℕ) → binds (c.tasks k) ≡ false) → IsShut c.connections (close c)
unfolding close is_closed
close-IsShut c h = go c.server_state refl
  where
    go : (s : ServerState) → c.server_state ≡ s → IsShut c.connections (close c)
    go closed e = rw (e, close) (record { shut = refl; idle_ports = h; spawned = refl })
    go not_bound e = rw (e, close) (record { shut = refl; idle_ports = h; spawned = refl })
    go binding e = rw (e, close) (record { shut = refl; idle_ports = h; spawned = refl })
    go ready e = rw (e, close) (record { shut = refl; idle_ports = h; spawned = refl })

-- If no task of a server is in `bind` when it is closed, then whatever its tasks, further calls
-- of `start` and further calls of `close` do, it stays `Closed` and spawns no handler for a
-- client.
pub closed_for_good :
    (c d : Server)
    → ((k : ℕ) → binds (c.tasks k) ≡ false)
    → After (close c) d
    → (d.server_state ≡ closed) × (d.connections ≡ c.connections)
closed_for_good c d h a =
    let v = After-IsShut c.connections a (close-IsShut c h) in (v.shut, v.spawned)
