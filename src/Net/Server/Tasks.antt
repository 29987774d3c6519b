-- ===== src/Net/Server/Tasks.antt =====
-- The tasks of a server: calls of `start`, the serving tasks that they spawn, and `close`.
use s2c_rs.Base.{ℕ, suc, ◌≡◌, Bool, true, false, ◌==◌, if◌then◌else◌}
use s2c_rs.Net.Server.{ServerState, not_bound, binding, ready, closed, compare_and_exchange}

-- Where a task stands. A `start` that has bound its port goes on as the task that it spawns.
pub data Task : Type 0 where
  idle : Task
  starting : Task  -- in `bind` of `start`
  accepting : Task  -- head of the loop of `start_accept_loop`
  awaiting : Task  -- in `accept`
  leaving : Task  -- in `do_serve`, behind the accept loop
  releasing : Task  -- after its first `compare_and_exchange`
  rebinding : Task  -- in `bind` of `do_serve`
  ended : Task

-- `connections` counts the client handlers that were spawned.
pub record Server : Type 0 where
  pub server_state : ServerState
  pub cancelled : Bool
  pub tasks : ℕ → Task
  pub connections : ℕ

unfoldable pub new : Server
new = record { server_state = not_bound; cancelled = false; tasks = λ k. idle; connections = 0 }

abbrev pub set_task : ℕ → Task → (ℕ → Task) → ℕ → Task
set_task k x tasks j = if k == j then x else tasks j

-- A task goes on in `x` and the state `next` if the state was `current`, and otherwise in `y`.
unfoldable pub exchange : ServerState → ServerState → ℕ → Task → Task → Server → Server
unfolding compare_and_exchange
exchange current next k x y c =
    let (won, state) = compare_and_exchange current next c.server_state in
    record c { server_state = state; tasks = set_task k (if won then x else y) c.tasks }

-- The head of `start`.
unfoldable pub begin_start : ℕ → Server → Server
begin_start k c = exchange not_bound binding k starting ended c

-- The end of `bind` in `start`: the state is stored and the serving task spawned, or the error is
-- returned.
unfoldable pub end_start : ℕ → Bool → Server → Server
end_start k true c = record c { server_state = ready; tasks = set_task k accepting c.tasks }
end_start k false c = record c { tasks = set_task k ended c.tasks }

-- The two tests for `Closed` in the accept loop; between them the task awaits `accept`.
unfoldable pub is_closed : ServerState → Bool
is_closed closed = true
is_closed not_bound = false
is_closed binding = false
is_closed ready = false

unfoldable pub check_accept : ℕ → Server → Server
check_accept k c = record c {
  tasks = set_task k (if is_closed c.server_state then leaving else awaiting) c.tasks;
}

unfoldable pub accepted : ℕ → Bool → Server → Server
accepted k true c =
    if is_closed c.server_state
    then record c { tasks = set_task k leaving c.tasks }
    else record c { tasks = set_task k accepting c.tasks; connections = suc c.connections }
accepted k false c = record c { tasks = set_task k leaving c.tasks }

-- The two exchanges of `do_serve`.
unfoldable pub release : ℕ → Server → Server
release k c = exchange ready not_bound k releasing ended c

unfoldable pub take_back : ℕ → Server → Server
take_back k c = exchange not_bound binding k rebinding ended c

unfoldable pub end_rebind : ℕ → Bool → Server → Server
end_rebind k true c = record c { server_state = ready; tasks = set_task k accepting c.tasks }
end_rebind k false c = record c { server_state = closed; tasks = set_task k ended c.tasks }

unfoldable pub close : Server → Server
close c =
    if is_closed c.server_state then c else record c { server_state = closed; cancelled = true }

-- Where `serve` drops its task when the token is cancelled: at an await.
unfoldable pub is_pending : Task → Bool
is_pending idle = false
is_pending starting = false
is_pending ended = false
is_pending accepting = false
is_pending awaiting = true
is_pending leaving = false
is_pending releasing = false
is_pending rebinding = true

pub data Step (c : Server) : Server → Type 0 where
  begins : (k : ℕ) → c.tasks k ≡ idle → Step c (begin_start k c)
  starts : (k : ℕ) (bound : Bool) → c.tasks k ≡ starting → Step c (end_start k bound c)
  checks : (k : ℕ) → c.tasks k ≡ accepting → Step c (check_accept k c)
  accepts : (k : ℕ) (accept_ok : Bool) → c.tasks k ≡ awaiting → Step c (accepted k accept_ok c)
  releases : (k : ℕ) → c.tasks k ≡ leaving → Step c (release k c)
  takes_back : (k : ℕ) → c.tasks k ≡ releasing → Step c (take_back k c)
  rebinds : (k : ℕ) (bound : Bool) → c.tasks k ≡ rebinding → Step c (end_rebind k bound c)
  closes : Step c (close c)
  drops :
      (k : ℕ)
      → c.cancelled ≡ true
      → is_pending (c.tasks k) ≡ true
      → Step c (record c { tasks = set_task k ended c.tasks })

pub data Reach : Server → Type 0 where
  start : Reach new
  later : {c d : Server} → Reach c → Step c d → Reach d
