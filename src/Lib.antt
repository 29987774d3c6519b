-- ===== src/Lib.antt =====
-- s2c: a replicated state machine whose log lives in an object store. A node of a group finds the
-- leader in the log and follows it, or becomes leader by creating the log's next entry; a leader
-- collects requests into batches and appends them, a follower receives batches and answers them.
-- The nodes talk over TCP in length-prefixed protobuf messages.
--
-- The files, by the code that they model:
--   Config         src/config.rs: the option records and their defaults.
--   Backoff        src/backoff.rs: `BackoffCounter`; the random factor of a delay is an argument.
--   Paths          src/paths.rs: `KeysResolver`; Paths/Decimal is the print and the parse of a u64.
--   Failure        src/error.rs: `is_transient`.
--   SyncQueue      src/sync_queue.rs: `ReplicateQueue`.
--   Proto          proto/messages.proto and proto/state.proto, as the records that prost makes.
--   Codec          the encoding of these, a parameter with the laws that prost documents.
--   Store          the object store, a parameter with the laws that it documents.
--   Log            src/log.rs: `S2cLog::append`, `get_head` and `get_at` on such a store.
--   Context        src/context.rs: what a client knows of its group and its node.
--   Net/Error      src/network/error.rs.
--   Net/Framing    src/network/message_rw.rs: `write_bytes` and `S2CMessageReaderImpl`;
--                  Net/Framing/Injected is `S2CMessageReaderTestWrapper`.
--   Net/Group      src/network/group_server.rs: `start`, `handle_client`, the three loops, `close`.
--   Net/Inflight   src/network/inflight.rs: `InflightRequests`; Net/Inflight/Refinement has what it
--                  promises, requests by number without a table;
--                  Net/Inflight/Unordered the table as one without an order.
--   Net/Client     src/network/client.rs: Net/Client/Calls `send`, Net/Client/Loops the two tasks,
--                  Net/Client/Connection `connect`, `handshake` and `close`,
--                  Net/Client/System the steps of all of them, Net/Client/Runs `send` and
--                  `connect` from the call to the result.
--   Net/Server     src/network/server.rs: `bind`, `start`, the handshake and `handle_client`;
--                  Net/Server/Tasks is `serve` with its accept loop, and `close`.
--   Net/Wire       the client and the group server, each with a reader at the other end.
--   Fsm            src/fsm.rs: the node; Fsm/Leadership `attempt_leadership`, Fsm/Follower
--                  `follower_loop`, Fsm/Leader `leader_loop`, Fsm/Join `join` and what it calls,
--                  Fsm/Start `start`, which runs them; Fsm/Join/Client has the client of
--                  Net/Client in the node, Fsm/Cluster any number of nodes side by side, with
--                  `attempt_leadership` cut into its single creates.
--   Base           what the modules share; Examples, a store in memory and runs of the model.
--
-- State is passed explicitly: an operation of the log takes the store's state and returns the next
-- one with its result. An `Outcome` is a result, a panic, or `running`, which says that the fuel of
-- a loop was used up. A u64 or u32 is a natural number with its wrap-around written out. What time
-- and other tasks do is input: the events of the follower's receive, the rounds of the leader's
-- loop and of those of the group server, which are also the fuel of these. Between two operations
-- the store may change in any way that keeps what is stored (`Extends`), and Log/History and
-- Fsm/Leadership/Campaign speak of any number of nodes that use one store in this way.
--
-- The methods and the tasks of a client and of a server run side by side. Each is cut into
-- sections, from one await to the next (or to a store that another task may see), a section is a
-- function on the shared state, and `Step` is the relation of one section of one task: what is
-- shown for `Reach` holds for every interleaving. A callback of the runtime is a parameter: `runs`
-- says whether a task that is spawned under a token starts, by whether the token is cancelled.
-- A channel and a lock are fields of the state that guard the steps.
--
-- The two `drain_out` loops write to a tokio `BufWriter` and never flush it. It passes on what it
-- was handed in order and at times of its own, so their models record what was handed over, the
-- beginning of a frame whose write fails included, and Net/Wire has any beginning of it arrive. In
-- Net/Client/Quiet the writer is a parameter that holds what fits its capacity.
--
-- Fuel: `append`, `get_at`, `connect`, `follow` and `bind` with `m` attempts allowed need `m +
-- 1`, `get_at` on bodies that do not keep failing. The loops of `attempt_leadership`, of `join`
-- and of `start` have no bound in the source: Fsm/Join/Progress counts their rounds where the log
-- is empty, by the creates that fail, and elsewhere they are taken on the runs that return.
--
-- Not modelled: src/replicator.rs, which is commented out, and src/lib.rs, src/rsm.rs,
-- src/statemachine.rs, src/object_read_write.rs and src/network/mod.rs, which are module lists,
-- structures whose one method does nothing, or empty; src/build.rs generates the message types.
-- In the node, the channels, the bucket and the reader factory are left out, since none of its
-- loops reads them in another way than through its events. `join` takes the client's
-- `connect` and `send` as an argument.
-- In the server, the client handlers are counted where they are spawned and modelled one by one
-- in Net/Server.
pub mod Backoff
pub mod Base
pub mod Codec
pub mod Config
pub mod Context
pub mod Examples
pub mod Failure
pub mod Fsm
pub mod Log
pub mod Net
pub mod Paths
pub mod Proto
pub mod Store
pub mod SyncQueue
