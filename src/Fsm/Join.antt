-- ===== src/Fsm/Join.antt =====
-- `join` of src/fsm.rs and what it calls: find the leader in the log, connect to it and follow it,
-- or try to become leader. The client's calls are a parameter, on the state of the store.
pub mod Discovery
pub mod Rounds
pub mod Calls
pub mod Reads
pub mod Client
pub mod Answers
pub mod Progress
pub mod Ends
use s2c_rs.Base.{
  ℕ, zero, suc, Bool, true, false, Option, none, some, Bytes, Result, ok, err, Outcome, returns,
  panics, running, ◌>>=◌, if◌then◌else◌,
}
use s2c_rs.Backoff.{BackoffCounter, can_attempt, await_attempt, reset}
use s2c_rs.Backoff
use s2c_rs.Codec.{Codec}
use s2c_rs.Config.{S2cRetryOptions}
use s2c_rs.Failure.{StoreError, is_transient}
use s2c_rs.Net.Error.{ClientError, closed, io, connect_timeout, not_connected, timeout}
use s2c_rs.Proto.{LogEntry, LeaderState, NodeIdentity, S2cMessage, follow}
use s2c_rs.Store.{ObjectStore}
use s2c_rs.Log.{S2cLog, get_head, get_at, read_again}
use s2c_rs.Fsm.{Fsm, FsmState, not_joined, follower, leader, stopped}
use s2c_rs.Fsm.Leadership.{attempt_leadership}

-- Both `expect`s panic.
unfoldable pub parse_leader_state : Codec LogEntry → Bytes → Outcome LeaderState
parse_leader_state C bytes = elim (C.decode bytes) [
  | err e ↦ panics
  | ok entry ↦ elim entry.leader_state [ none ↦ panics | some l ↦ returns l ]
]

abbrev pub Discovered : ObjectStore → Type 0
Discovered S = Outcome (Result (Option LeaderState) StoreError × S.State)

module _ (S : ObjectStore) (C : Codec LogEntry) where
  open S use {State}

  -- `fuel` is that of the loop, `rounds` that of each read.
  unfoldable pub discover_loop : ℕ → ℕ → S2cLog → BackoffCounter → State → Discovered S
  discover_loop zero rounds log b s = running
  discover_loop (suc fuel) rounds log b s =
      let (found, s') = get_head S log s in
      found >>= λ head. elim head [
        | ok index ↦ elim index [
          | none ↦ returns (ok none, s')
          | some i ↦ get_at S rounds log i s' >>= λ (re, s''). elim re [
            | ok bytes ↦ parse_leader_state C bytes >>= λ l. returns (ok (some l), s'')
            | err e ↦ elim (read_again b e) [
              | none ↦ returns (err e, s'')
              | some b' ↦ discover_loop fuel rounds log b' s''
            ]
          ]
        ]
        | err e ↦ elim (read_again b e) [
          | none ↦ returns (err e, s')
          | some b' ↦ discover_loop fuel rounds log b' s'
        ]
      ]

  unfoldable pub discover_leader_state : ℕ → ℕ → Fsm → State → Discovered S
  discover_leader_state fuel rounds fsm s =
      discover_loop fuel rounds fsm.s2c_log (Backoff.new fsm.s2c_options.retry) s

-- The client as `join` uses it: connect to a node, and send a message and await the answer.
-- A fresh correlation id is drawn from the state.
pub record Link (S : ObjectStore) : Type 0 where
  pub connect : NodeIdentity → S.State → Result (Unit {0}) ClientError × S.State
  pub send : Bytes → Bytes → S.State → Result S2cMessage ClientError × S.State
  pub new_id : S.State → Bytes × S.State

module _ (S : ObjectStore) (K : Link S) where
  open S use {State}

  unfoldable pub connect_loop :
      ℕ → NodeIdentity → BackoffCounter → State → Outcome (Result (Unit {0}) ClientError × State)
  connect_loop zero id b s = running
  connect_loop (suc fuel) id b s =
      let (re, s') = K.connect id s in
      let again = connect_loop fuel id (await_attempt b) s' in
      elim re [
        | ok u ↦ returns (ok u, s')
        | err e ↦ if can_attempt b then again else returns (err e, s')
      ]

  unfoldable pub connect :
      ℕ → Fsm → NodeIdentity → State → Outcome (Result (Unit {0}) ClientError × State)
  connect fuel fsm id s = connect_loop fuel id (Backoff.new fsm.s2c_options.retry) s

  -- `Follow` under a new correlation id in every round.
  unfoldable pub follow_request : Fsm → Bytes → S2cMessage
  follow_request fsm correlation_id = record {
    correlation_id = correlation_id;
    body = some (
        follow (record {
          node_identity = some fsm.node_identity;
          apply_index = fsm.apply_index;
          group_id = fsm.group;
        }));
    error = none;
  }

  unfoldable pub follow_again : BackoffCounter → ClientError → Option BackoffCounter
  follow_again b (io e) = if can_attempt b then some (await_attempt b) else none
  follow_again b closed = none
  follow_again b connect_timeout = none
  follow_again b not_connected = none
  follow_again b timeout = none

  unfoldable pub follow_loop :
      Codec S2cMessage
      → ℕ
      → Fsm
      → BackoffCounter
      → State
      → Outcome (Result (Unit {0}) ClientError × State)
  follow_loop M zero fsm b s = running
  follow_loop M (suc fuel) fsm b s =
      let (id, s') = K.new_id s in
      let (re, s'') = K.send id (M.encode (follow_request fsm id)) s' in
      elim re [
        | ok answer ↦ returns (ok tt, s'')
        | err e ↦ elim (follow_again b e) [
          | none ↦ returns (err e, s'')
          | some b' ↦ follow_loop M fuel fsm b' s''
        ]
      ]

  unfoldable pub follow_leader :
      Codec S2cMessage → ℕ → Fsm → State → Outcome (Result (Unit {0}) ClientError × State)
  follow_leader M fuel fsm s = follow_loop M fuel fsm (Backoff.new fsm.s2c_options.retry) s

-- The errors that both matches of `join` call a wrong state.
unfoldable pub is_wrong_state : ClientError → Bool
is_wrong_state closed = true
is_wrong_state not_connected = true
is_wrong_state connect_timeout = false
is_wrong_state timeout = false
is_wrong_state (io e) = false

-- How a round of `join` ends: it returns, or its loop goes on.
pub data Turn : Type 0 where
  leaves : Fsm → Turn
  goes_on : Fsm → BackoffCounter → Turn

-- An error of the discovery, in `join`.
unfoldable pub join_error : Fsm → BackoffCounter → StoreError → Turn
join_error fsm b e =
    if is_transient e
    then goes_on fsm (if can_attempt b then await_attempt b else reset b)
    else leaves fsm

module _ (S : ObjectStore) (K : Link S) (C : Codec LogEntry) (M : Codec S2cMessage) where
  open S use {State}

  unfoldable pub try_leadership : ℕ → ℕ → Fsm → BackoffCounter → State → Outcome (Turn × State)
  try_leadership fuel rounds fsm b s =
      attempt_leadership S C fuel rounds fsm s >>= λ (g, t). returns (goes_on g b, t)

  unfoldable pub after_follow :
      ℕ → ℕ → Fsm → BackoffCounter → Result (Unit {0}) ClientError → State → Outcome (Turn × State)
  after_follow fuel rounds fsm b (ok u) s = returns (goes_on (record fsm { state = follower }) b, s)
  after_follow fuel rounds fsm b (err e) s =
      if is_wrong_state e then returns (goes_on fsm b, s) else try_leadership fuel rounds fsm b s

  unfoldable pub after_connect :
      ℕ → ℕ → Fsm → BackoffCounter → Result (Unit {0}) ClientError → State → Outcome (Turn × State)
  after_connect fuel rounds fsm b (ok u) s =
      follow_leader S K M fuel fsm s >>= λ (re, s'). after_follow fuel rounds fsm b re s'
  after_connect fuel rounds fsm b (err e) s =
      if is_wrong_state e then returns (leaves fsm, s) else try_leadership fuel rounds fsm b s

  unfoldable pub join_leader :
      ℕ → ℕ → Fsm → BackoffCounter → Option NodeIdentity → State → Outcome (Turn × State)
  join_leader fuel rounds fsm b none s = panics
  join_leader fuel rounds fsm b (some id) s =
      connect S K fuel fsm id s >>= λ (re, s'). after_connect fuel rounds fsm b re s'

  unfoldable pub after_discover :
      ℕ
      → ℕ
      → Fsm
      → BackoffCounter
      → Result (Option LeaderState) StoreError
      → State
      → Outcome (Turn × State)
  after_discover fuel rounds fsm b (ok none) s = try_leadership fuel rounds fsm b s
  after_discover fuel rounds fsm b (ok (some l)) s = join_leader fuel rounds fsm b l.node_identity s
  after_discover fuel rounds fsm b (err e) s = returns (join_error fsm b e, s)

  unfoldable pub join_round : ℕ → ℕ → Fsm → BackoffCounter → State → Outcome (Turn × State)
  join_round fuel rounds fsm b s = discover_leader_state S C fuel rounds fsm s >>= λ (re, s').
      after_discover fuel rounds fsm b re s'

  unfoldable pub join_loop : ℕ → ℕ → Fsm → BackoffCounter → State → Outcome (Fsm × State)
  join_loop zero rounds fsm b s = running
  join_loop (suc fuel) rounds fsm b s = elim fsm.state [
    | not_joined ↦ join_round fuel rounds fsm b s >>= λ (turn, s'). elim turn [
      | leaves g ↦ returns (g, s')
      | goes_on g b' ↦ join_loop fuel rounds g b' s'
    ]
    | follower ↦ returns (fsm, s)
    | leader ↦ returns (fsm, s)
    | stopped ↦ returns (fsm, s)
  ]

  unfoldable pub join : ℕ → ℕ → Fsm → State → Outcome (Fsm × State)
  join fuel rounds fsm s = join_loop fuel rounds fsm (Backoff.new fsm.s2c_options.retry) s
