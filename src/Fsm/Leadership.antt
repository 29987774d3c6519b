-- ===== src/Fsm/Leadership.antt =====
-- `attempt_leadership` of src/fsm.rs: a node becomes leader by creating the next entry of the log.
pub mod Safety
pub mod Stays
pub mod Keeps
pub mod Election
pub mod Campaign
use s2c_rs.Base.{
  ℕ, zero, suc, Bool, List, [], Option, none, some, Bytes, Result, ok, err, Outcome, returns,
  panics, running, ◌>>=◌, if◌then◌else◌, ltb, u64_add,
}
use s2c_rs.Config.{to_unlimited}
use s2c_rs.Backoff.{BackoffCounter, await_attempt}
use s2c_rs.Backoff
use s2c_rs.Codec.{Codec}
use s2c_rs.Failure.{StoreError, generic, not_found, already_exists, other, is_transient}
use s2c_rs.Proto.{LogEntry}
use s2c_rs.Store.{ObjectStore}
use s2c_rs.Log.{append}
use s2c_rs.Fsm.{Fsm, leader, stopped}

-- The index and the epoch of the next attempt.
unfoldable pub next_index : Fsm → ℕ
next_index fsm = if ltb 0 fsm.commit_index then u64_add fsm.commit_index 1 else 1

unfoldable pub next_epoch : Fsm → ℕ
next_epoch fsm = if ltb 0 fsm.commit_index then u64_add fsm.epoch 1 else 1

unfoldable pub leadership_entry : Fsm → LogEntry
leadership_entry fsm = record {
  batch = some (record { entries = [] });
  leader_state = some (record {
    commit_index = next_index fsm;
    node_identity = some fsm.node_identity;
    epoch = next_epoch fsm;
    followers = [];
  });
}

unfoldable pub won : Fsm → Fsm
won fsm = record fsm { state = leader; commit_index = next_index fsm; epoch = next_epoch fsm }

-- What an error of the append makes of the node; `none` is another round.
unfoldable pub lost : Fsm → StoreError → Option Fsm
lost fsm already_exists = some fsm
lost fsm (generic m) =
    if is_transient (generic m) then none else some (record fsm { state = stopped })
lost fsm not_found = some (record fsm { state = stopped })
lost fsm other = some (record fsm { state = stopped })

module _ (S : ObjectStore) where
  -- `rounds` is the fuel of each append, the first number that of the loop.
  unfoldable pub leadership_loop :
      ℕ → ℕ → Fsm → Bytes → BackoffCounter → S.State → Outcome (Fsm × S.State)
  leadership_loop zero rounds fsm payload b s = running
  leadership_loop (suc fuel) rounds fsm payload b s =
      append S rounds fsm.s2c_log (next_index fsm) payload s >>= λ (re, s'). elim re [
        | ok u ↦ returns (won fsm, s')
        | err e ↦ elim (lost fsm e) [
          | some fsm' ↦ returns (fsm', s')
          | none ↦ leadership_loop fuel rounds fsm payload (await_attempt b) s'
        ]
      ]

  unfoldable pub attempt_leadership :
      Codec LogEntry → ℕ → ℕ → Fsm → S.State → Outcome (Fsm × S.State)
  attempt_leadership C fuel rounds fsm s =
      let retry = to_unlimited fsm.s2c_options.retry in
      leadership_loop fuel rounds fsm (C.encode (leadership_entry fsm)) (Backoff.new retry) s
