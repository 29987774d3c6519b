-- ===== src/Examples/Joins.antt =====
-- A node that joins an empty log, and one that joins a log with a leader.
use s2c_rs.Base.{ℕ, zero, suc, true, ◌∷◌, Bytes, ◌≡◌, refl, [], codes, err, arith, returns}
use s2c_rs.Net.Error.{timeout}
use s2c_rs.Fsm.{Fsm, leader, not_joined}
use s2c_rs.Fsm
use s2c_rs.Fsm.Leadership.{won}
use s2c_rs.Fsm.Join.{Link, discover_leader_state, connect, follow_leader, join}
use s2c_rs.Fsm.Join.Progress.{empty_log_is_led}
use s2c_rs.Failure.{generic, is_transient}
use s2c_rs.Store.{ObjectStore}
use s2c_rs.Fsm.Join.Discovery.{join_misses}
use s2c_rs.Examples.Memory.{Objects, memory}
use s2c_rs.Examples.Names.{memory-NamesEntries}
use s2c_rs.Examples.Nodes.{fsm_a, fsm_b, entry_codec, after_a}
use s2c_rs.Examples.Frames.{plain}

-- A network on which nobody answers.
abbrev pub silent : Link memory
silent = record {
  connect = λ id s. (err timeout, s);
  send = λ id m s. (err timeout, s);
  new_id = λ s. (codes "1", s);
}

pub a_joins : join memory silent entry_codec plain 3 3 fsm_a [] ≡ returns (won fsm_a, after_a)
unfolding join s2c_rs.Fsm.Join.join_loop Fsm.new s2c_rs.Fsm.Join.join_round discover_leader_state
    s2c_rs.Fsm.Join.discover_loop s2c_rs.Log.get_head s2c_rs.Log.head_loop
    s2c_rs.Fsm.Join.after_discover s2c_rs.Fsm.Join.try_leadership
    s2c_rs.Fsm.Leadership.attempt_leadership s2c_rs.Fsm.Leadership.leadership_loop s2c_rs.Log.append
    s2c_rs.Log.append_loop won s2c_rs.Fsm.Leadership.next_index
a_joins = refl

join_misses_example :
    join memory silent entry_codec plain 2 1 fsm_b after_a ≡ returns (fsm_b, after_a)
unfolding Fsm.new s2c_rs.Log.new s2c_rs.Log.entry_path s2c_rs.Paths.log_entry s2c_rs.Paths.new
    s2c_rs.Paths.Decimal.decimal s2c_rs.Paths.Decimal.digits s2c_rs.Paths.invert
join_misses_example =
    join_misses memory silent entry_codec plain 0 0 fsm_b after_a [] 1 [] refl memory-NamesEntries
      tt (omega arith) tt tt refl refl

-- So many creates meet a timeout, and so does every listing.
abbrev slow : ObjectStore
slow = record {
  State = ℕ × Objects;
  Location = Bytes;
  Handle = Bytes;
  path_from = λ p. p;
  filename = memory.filename;
  put_create = λ p v s. elim s.0 [
    | zero ↦ let (r, o) = memory.put_create p v s.1 in (r, (0, o))
    | suc n ↦ (err (generic (codes "timeout")), (n, s.1))
  ];
  list = λ p s. (err (generic (codes "timeout")) ∷ [], s);
  get = λ p s. let (r, o) = memory.get p s.1 in (r, (s.0, o));
  bytes = λ h s. let (r, o) = memory.bytes h s.1 in (r, (s.0, o));
}

abbrev unheard : Link slow
unheard = record {
  connect = λ id s. (err timeout, s);
  send = λ id m s. (err timeout, s);
  new_id = λ s. (codes "1", s);
}

timed_out : is_transient (generic (codes "timeout")) ≡ true
unfolding is_transient
timed_out = refl

empty_log_is_led_example :
    join slow unheard entry_codec plain 4 3 fsm_a (2, []) ≡ returns (won fsm_a, (0, after_a))
unfolding Fsm.new s2c_rs.Failure.is_transient s2c_rs.Fsm.Leadership.next_index s2c_rs.Log.entry_path
empty_log_is_led_example =
    empty_log_is_led slow unheard entry_codec plain 2 3 2 fsm_a (2, []) (0, after_a)
      (generic (codes "timeout") ∷ []) refl (timed_out, tt) refl
      (codes "timeout", refl, timed_out, (codes "timeout", refl, timed_out, (refl, refl)))
      (omega arith) (omega arith)
