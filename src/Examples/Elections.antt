-- ===== src/Examples/Elections.antt =====
-- Elections on the log in memory.
use s2c_rs.Base.{◌≡◌, refl, ◌≢◌, [], ok, returns}
use s2c_rs.Fsm.{Fsm, FsmState, leader, not_joined, stopped}
use s2c_rs.Fsm
use s2c_rs.Fsm.Leadership.{next_index, next_epoch, leadership_entry, won, attempt_leadership}
use s2c_rs.Fsm.Leadership.Safety.{Ended, attempt_leadership-Ended}
use s2c_rs.Fsm.Leadership.Campaign.{Campaign, ends, wins, fails, Distinct, won_once}
use s2c_rs.Base.{◌∷◌}
use s2c_rs.Examples.Nodes.{group_log}
use s2c_rs.Fsm.Leadership.Election.{leader_entry_read}
use s2c_rs.Log.{entry_path, get_at}
use s2c_rs.Examples.Memory.{memory, memory_laws}
use s2c_rs.Examples.Nodes.{fsm_a, fsm_b, entry_codec, entry_codec_laws, after_a}

pub a_wins : attempt_leadership memory entry_codec 3 3 fsm_a [] ≡ returns (won fsm_a, after_a)
unfolding attempt_leadership s2c_rs.Fsm.Leadership.leadership_loop s2c_rs.Log.append
    s2c_rs.Log.append_loop s2c_rs.Log.new Fsm.new next_index
a_wins = refl

b_loses : attempt_leadership memory entry_codec 3 3 fsm_b after_a ≡ returns (fsm_b, after_a)
unfolding attempt_leadership s2c_rs.Fsm.Leadership.leadership_loop s2c_rs.Log.append
    s2c_rs.Log.append_loop entry_path s2c_rs.Paths.log_entry s2c_rs.Log.new s2c_rs.Paths.new Fsm.new
    s2c_rs.Paths.Decimal.decimal s2c_rs.Paths.Decimal.digits s2c_rs.Paths.invert next_index
    s2c_rs.Log.append_again s2c_rs.Fsm.Leadership.lost
b_loses = refl

b_loses_again : attempt_leadership memory entry_codec 5 5 fsm_b after_a ≡ returns (fsm_b, after_a)
unfolding attempt_leadership s2c_rs.Fsm.Leadership.leadership_loop s2c_rs.Log.append
    s2c_rs.Log.append_loop entry_path s2c_rs.Paths.log_entry s2c_rs.Log.new s2c_rs.Paths.new Fsm.new
    s2c_rs.Paths.Decimal.decimal s2c_rs.Paths.Decimal.digits s2c_rs.Paths.invert next_index
    s2c_rs.Log.append_again s2c_rs.Fsm.Leadership.lost
b_loses_again = refl

read_after_a :
    get_at memory 1 (won fsm_a).s2c_log (won fsm_a).commit_index after_a
    ≡ returns (ok (entry_codec.encode (leadership_entry fsm_a)), after_a)
unfolding get_at s2c_rs.Log.get_loop entry_path s2c_rs.Paths.log_entry s2c_rs.Log.new
    s2c_rs.Paths.new won Fsm.new s2c_rs.Paths.Decimal.decimal s2c_rs.Paths.Decimal.digits
    s2c_rs.Paths.invert next_index
read_after_a = refl

pub not_leader : not_joined ≢ leader
not_leader h = cc

pub a_leads : (won fsm_a).state ≡ leader
unfolding won
a_leads = refl

attempt_leadership-Ended_example :
    Ended memory memory_laws fsm_a
      (entry_codec.encode (leadership_entry fsm_a))
      []
      (won fsm_a, after_a)
attempt_leadership-Ended_example =
    attempt_leadership-Ended memory memory_laws entry_codec 3 3 fsm_a (won fsm_a) [] after_a a_wins

leader_entry_read_example :
    entry_codec.decode (entry_codec.encode (leadership_entry fsm_a)) ≡ ok (leadership_entry fsm_a)
unfolding Fsm.new
leader_entry_read_example =
    leader_entry_read memory memory_laws entry_codec entry_codec_laws 3 3 1 fsm_a (won fsm_a) []
      after_a after_a after_a (entry_codec.encode (leadership_entry fsm_a)) not_leader a_wins
      a_leads (λ q w h. h) read_after_a

single_win : Campaign memory memory_laws entry_codec group_log.keys [] (next_index fsm_a ∷ [])
unfolding s2c_rs.Log.new Fsm.new
single_win =
    wins 3 3 fsm_a (won fsm_a) refl not_leader a_wins a_leads
      (fails 3 3 fsm_b fsm_b b_loses not_leader ends)

won_once_example : Distinct memory memory_laws entry_codec group_log.keys (next_index fsm_a ∷ [])
won_once_example =
    won_once memory memory_laws entry_codec group_log.keys [] (next_index fsm_a ∷ []) single_win
