-- ===== src/Examples/Logs.antt =====
-- Appends and reads on the log in memory, and on a store whose creates fail.
use s2c_rs.Base.{
  ◌<◌, ◌≡◌, refl, [], ◌∷◌, none, some, Bytes, codes, Result, ok, err, returns, arith, All, true,
  false,
}
use s2c_rs.Failure.{StoreError, generic, is_transient}
use s2c_rs.Paths.{KeysResolver, invert, log_entry}
use s2c_rs.Paths.Order.{lex_lt, log_entry_newest_first}
use s2c_rs.Store.{ObjectStore}
use s2c_rs.Log.{append, get_at, get_head, entry_path}
use s2c_rs.Log.Append.{Appended, append-Appended}
use s2c_rs.Log.History
use s2c_rs.Log.History.{Event, fetched, allows, ends, appends, fetches, written_once}
use s2c_rs.Log.Read.{get_at-append}
use s2c_rs.Log.Retry.{append_ends}
use s2c_rs.Log.Head.{get_head_newest}
use s2c_rs.Examples.Memory.{Objects, memory, memory_laws, create}
use s2c_rs.Examples.Names.{memory-NamesEntries}
use s2c_rs.Examples.Nodes.{group_log}

abbrev payload : Bytes
payload = codes "x"

abbrev one_entry : Objects
one_entry = (entry_path memory group_log 1, payload) ∷ []

abbrev two_entries : Objects
two_entries = (entry_path memory group_log 2, payload) ∷ one_entry

appended : append memory 1 group_log 1 payload [] ≡ returns (ok tt, one_entry)
unfolding append s2c_rs.Log.append_loop
appended = refl

read_back : get_at memory 1 group_log 1 one_entry ≡ returns (ok payload, one_entry)
unfolding get_at s2c_rs.Log.get_loop entry_path log_entry s2c_rs.Log.new s2c_rs.Paths.new
    s2c_rs.Paths.Decimal.decimal s2c_rs.Paths.Decimal.digits invert
read_back = refl

get_at-append_example : payload ≡ payload
get_at-append_example =
    get_at-append memory memory_laws 1 1 group_log 1 payload payload [] one_entry one_entry
      one_entry appended (λ q w h. h) read_back

append-Appended_example :
    Appended memory memory_laws (entry_path memory group_log 1) payload [] (ok tt) one_entry
append-Appended_example =
    append-Appended memory memory_laws 1 group_log 1 payload [] (ok tt) one_entry appended

create_never_generic :
    (p v : Bytes) (s : Objects) (m : Bytes)
    → (create p v s).0 ≡ err (generic m)
    → is_transient (generic m) ≡ true
create_never_generic p v s m h = ground arith

append_ends_example :
    (r : Result (Unit {0}) StoreError × Objects) × (append memory 4 group_log 1 payload []
      ≡ returns r)
unfolding s2c_rs.Log.new
append_ends_example =
    append_ends memory create_never_generic 3 group_log 1 payload [] refl (omega arith)

-- A store that fails every create with an error that is not transient.
abbrev broken : ObjectStore
broken = record {
  State = Objects;
  Location = Bytes;
  Handle = Bytes;
  path_from = λ p. p;
  filename = λ p. none;
  put_create = λ p v t. (err (generic (codes "denied")), t);
  list = λ p t. ([], t);
  get = λ p t. (ok p, t);
  bytes = λ h t. (ok h, t);
}

not_transient : is_transient (generic (codes "denied")) ≡ false
unfolding is_transient
not_transient = refl

newer_first :
    lex_lt (log_entry group_log.keys (invert 2)) (log_entry group_log.keys (invert 1)) ≡ true
unfolding lex_lt log_entry s2c_rs.Log.new s2c_rs.Paths.new s2c_rs.Paths.Decimal.decimal
    s2c_rs.Paths.Decimal.digits invert
newer_first = refl

get_head_newest_example :
    ((get_head memory group_log two_entries).0 ≡ returns (ok (some (invert 2))))
    × All (λ j. j < 2) (1 ∷ [])
get_head_newest_example =
    get_head_newest memory group_log two_entries [] 2 (1 ∷ []) memory-NamesEntries tt (omega arith)
      (omega arith, tt) (newer_first, tt) refl

-- A store whose listing fails once, for a moment, and then ends.
abbrev flaky : ObjectStore
flaky = record broken { list = λ p t. (err (generic (codes "timeout")) ∷ [], t) }

transient : is_transient (generic (codes "timeout")) ≡ true
unfolding is_transient
transient = refl

log_entry_newest_first_example :
    lex_lt (log_entry group_log.keys (invert 10)) (log_entry group_log.keys (invert 9)) ≡ true
log_entry_newest_first_example =
    log_entry_newest_first group_log.keys 9 10 (omega arith) (omega arith)

two_events :
    History.History memory memory_laws group_log.keys []
      (History.appended 1 payload (ok tt) ∷ fetched 1 (ok payload) ∷ [])
two_events = appends 1 group_log 1 payload refl appended (fetches 1 group_log 1 refl read_back ends)

written_once_example :
    allows (λ i. none) (History.appended 1 payload (ok tt) ∷ fetched 1 (ok payload) ∷ []) ≡ true
written_once_example = written_once memory memory_laws group_log.keys [] _ two_events
