-- ===== src/Paths.antt =====
-- src/paths.rs: the keys of a group's objects. A log entry is stored under the decimal print of
-- its inverted index.
pub mod Decimal
pub mod Order
use s2c_rs.Base.{ℕ, ◌-◌, ◌++◌, Bytes, codes, u64_max}
use Decimal.{decimal}

pub record KeysResolver : Type 0 where
  pub group_prefix : Bytes
  pub log_prefix : Bytes
  pub snapshot : Bytes

unfoldable pub new : Bytes → KeysResolver
new group_id =
    let group_prefix = codes "s2c/" ++ (group_id ++ codes "/") in
    record {
      group_prefix = group_prefix;
      log_prefix = group_prefix ++ codes "log/";
      snapshot = group_prefix ++ codes "snapshot.pb";
    }

unfoldable pub log_entry : KeysResolver → ℕ → Bytes
log_entry keys index = keys.log_prefix ++ decimal index

-- An index is a u64, so the subtraction does not underflow.
unfoldable pub invert : ℕ → ℕ
invert index = u64_max - index
