-- ===== src/Context.antt =====
-- src/context.rs: the group and the node of a process, as its client and its logs read them.
use s2c_rs.Base.{ℕ, ◌-◌, ◌^◌, Bool, List, [], ◌∷◌, ◌++◌, Bytes, codes, ltb, if◌then◌else◌}
use s2c_rs.Paths.Decimal.{decimal}
use s2c_rs.Proto.{NodeIdentity}

pub record Context : Type 0 where
  pub s2c_group_id : Bytes
  pub port_str : Bytes
  pub log_node_identity : Bool
  pub node_identity : NodeIdentity

-- `i32::to_string`, of the bit pattern of a port.
unfoldable pub signed : ℕ → Bytes
signed n = if ltb n (2 ^ 31) then decimal n else b'-' ∷ decimal (2 ^ 32 - n)

unfoldable pub new : Bytes → NodeIdentity → Bool → Context
new s2c_group_id node_identity log_node_identity = record {
  s2c_group_id = s2c_group_id;
  port_str = signed node_identity.port;
  log_node_identity = log_node_identity;
  node_identity = node_identity;
}

unfoldable pub as_vec : Context → List (Bytes × Bytes)
as_vec c =
    let vec = (codes "s2c_group_id", c.s2c_group_id) ∷ [] in
    if c.log_node_identity
    then vec
      ++ ((codes "node_id", c.node_identity.id)
          ∷ (codes "node_address", c.node_identity.address)
          ∷ (codes "node_port", c.port_str)
          ∷ [])
    else vec
