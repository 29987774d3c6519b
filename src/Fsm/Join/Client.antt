-- ===== src/Fsm/Join/Client.antt =====
-- `S2cClient` (src/network/client.rs) as the client of `join`.
use s2c_rs.Base.{Bool, Bytes}
use s2c_rs.Codec.{Codec}
use s2c_rs.Proto.{NodeIdentity, S2cMessage}
use s2c_rs.Store.{ObjectStore}
use s2c_rs.Net.Client.{Client}
use s2c_rs.Net.Client.System.{Reach}
use s2c_rs.Net.Client.Runs.{Sending, Connecting}
use s2c_rs.Fsm.Join.{Link}

-- The state that the node's calls act on holds a client: `connect` and `send` are those of the
-- client, and while the store is called the client's tasks go on.
pub record HasClient (S : ObjectStore) (K : Link S) (runs : Bool → Bool) (M : Codec S2cMessage)
    (client : S.State → Client) : Type 0 where
  pub puts :
      (p : S.Location) (v : Bytes) (s : S.State)
      → Reach runs M (client s) (client (S.put_create p v s).1)
  pub lists : (p : S.Location) (s : S.State) → Reach runs M (client s) (client (S.list p s).1)
  pub gets : (p : S.Location) (s : S.State) → Reach runs M (client s) (client (S.get p s).1)
  pub reads : (h : S.Handle) (s : S.State) → Reach runs M (client s) (client (S.bytes h s).1)
  pub ids : (s : S.State) → Reach runs M (client s) (client (K.new_id s).1)
  pub connects :
      (id : NodeIdentity) (s : S.State)
      → Connecting runs M (client s) (K.connect id s).0 (client (K.connect id s).1)
  pub sends :
      (id payload : Bytes) (s : S.State)
      → Sending runs M id payload
          (client s)
          (K.send id payload s).0
          (client (K.send id payload s).1)
