-- ===== src/Net/Wire.antt =====
-- The client of src/network/client.rs and the group server of src/network/group_server.rs, each
-- with a reader at the other end of its connection.
pub mod Disconnect
pub mod Delivery
