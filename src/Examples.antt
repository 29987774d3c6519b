-- ===== src/Examples.antt =====
-- A store in memory and an encoding of the messages, and the theorems at concrete inputs.
pub mod Serial
pub mod Memory
pub mod Messages
pub mod Nodes
pub mod Elections
pub mod Names
pub mod Logs
pub mod Followers
pub mod Leaders
pub mod Joins
pub mod Frames
pub mod Pending
pub mod Queues
pub mod Delays
pub mod Groups
pub mod Clients
pub mod Servers
pub mod Starts
pub mod Clusters
pub mod Wires
pub mod Links
pub mod Answers
pub mod Follows
