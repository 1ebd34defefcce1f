-- ===== src/Pbft.antt =====
-- pbft/: how the peers agree on the sequence of requests: the operations that are kept in memory,
-- quorums, the messages of the agreement and of the change of the view, the checkpoints, and the keys
-- of stored values.
pub mod Quorum
pub mod Operation
pub mod Manager
pub mod State
pub mod Messages
pub mod Core
pub mod Checkpoints
pub mod ViewChange
pub mod NewView
pub mod Handlers
pub mod Clients
pub mod Membership
pub mod Agreement
pub mod Service
pub mod Stored
pub mod Persistent
pub mod Tests
