-- ===== src/Lib.antt =====
-- A model of the database of a Bluzelle node, with the theorems that make it correct.
--
-- A node of Bluzelle is a replica of a swarm that agrees through PBFT on a sequence of requests and
-- applies them to databases of key-value records. The request that has been agreed on reaches
-- `crud::handle_request` (crud/crud.cpp), which checks the permissions of the caller and the limits
-- on space, reads or writes the storage (storage/mem_storage.cpp), keeps a table of expiry times,
-- evicts records of a full database by a policy (policy/), tells the sessions that subscribed to
-- the changed key (crud/subscription_manager.cpp), and answers the caller.
--
-- The files and the code:
--   Bytes, Map, Sets, Base   std::string, the ordered maps and sets, numbers and lists
--   Protocol                 proto/database.proto: requests and responses after decoding
--   Storage                  storage/mem_storage.cpp and storage/storage_base.hpp: `create`, `read`,
--                            `update`, `remove` and the sizes; Storage.Range the range operations,
--                            Storage.Snapshot the snapshots
--   Subscriptions            crud/subscription_manager.cpp
--   Policy                   policy/random.cpp and policy/volatile_ttl.cpp
--   Codec                    the texts that crud stores
--   Crud                     crud/crud.cpp: Crud.Permissions, Crud.Expiration and Crud.Space its
--                            private helpers, Crud.Records and Crud.Databases the handlers,
--                            Crud.Requests the table of handlers and the other entry points
--   Pbft                     pbft/: Pbft.Operation is pbft_memory_operation.cpp under
--                            pbft/operations/, Pbft.Manager is pbft_operation_manager.cpp for a
--                            node without a storage for operations, Pbft.Quorum the sizes of
--                            quorums in pbft/pbft.cpp, Pbft.State the keys under which
--                            pbft_persistent_state.cpp and .hpp store values, Pbft.Checkpoints is
--                            pbft_checkpoint_manager.cpp. The rest is pbft/pbft.cpp: Pbft.Messages
--                            what nodes send, Pbft.Core the members of the class and the three
--                            messages of the agreement, Pbft.ViewChange and Pbft.NewView the
--                            messages that change the view with their tests, Pbft.Handlers the
--                            table of handlers, Pbft.Clients requests and executed operations,
--                            Pbft.Membership the transfer of the state and the messages of
--                            the database.
--                            Pbft.Agreement puts them together to the histories of a node, and
--                            Pbft.Agreement.Safety to a swarm of nodes.
--                            Pbft.Service is database_pbft_service.cpp, which hands the operations
--                            to crud in their order; crud is an interface there (`CrudBase`).
--                            Pbft.Stored and Pbft.Persistent are pbft_persistent_operation.cpp
--                            under pbft/operations/: the keys, and the calls of an operation
-- Every function has the name of the C++ function that it models; a helper with another name says
-- in its comment which part it is. The other files of a component prove its theorems, and its
-- Tests apply them to concrete states.
--
-- State is passed: an operation takes the state and returns the new one beside its result. The
-- locks of the code give each call the whole state, so calls are a sequence. A handler that throws
-- returns the exception with the state as far as it had changed it. What a node sends is a list of
-- events, in order. The clock, the peers, the sessions that still exist and the random numbers are
-- arguments (`Context` of crud, `Surroundings` of pbft). A peer of pbft is its identifier. The
-- calls on one node are a sequence, in any order (`Reached`); a swarm is a node for each peer, with
-- its operations in memory; what comes to a node is any relation (`Setting`).
-- JsonCpp, lexical_cast, trimming, Boost's archives and protobuf are parameters (`Codec`,
-- `Archive`, `Wire`, `Encoding`, fields of `Surroundings`); what a theorem needs of them is a
-- hypothesis (`IsFaithful`, `ReadsBack`), which Codec.Plain and the Tests show can hold.
--
-- Numbers: sizes and times are natural numbers with the wrap-around of their C++ types written out:
-- 2^32 for the byte counter of a database, 2^64 for size_t and uint64_t. Loops are structural
-- recursion. Two loops are on fuel, which each round takes one unit of: `select` of Policy.Random
-- has one for each key that it may draw, and `process` of Pbft.Service one for each stored request
-- and one more. A loop that would run past the end of a map returns none. `std::sort` leaves the
-- order of equal items open; here they keep their order.
--
-- Not modelled: in pbft/ the manager over a storage, the values of persistent state, the
-- connections, the status and the dummy service; the sockets of node/; crypto/ and options/, which
-- are calls of libraries; storage/rocksdb_storage.cpp, the other implementation of the storage,
-- over RocksDB; audit/, monitor/, status/, chaos/, peers_beacon/ and utils/; timers
-- other than the ends of the catch-up and the heartbeat timer, and log lines. The sequence numbers
-- of a new view are not taken modulo 2^64:
-- for a last sequence number of 2^64-1 the loop of the code that fills the gaps does not end. Where
-- `make_viewchange` throws, `initiate_viewchange` returns the node as it is.
mod Base
pub mod Bytes
pub mod Map
pub mod Storage
pub mod Protocol
pub mod Subscriptions
pub mod Sets
pub mod Codec
pub mod Policy
pub mod Crud
pub mod Pbft
