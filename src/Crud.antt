-- ===== src/Crud.antt =====
-- crud/crud.cpp: the database front end. `State` has its state and what a call may see of its
-- surroundings; `Permissions`, `Expiration` and `Space` its private helpers; `Records` and
-- `Databases` the handlers; `Requests` the dispatch and the other entry points.
pub mod State
pub mod Permissions
pub mod Expiration
pub mod Space
pub mod Records
pub mod Databases
pub mod Requests
pub mod Writes
pub mod Access
pub mod Isolation
pub mod Expiry
pub mod Roles
pub mod Eviction
pub mod Limits
pub mod Tests
