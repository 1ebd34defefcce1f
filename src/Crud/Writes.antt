-- ===== src/Crud/Writes.antt =====
-- Everything that a request can do to the storage, in one place: a property of storages that the
-- writes for the request's database keep is kept by every handler, on every branch, exceptions
-- included.
pub mod Rules
pub mod Readers
pub mod Writers
pub mod Handlers
pub mod Every
