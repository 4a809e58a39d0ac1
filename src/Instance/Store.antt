-- ===== src/Instance/Store.antt =====
-- internal/instance/store.go: the directory of records. A `World` holds the directory and the
-- outcomes of the system calls to come: `true` is a call that fails, for whatever reason; past the
-- end of the list no call fails. Leases and the pruning of artifacts are not here.
pub mod World
pub mod Read
pub mod Write
pub mod Exclusive
pub mod Resolve
mod Tests
