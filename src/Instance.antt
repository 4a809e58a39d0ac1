-- ===== src/Instance.antt =====
-- internal/instance: the records of running workers, their names and the store that holds them.
pub mod Name
pub mod Record
pub mod Store
