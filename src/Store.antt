-- ===== src/Store.antt =====
-- internal/store: the rows of the database and the statements on them.
pub mod Model
pub mod Attempts
pub mod Removal
pub mod Progress
pub mod Lookup
