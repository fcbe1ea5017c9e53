-- ===== src/Store.antt =====
-- api/internal/store: the SQLite tables and the statements over them.
pub mod Table
pub mod Blocks
pub mod Samples
pub mod Boosted
pub mod Laws
pub mod Open
