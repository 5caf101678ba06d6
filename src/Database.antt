-- ===== src/Database.antt =====
-- internal/api/database: the resources in files.
pub mod Path
pub mod File
