-- ===== src/Authorization.antt =====
-- internal/api/authorization: who may do what.
pub mod Permissions
pub mod Native
