-- ===== src/Service.antt =====
-- internal/api/impl/v1: the services of the kinds.
pub mod Entity
pub mod Folder
pub mod Secret
pub mod GlobalSecret
pub mod Variable
pub mod GlobalVariable
pub mod Datasource
pub mod GlobalDatasource
pub mod Dashboard
pub mod EphemeralDashboard
pub mod Cleaner
pub mod Persistence
pub mod Refresh
pub mod Role
pub mod GlobalRole
pub mod RoleBinding
pub mod GlobalRoleBinding
pub mod User
pub mod Project
