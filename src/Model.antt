-- ===== src/Model.antt =====
-- pkg/model/api/v1: the resources that the API stores, and what decoding one checks.
pub mod Unmarshal
pub mod Kind
pub mod Metadata
pub mod Resource
pub mod Folder
pub mod Secret
pub mod Datasource
pub mod Permission
pub mod Role
pub mod RoleBinding
pub mod User
pub mod Project
pub mod Duration
