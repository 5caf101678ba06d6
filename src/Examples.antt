-- ===== src/Examples.antt =====
-- Concrete runs of the theorems of the other modules.
mod Variables
mod Requests
mod Access
mod Decoding
mod Plugins
mod Rows
mod Roles
mod Files
mod Secrets
mod Folders
mod Dashboards
mod Projects
mod Owners
mod Durations
mod Cleaning
