-- ===== src/Api.antt =====
-- internal/api: the REST handlers and the router over all the services.
pub mod System
pub mod Dispatch
pub mod Paths
pub mod Files
pub mod Shares
pub mod Families
pub mod Users
pub mod Disks
pub mod Processes
pub mod Interfaces
pub mod Acls
pub mod Overview
pub mod Router
