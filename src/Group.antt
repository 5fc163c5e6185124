-- ===== src/Group.antt =====
-- internal/rpc/group: the group service and its tables.
pub mod Tables
pub mod Calls
pub mod Leaving
pub mod Joining
pub mod Creating
pub mod Roles
pub mod Server
