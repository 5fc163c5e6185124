-- ===== src/Group/Server.antt =====
-- internal/rpc/group/group.go: what the handlers of the group service make of its tables.
pub mod Kept
pub mod Ends
pub mod Rights
pub mod Transfer
pub mod Requests
pub mod Quit
