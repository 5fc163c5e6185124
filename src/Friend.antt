-- ===== src/Friend.antt =====
-- The friend service: internal/rpc/friend over pkg/common/db/controller/friend.go and black.go,
-- with the tables of pkg/common/db/relation.
pub mod Tables
pub mod Database
pub mod Server
