-- ===== src/MsgGateway.antt =====
-- The message gateway, internal/msggateway: which connections a node holds for which user.
pub mod UserMap
pub mod Server
pub mod Admission
