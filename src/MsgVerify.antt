-- ===== src/MsgVerify.antt =====
-- internal/rpc/msg: who may send a message (verify.go) and who may take one back (revoke.go).
pub mod Send
pub mod Receive
pub mod Revoke
