-- ===== src/MsgStore.antt =====
-- The message store: pkg/common/db/table/unrelation/msg.go (documents of messages),
-- pkg/common/convert/msg.go, and pkg/common/db/controller/msg.go (the operations on both).
pub mod Doc
pub mod Convert
pub mod Block
pub mod Chat
pub mod Range
pub mod Expiry
pub mod Deletion
pub mod Reading
