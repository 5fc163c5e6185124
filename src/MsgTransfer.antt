-- ===== src/MsgTransfer.antt =====
-- The message transfer: internal/msgtransfer/online_history_msg_handler.go takes messages from a
-- queue, spreads them over channels by their key, numbers those of a conversation in the cache, and
-- hands them to the queues of the database and of the push service.
pub mod Numbering
pub mod Sorting
pub mod Handler
pub mod Distribution
