-- ===== src/Tests.antt =====
-- The theorems at concrete inputs.
mod Collection
mod Store
mod Range
mod Gateway
mod Admission
mod Processor
mod Group
mod Verify
mod Expiry
mod Friend
mod Transfer
mod Read
mod Send
mod Deletion
mod Clear
