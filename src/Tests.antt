-- ===== src/Tests.antt =====
-- The theorems of the other modules at concrete inputs.
mod Runtime
mod Wire
mod Rpc
mod System
