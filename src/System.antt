-- ===== src/System.antt =====
-- The directory system/: the transaction managers and the worker threads of a server node.
pub mod Node
pub mod Send
pub mod Votes
pub mod Prepare
pub mod Commit
pub mod Checkpoint
pub mod Execute
pub mod ClientBatch
pub mod Batch
pub mod Worker
pub mod Responses
pub mod Answers
pub mod ViewChange
