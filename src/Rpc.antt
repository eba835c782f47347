-- ===== src/Rpc.antt =====
-- crates/queue-runner/src/rpc: the runner's side of the agents' connections.
pub mod Slots
pub mod Agent
pub mod Pool
pub mod LogSink
pub mod ResultSink
pub mod OutputSink
pub mod UploadVerify
