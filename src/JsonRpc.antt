-- ===== src/JsonRpc.antt =====
-- The JSON-RPC side of the program (rockets/jsonrpc).
pub mod ErrorCode
pub mod Message
pub mod Processor
pub mod Receiver
pub mod Cancellable
pub mod CancellableReceiver
pub mod AsyncReceiver
pub mod Requester
pub mod OverHttp
pub mod ClientRequest
pub mod Examples
pub mod CancelExamples
pub mod ProgressExamples
pub mod HttpExamples
