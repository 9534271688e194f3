-- ===== src/Ws.antt =====
-- rockets/ws: WebSocket connections and the messages that they carry.
pub mod Types
pub mod Connection
pub mod MessageHandler
pub mod Client
pub mod Examples
