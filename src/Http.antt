-- ===== src/Http.antt =====
-- The HTTP side of the program (rockets/http).
pub mod Code
pub mod Types
pub mod FuncMap
pub mod Registry
pub mod Lws
pub mod Channel
pub mod Decimal
pub mod Connection
pub mod RegistryJson
pub mod Handler
pub mod ClientChannel
pub mod Client
pub mod Examples
pub mod ClientExamples
