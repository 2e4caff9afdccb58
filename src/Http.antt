-- ===== src/Http.antt =====
-- The HTTP adapter (src/adapters/http).
pub mod Hex
pub mod JsonString
pub mod JsonObject
pub mod ErrorResponse
pub mod RequestId
pub mod JsonTimestamp
pub mod ContentType
pub mod SystemRoutes
pub mod Simdjson
pub mod Httplib
pub mod HttplibServer
pub mod IndexRoutes
pub mod DocumentRoutes
