-- ===== src/Http/DocumentRoutes.antt =====
-- src/adapters/http/document_routes.hpp and document_routes.cpp: POST /indexes/{uid}/documents.
pub mod Validate
pub mod Batch
pub mod Level
pub mod Depth
pub mod Elements
pub mod Accepts
pub mod Malformed
pub mod Responses
pub mod Reading
