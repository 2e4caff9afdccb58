-- ===== src/Core.antt =====
-- The domain core (src/core): values and errors that know nothing of HTTP, JSON or storage.
pub mod Error
pub mod IndexUid
pub mod WhitespaceTokenizer
pub mod Map
pub mod ExactMatchIndex
pub mod IndexMetadata
