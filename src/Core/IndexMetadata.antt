-- ===== src/Core/IndexMetadata.antt =====
-- src/core/index_metadata.hpp and timestamp.hpp.
use leta.Prelude.{ℤ, Option, Bytes}
use leta.Core.IndexUid.{IndexUid}

-- Timestamp: a signed count of milliseconds since 1970-01-01T00:00:00Z
abbrev pub Timestamp : Type 0
Timestamp = ℤ

-- struct IndexMetadata
pub record IndexMetadata : Type 0 where
  pub uid : IndexUid
  pub primary_key : Option Bytes
  pub created_at : Timestamp
  pub updated_at : Timestamp
