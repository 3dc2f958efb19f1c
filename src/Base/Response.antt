-- ===== src/Base/Response.antt =====
-- `Response` of src/base/message_types.rs. The map of `Checksums` is an association list.
use fleetfs.Prelude.{ℕ, String, Bool, List}
use fleetfs.Base.Outcome.{ErrorCode}
use fleetfs.Base.Types.{Bytes, Timestamp, EntryMetadata, OwnedDirectoryEntry}

pub data Response : Type 0 where
  lock : (lock_id : ℕ) → Response
  filesystem_information : (block_size max_name_length : ℕ) → Response
  node_id inode : (id : ℕ) → Response
  removed_inode : (id : ℕ) (complete : Bool) → Response
  written : (bytes_written : ℕ) → Response
  xattrs : (attrs : List String) → Response
  read : (bytes : Bytes) → Response
  latest_commit : (term index : ℕ) → Response
  directory_listing : List OwnedDirectoryEntry → Response
  entry_metadata : EntryMetadata → Response
  hardlink_transaction : (rollback_last_modified : Timestamp) (attrs : EntryMetadata) → Response
  empty : Response
  error_occurred : ErrorCode → Response
  checksums : List (ℕ × Bytes) → Response
