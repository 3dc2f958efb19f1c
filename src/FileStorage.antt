-- ===== src/FileStorage.antt =====
-- src/storage/local/file_storage.rs: the metadata and the data of a group on one node. The clock of the
-- metadata is a parameter; a hash of the files, made with the crates sha2 and walkdir, is another.
pub mod Updates
pub mod Reads
pub mod CommitWrite
pub mod HasFiles
pub mod Committed
pub mod Checked
mod Tests
use fleetfs.Prelude.{
  ℕ, ◌%◌, ◌^◌, ◌/◌, String, Bool, true, false, Option, none, some, List, [], ◌∷◌, map, ◌==◌,
  if◌then◌else◌, length,
}
use fleetfs.Base.Outcome.{
  ErrorCode, Outcome, ok, err, panic, guard, corrupted, does_not_exist, uncategorized, ◌>>=◌, ◌>>◌,
}
use fleetfs.Base.Types.{
  Bytes, UserContext, Timestamp, FileKind, is_directory, EntryMetadata, OwnedDirectoryEntry,
}
use fleetfs.Base.Response.{Response}
use fleetfs.Redb.{Redb}
use fleetfs.Metadata.{
  MetadataStorage, InodeAttributes, Clock, root_inode, block_size, max_name_length, blocks,
}
use fleetfs.Metadata.Read
use fleetfs.Metadata.Xattrs
use fleetfs.Metadata.Attributes
use fleetfs.Metadata.Links
use fleetfs.Metadata.Inodes
use fleetfs.DataStorage.Files
use fleetfs.DataStorage.Files.{DataStorage, file_inode_exists}

abbrev pub build_fileattr_response : InodeAttributes → Option ℕ → EntryMetadata
unfolding blocks
build_fileattr_response a directory_entries = record {
  inode = a.inode;
  size_bytes = a.size;
  size_blocks = a.size / block_size;
  last_access_time = a.last_accessed;
  last_modified_time = a.last_modified;
  last_metadata_modified_time = a.last_metadata_changed;
  kind = a.kind;
  mode = a.mode;
  hard_links = a.hardlinks;
  user_id = a.uid;
  group_id = a.gid;
  device_id = 0;
  block_size = block_size;
  directory_entries = directory_entries;
}

abbrev pub to_fileattr_response : InodeAttributes → Option ℕ → Response
to_fileattr_response a directory_entries =
    Response.entry_metadata (build_fileattr_response a directory_entries)

pub record FileStorage (db : Redb) : Type 0 where
  pub data_storage : DataStorage
  pub metadata_storage : MetadataStorage db

-- `entries.push(OwnedDirectoryEntry { inode, name, kind })`
abbrev pub to_listed : ℕ × String × FileKind → OwnedDirectoryEntry
to_listed (inode, name, kind) = record { inode = inode; name = name; kind = kind }

module _ {db : Redb} where
  -- `self.metadata_storage.operation(...)?`, and what follows.
  unfoldable pub and_then :
      {A : Type 0}
      → FileStorage db
      → Outcome A × MetadataStorage db
      → (A → FileStorage db → Outcome Response × FileStorage db)
      → Outcome Response × FileStorage db
  and_then f (ok a, s) next = next a (record f { metadata_storage = s })
  and_then f (err e, s) next = (err e, record f { metadata_storage = s })
  and_then f (panic, s) next = (panic, record f { metadata_storage = s })

  -- `Ok(Response::Empty)`
  abbrev pub empty_response : {A : Type 0} → A → FileStorage db → Outcome Response × FileStorage db
  empty_response a f = (ok Response.empty, f)

  -- `assert_ne!(inode, ROOT_INODE)`, and what follows.
  unfoldable pub unless_root :
      ℕ → FileStorage db → Outcome Response × FileStorage db → Outcome Response × FileStorage db
  unless_root inode f next = if inode == root_inode then (panic, f) else next
