-- ===== src/Base/Types.antt =====
-- The plain data of src/base/message_types.rs. Integers are natural numbers below the bound of
-- their Rust type; a byte string is a list of numbers.
use fleetfs.Prelude.{ℕ, String, Bool, true, false, Option, List}
use fleetfs.Prelude.Int.{ℤ}

abbrev pub Bytes : Type 0
Bytes = List ℕ

pub data FileKind : Type 0 where
  file directory symlink : FileKind

-- `kind == FileKind::Directory`
abbrev pub is_directory : FileKind → Bool
is_directory directory = true
is_directory _ = false

pub record CommitId : Type 0 where
  pub term : ℕ
  pub index : ℕ

pub record InodeUidPair : Type 0 where
  pub inode : ℕ
  pub uid : ℕ

pub record UserContext : Type 0 where
  pub uid : ℕ
  pub gid : ℕ

pub record Timestamp : Type 0 where
  pub seconds : ℤ
  pub nanos : ℤ

pub record EntryMetadata : Type 0 where
  pub inode : ℕ
  pub size_bytes : ℕ
  pub size_blocks : ℕ
  pub last_access_time : Timestamp
  pub last_modified_time : Timestamp
  pub last_metadata_modified_time : Timestamp
  pub kind : FileKind
  pub mode : ℕ
  pub hard_links : ℕ
  pub user_id : ℕ
  pub group_id : ℕ
  pub device_id : ℕ
  pub block_size : ℕ
  pub directory_entries : Option ℕ

pub record OwnedDirectoryEntry : Type 0 where
  pub inode : ℕ
  pub name : String
  pub kind : FileKind
