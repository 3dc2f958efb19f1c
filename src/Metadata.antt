-- ===== src/Metadata.antt =====
-- src/storage/local/metadata_storage.rs: the inodes, directories and extended attributes of one
-- replication group, in four tables.
pub mod Access
pub mod Read
pub mod Xattrs
pub mod Attributes
pub mod Links
pub mod Inodes
pub mod Txn
pub mod Invariant
pub mod Fresh
pub mod Keep
pub mod Start
pub mod Reachable
pub mod Entries
pub mod Removal
pub mod Owners
pub mod Counts
pub mod Values
pub mod Returns
pub mod Kinds
mod Tests
use fleetfs.Prelude.{
  ℕ, ◌+◌, ◌*◌, ◌/◌, ◌%◌, ◌^◌, String, Bool, true, false, Option, none, some, List, ◌==◌,
  if◌then◌else◌,
}
use fleetfs.Prelude.HashMap
use fleetfs.Base.Outcome.{ErrorCode, Outcome, ok, err, panic, corrupted, ◌>>=◌}
use fleetfs.Base.Types.{Bytes, FileKind, Timestamp}
use fleetfs.Redb.{Redb, by_inode, by_name}

abbrev pub root_inode : ℕ
root_inode = 1

abbrev pub max_name_length : ℕ
max_name_length = 255

abbrev pub max_file_size : ℕ
max_file_size = 1024 * 1024 * 1024 * 1024

abbrev pub block_size : ℕ
block_size = 512

pub record InodeAttributes : Type 0 where
  pub inode : ℕ
  pub size : ℕ
  pub last_accessed : Timestamp
  pub last_modified : Timestamp
  pub last_metadata_changed : Timestamp
  pub kind : FileKind
  pub mode : ℕ
  pub hardlinks : ℕ
  pub uid : ℕ
  pub gid : ℕ

-- `InodeAttributes::blocks`
unfoldable pub blocks : InodeAttributes → ℕ
blocks a = a.size / block_size

-- What `now()` returns at its first, second, ... place in an operation.
abbrev pub Clock : Type 0
Clock = ℕ → Timestamp

-- The database and the counters. `poisoned`: a thread panicked with the mutex held.
pub record MetadataStorage (db : Redb) : Type 0 where
  pub parents : db.Table by_inode ℕ
  pub directory : db.Table by_name (ℕ × FileKind)
  pub xattrs : db.Table by_name Bytes
  pub attrs : db.Table by_inode InodeAttributes
  pub next_inode : ℕ
  pub durability_counter : ℕ
  pub num_raft_groups : ℕ
  pub poisoned : Bool

module _ {db : Redb} where
  -- `durability_tick`: whether the commit is to be durable, and the counter moved on.
  unfoldable pub durability_tick : MetadataStorage db → Bool × MetadataStorage db
  durability_tick s = (
    s.durability_counter % 100 == 0,
    record s { durability_counter = (s.durability_counter + 1) % 2 ^ 64 },
  )

  -- A read transaction, under the mutex.
  unfoldable pub read_txn {ℓ} :
      {A : Type ℓ} → (MetadataStorage db → Outcome A) → MetadataStorage db → Outcome A
  read_txn body s = if s.poisoned then err corrupted else body s

  -- The end of a write transaction: committed, or dropped with an error, or with a panic. A dropped one
  -- also gives the counter of inodes back, which in the source is no part of the transaction; the only
  -- operation that moves it, `create_inode`, cannot fail after that.
  abbrev pub close {ℓ} :
      {A : Type ℓ}
      → MetadataStorage db
      → Outcome (A × MetadataStorage db)
      → Outcome A × MetadataStorage db
  close s (ok (a, s')) = (ok a, s')
  close s (err e) = (err e, s)
  close s panic = (panic, record s { poisoned = true })

  -- A write transaction, under the mutex. How durable its commit is shows only after a crash.
  unfoldable pub write_txn {ℓ} :
      {A : Type ℓ}
      → Outcome A
      → (MetadataStorage db → Outcome (A × MetadataStorage db))
      → MetadataStorage db
      → Outcome A × MetadataStorage db
  unfolding durability_tick
  write_txn if_poisoned body s =
      if s.poisoned
      then (if_poisoned, s)
      else close (durability_tick s).1 (body (durability_tick s).1)

  -- `attr_table.get(&inode)?.ok_or(InodeDoesNotExist)` and `attr_table.insert(&inode, attrs)`
  abbrev pub put_attrs : MetadataStorage db → ℕ → InodeAttributes → MetadataStorage db
  put_attrs s i a = record s { attrs = db.insert s.attrs i a }
