-- ===== src/Metadata/Inodes.antt =====
-- How src/storage/local/metadata_storage.rs makes and deletes inodes, and how it starts.
use fleetfs.Prelude.{
  ℕ, zero, suc, ◌+◌, ◌-◌, ◌%◌, ◌^◌, bit_and, Bool, true, false, Option, none, some, List, [], ◌∷◌,
  ◌==◌, if◌then◌else◌,
}
use fleetfs.Base.Outcome.{
  Outcome, ok, err, assert, ok_or, corrupted, inode_does_not_exist, ◌>>=◌, ◌>>◌,
}
use fleetfs.Base.Types.{FileKind, directory, is_directory}
use fleetfs.Redb.{Redb}
use fleetfs.Metadata.{
  MetadataStorage, InodeAttributes, Clock, root_inode, block_size, write_txn, put_attrs,
}
use fleetfs.Metadata.Attributes.{suid_sgid}
use fleetfs.Metadata.Read.{next_key}

-- `while start_inode % num_raft_groups != raft_group { start_inode += 1 }`
unfoldable pub first_inode : (fuel num_raft_groups raft_group start : ℕ) → ℕ
first_inode zero n g start = start
first_inode (suc fuel) n g start =
    let next = first_inode fuel n g (start + 1) in if start % n == g then start else next

abbrev pub root_attributes : Clock → InodeAttributes
root_attributes now = record {
  inode = root_inode;
  size = 0;
  last_accessed = now 0;
  last_modified = now 1;
  last_metadata_changed = now 2;
  kind = directory;
  mode = 0o777;
  hardlinks = 2;
  uid = 0;
  gid = 0;
}

-- The attributes of a new inode. A directory starts with a link count of 2.
abbrev pub new_attributes : ℕ → (uid gid mode : ℕ) → FileKind → Clock → InodeAttributes
new_attributes inode uid gid mode kind now = record {
  inode = inode;
  size = if is_directory kind then block_size else 0;
  last_accessed = now 0;
  last_modified = now 1;
  last_metadata_changed = now 2;
  kind = kind;
  mode = bit_and mode (2 ^ 16 - 1 - suid_sgid);
  hardlinks = if is_directory kind then 2 else 1;
  uid = uid;
  gid = gid;
}

abbrev pub is_empty {ℓ} : {A : Type ℓ} → List A → Bool
is_empty [] = true
is_empty (_ ∷ _) = false

-- Of a directory that holds no database yet. The fuel of the loop is the number of groups: among so
-- many inodes in a row one is the group's.
unfoldable pub new : (db : Redb) → (raft_group num_raft_groups : ℕ) → Clock → MetadataStorage db
unfolding first_inode
new db raft_group num_raft_groups now = record {
  parents = db.insert db.empty root_inode root_inode;
  directory = db.empty;
  xattrs = db.empty;
  attrs = db.insert db.empty root_inode (root_attributes now);
  next_inode = first_inode num_raft_groups num_raft_groups raft_group (root_inode + 1);
  durability_counter = 0;
  num_raft_groups = num_raft_groups;
  poisoned = false;
}

-- `hardlinks` is a `u32`.
abbrev pub links_left : InodeAttributes → ℕ → ℕ
links_left a count = (a.hardlinks + 2 ^ 32 - count) % 2 ^ 32

module _ {db : Redb} where
  abbrev pub allocate_inode : MetadataStorage db → ℕ × MetadataStorage db
  allocate_inode s =
      (s.next_inode, record s { next_inode = (s.next_inode + s.num_raft_groups) % 2 ^ 64 })

  -- The row of a directory in the table of parents.
  abbrev pub put_parent : MetadataStorage db → ℕ → ℕ → Bool → MetadataStorage db
  put_parent s inode parent true = record s { parents = db.insert s.parents inode parent }
  put_parent s inode parent false = s

  unfoldable pub create_inode :
      ℕ
      → (uid gid mode : ℕ) → FileKind
      → Clock
      → MetadataStorage db
      → Outcome (ℕ × InodeAttributes) × MetadataStorage db
  create_inode parent uid gid mode kind now = write_txn (err corrupted) λ s. do
    let (inode, s') = allocate_inode s
    let a = new_attributes inode uid gid mode kind now
    ok ((inode, a), put_parent (put_attrs s' inode a) inode parent (is_directory kind))

  -- The tables without the inode, and whether its data are to be deleted.
  abbrev pub delete_inode : MetadataStorage db → ℕ → Bool → Outcome (Option ℕ × MetadataStorage db)
  delete_inode s inode false = ok (
    some inode,
    record s {
      attrs = db.remove s.attrs inode;
      xattrs = db.remove_range s.xattrs inode (next_key inode);
    },
  )
  delete_inode s inode true = do
    assert (is_empty (db.range s.directory inode (next_key inode)))
    ok (
      none,
      record s {
        attrs = db.remove s.attrs inode;
        xattrs = db.remove_range s.xattrs inode (next_key inode);
        parents = db.remove s.parents inode;
      },
    )

  unfoldable pub decrement_inode_link_count :
      ℕ → ℕ → Clock → MetadataStorage db → Outcome (Option ℕ) × MetadataStorage db
  decrement_inode_link_count inode count now = write_txn (err corrupted) λ s. do
    a ← ok_or (db.get s.attrs inode) inode_does_not_exist
    if links_left a count == 0
        then delete_inode s inode (is_directory a.kind)
        else ok (
          none,
          put_attrs s inode
              (record a { hardlinks = links_left a count; last_metadata_changed = now 0 }),
        )
