-- ===== src/Metadata/Links.antt =====
-- The operations of src/storage/local/metadata_storage.rs on directory entries.
use fleetfs.Prelude.{
  ℕ, String, bit_and, Bool, true, false, not, ◌&&◌, Option, none, some, ◌==◌, if◌then◌else◌,
}
use fleetfs.Base.Outcome.{
  Outcome, ok, err, panic, guard, assert, ok_or, unwrap, corrupted, inode_does_not_exist,
  does_not_exist, access_denied, already_exists, ◌>>=◌, ◌>>◌,
}
use fleetfs.Base.Types.{UserContext, FileKind, is_directory}
use fleetfs.Base.Access.{check_access, w_ok}
use fleetfs.Redb.{Redb}
use fleetfs.Metadata.{MetadataStorage, InodeAttributes, Clock, write_txn, put_attrs}
use fleetfs.Metadata.Read.{lookup}

-- `S_ISVTX`
abbrev pub sticky : ℕ
sticky = 0o1000

-- `attrs.mode & S_ISVTX != 0`
abbrev pub is_sticky : ℕ → Bool
is_sticky mode = not (bit_and mode sticky == 0)

-- The write access to a directory that changes one of its entries.
abbrev pub may_write : InodeAttributes → UserContext → Bool
may_write a context = check_access a.uid a.gid a.mode context.uid context.gid w_ok

-- What the sticky bit of the directory says of removing an entry: refused, allowed, or (the owner of
-- the inode is not known) undecided.
pub data Verdict : Type 0 where
  refused allowed undecided : Verdict

abbrev pub by_owner : ℕ → Option (ℕ × ℕ) → Verdict
by_owner uid none = undecided
by_owner uid (some (_, inode_uid)) = if uid == inode_uid then allowed else refused

unfoldable pub sticky_verdict : InodeAttributes → ℕ → Option (ℕ × ℕ) → Verdict
sticky_verdict a uid link =
    if is_sticky a.mode && not (uid == a.uid) && not (uid == 0) then by_owner uid link else allowed

-- `link_inode_and_uid` names an inode other than the entry's.
abbrev pub is_stale : Option (ℕ × ℕ) → ℕ → Bool
is_stale none inode = false
is_stale (some (retrieved, _)) inode = not (retrieved == inode)

module _ {db : Redb} where
  -- The parent's times, and an entry.
  abbrev pub touch_parent : MetadataStorage db → ℕ → InodeAttributes → Clock → MetadataStorage db
  touch_parent s parent a now =
      put_attrs s parent (record a { last_modified = now 0; last_metadata_changed = now 1 })

  -- The transaction of `create_link`, after the lookup.
  unfoldable pub link_txn :
      ℕ
      → ℕ
      → String
      → UserContext
      → FileKind
      → Clock
      → MetadataStorage db
      → Outcome (Unit {0}) × MetadataStorage db
  link_txn inode parent name context inode_kind now = write_txn (err corrupted) λ s. do
    parent_attrs ← ok_or (db.get s.attrs parent) inode_does_not_exist
    guard (may_write parent_attrs context) access_denied
    let s' = touch_parent s parent parent_attrs now
    ok (tt, record s' { directory = db.insert s.directory (parent, name) (inode, inode_kind) })

  unfoldable pub create_link :
      ℕ
      → ℕ
      → String
      → UserContext
      → FileKind
      → Clock
      → MetadataStorage db
      → Outcome (Unit {0}) × MetadataStorage db
  create_link inode parent name context inode_kind now s = elim (lookup parent name context s) [
    | ok none ↦ link_txn inode parent name context inode_kind now s
    | ok (some _) ↦ (err already_exists, s)
    | err e ↦ (err e, s)
    | panic ↦ (panic, s)
  ]

  unfoldable pub replace_link :
      ℕ
      → String
      → ℕ
      → FileKind
      → UserContext
      → Clock
      → MetadataStorage db
      → Outcome ℕ × MetadataStorage db
  replace_link parent name new_inode inode_kind context now = write_txn (err corrupted) λ s. do
    parent_attrs ← ok_or (db.get s.attrs parent) inode_does_not_exist
    guard (may_write parent_attrs context) access_denied
    let s' = touch_parent s parent parent_attrs now
    (old_inode, _) ← unwrap (db.get s.directory (parent, name))
    ok (
      old_inode,
      record s' { directory = db.insert s.directory (parent, name) (new_inode, inode_kind) },
    )

  -- The end of `remove_link`: the entry goes, or the transaction is aborted.
  abbrev pub remove_entry :
      MetadataStorage db
      → ℕ
      → String
      → ℕ
      → InodeAttributes
      → Clock
      → Verdict
      → Outcome ((ℕ × Bool) × MetadataStorage db)
  remove_entry s parent name inode parent_attrs now refused = err access_denied
  remove_entry s parent name inode parent_attrs now undecided = ok ((inode, false), s)
  remove_entry s parent name inode parent_attrs now allowed = ok (
    (inode, true),
    record (put_attrs s parent
        (record parent_attrs { last_metadata_changed = now 0; last_modified = now 1 })) {
          directory = db.remove s.directory (parent, name);
        },
  )

  unfoldable pub remove_link :
      ℕ
      → String
      → Option (ℕ × ℕ)
      → UserContext
      → Clock
      → MetadataStorage db
      → Outcome (ℕ × Bool) × MetadataStorage db
  unfolding sticky_verdict
  remove_link parent name link_inode_and_uid context now = write_txn panic λ s. do
    parent_attrs ← ok_or (db.get s.attrs parent) inode_does_not_exist
    (inode, _) ← ok_or (db.get s.directory (parent, name)) does_not_exist
    if is_stale link_inode_and_uid inode then ok ((inode, false), s) else do
      guard (may_write parent_attrs context) access_denied
      remove_entry s parent name inode parent_attrs now
          (sticky_verdict parent_attrs context.uid link_inode_and_uid)

  unfoldable pub update_parent :
      ℕ → ℕ → MetadataStorage db → Outcome (Unit {0}) × MetadataStorage db
  update_parent inode new_parent = write_txn (err corrupted) λ s. do
    a ← unwrap (db.get s.attrs inode)
    assert (is_directory a.kind)
    ok (tt, record s { parents = db.insert s.parents inode new_parent })
