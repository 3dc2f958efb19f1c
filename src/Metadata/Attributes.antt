-- ===== src/Metadata/Attributes.antt =====
-- The operations of src/storage/local/metadata_storage.rs that rewrite the attributes of one inode.
-- Arithmetic wraps around as in a release build. Constants are those of <sys/stat.h>.
use fleetfs.Prelude.{
  ℕ, ◌+◌, ◌-◌, ◌%◌, ◌^◌, max, bit_and, Bool, true, not, ◌&&◌, ◌||◌, Option, none, some, is_some,
  ltb, ◌==◌, if◌then◌else◌,
}
use fleetfs.Prelude.Int.{ℤ, pos, int_eq}
use fleetfs.Base.Outcome.{
  Outcome, ok, err, guard, ok_or, corrupted, inode_does_not_exist, operation_not_permitted,
  access_denied, file_too_large, ◌>>=◌, ◌>>◌,
}
use fleetfs.Base.Types.{UserContext, Timestamp}
use fleetfs.Base.Access.{check_access, w_ok}
use fleetfs.Redb.{Redb}
use fleetfs.Metadata.{MetadataStorage, InodeAttributes, Clock, max_file_size, write_txn, put_attrs}

-- `S_ISUID | S_ISGID`
abbrev pub suid_sgid : ℕ
suid_sgid = 0o6000

-- `libc::UTIME_NOW`
abbrev pub utime_now : ℤ
utime_now = pos 1073741823

abbrev pub is_now : Timestamp → Bool
is_now t = int_eq t.nanos utime_now

-- `time.is_none_or(|x| x.nanos != UTIME_NOW)`
abbrev pub not_now : Option Timestamp → Bool
not_now none = true
not_now (some t) = not (is_now t)

-- The time that `utimens` stores: as it was, the current time, or the time given.
abbrev pub new_time : Option Timestamp → Timestamp → Timestamp → Timestamp
new_time none old current = old
new_time (some t) old current = if is_now t then current else t

-- The clock is read for `mtime` after it was read, or not, for `atime`.
abbrev pub reads_before : Option Timestamp → ℕ
reads_before atime = if not_now atime then 0 else 1

abbrev pub get_or_old : Option ℕ → ℕ → ℕ
get_or_old none old = old
get_or_old (some new) old = new

-- The two tests of `chown`, on the new owner and on the new group.
unfoldable pub may_give : Option ℕ → (caller owner : ℕ) → Bool
may_give none caller owner = true
may_give (some uid) caller owner = caller == 0 || (uid == owner && caller == owner)

unfoldable pub may_regroup : Option ℕ → (caller owner : ℕ) → Bool
may_regroup none caller owner = true
may_regroup (some gid) caller owner = caller == 0 || caller == owner

-- The two tests of `utimens`: who may set a time of his own choice, and who may set the current one.
abbrev pub may_choose_times :
    InodeAttributes → UserContext → Option Timestamp → Option Timestamp → Bool
may_choose_times a context atime mtime =
    a.uid == context.uid || context.uid == 0 || not (not_now atime || not_now mtime)

abbrev pub may_touch : InodeAttributes → UserContext → Bool
may_touch a context =
    a.uid == context.uid || check_access a.uid a.gid a.mode context.uid context.gid w_ok

-- `truncate` wants write access.
abbrev pub may_resize : InodeAttributes → UserContext → Bool
may_resize a context = check_access a.uid a.gid a.mode context.uid context.gid w_ok

-- The caller of `chmod` is root or the owner.
abbrev pub may_chmod : InodeAttributes → UserContext → Bool
may_chmod a context = context.uid == 0 || a.uid == context.uid

module _ {db : Redb} where
  unfoldable pub utimens :
      ℕ
      → Option Timestamp
      → Option Timestamp
      → UserContext
      → Clock
      → MetadataStorage db
      → Outcome (Unit {0}) × MetadataStorage db
  utimens inode atime mtime context now = write_txn (err corrupted) λ s. do
    a ← ok_or (db.get s.attrs inode) inode_does_not_exist
    guard (may_choose_times a context atime mtime) operation_not_permitted
    guard (may_touch a context) access_denied
    ok (
      tt,
      put_attrs s inode (record a {
        last_accessed = new_time atime a.last_accessed (now 0);
        last_modified = new_time mtime a.last_modified (now (reads_before atime));
      }),
    )

  unfoldable pub chmod :
      ℕ → ℕ → UserContext → Clock → MetadataStorage db → Outcome (Unit {0}) × MetadataStorage db
  chmod inode mode context now = write_txn (err corrupted) λ s. do
    a ← ok_or (db.get s.attrs inode) inode_does_not_exist
    guard (may_chmod a context) operation_not_permitted
    ok (
      tt,
      put_attrs s inode (record a {
        mode = bit_and mode (2 ^ 32 - 1 - suid_sgid) % 2 ^ 16;
        last_metadata_changed = now 0;
      }),
    )

  unfoldable pub chown :
      ℕ
      → Option ℕ
      → Option ℕ
      → UserContext
      → Clock
      → MetadataStorage db
      → Outcome (Unit {0}) × MetadataStorage db
  chown inode uid gid context now = write_txn (err corrupted) λ s. do
    a ← ok_or (db.get s.attrs inode) inode_does_not_exist
    guard (may_give uid context.uid a.uid) operation_not_permitted
    guard (may_regroup gid context.uid a.uid) operation_not_permitted
    ok (
      tt,
      put_attrs s inode (record a {
        uid = get_or_old uid a.uid;
        gid = get_or_old gid a.gid;
        last_metadata_changed =
            if is_some uid || is_some gid then now 0 else a.last_metadata_changed;
      }),
    )

  unfoldable pub hardlink_stage0_link_increment :
      ℕ → Clock → MetadataStorage db → Outcome Timestamp × MetadataStorage db
  hardlink_stage0_link_increment inode now = write_txn (err corrupted) λ s. do
    a ← ok_or (db.get s.attrs inode) inode_does_not_exist
    ok (
      a.last_metadata_changed,
      put_attrs s inode
          (record a { hardlinks = (a.hardlinks + 1) % 2 ^ 32; last_metadata_changed = now 0 }),
    )

  unfoldable pub hardlink_rollback :
      ℕ → Timestamp → MetadataStorage db → Outcome (Unit {0}) × MetadataStorage db
  hardlink_rollback inode last_metadata_changed = write_txn (err corrupted) λ s. do
    a ← ok_or (db.get s.attrs inode) inode_does_not_exist
    ok (
      tt,
      put_attrs s inode (record a {
        hardlinks = (a.hardlinks + 2 ^ 32 - 1) % 2 ^ 32;
        last_metadata_changed = last_metadata_changed;
      }),
    )

  unfoldable pub update_metadata_changed_time :
      ℕ → Clock → MetadataStorage db → Outcome (Unit {0}) × MetadataStorage db
  update_metadata_changed_time inode now = write_txn (err corrupted) λ s. do
    a ← ok_or (db.get s.attrs inode) inode_does_not_exist
    ok (tt, put_attrs s inode (record a { last_metadata_changed = now 0 }))

  unfoldable pub truncate :
      ℕ → ℕ → UserContext → Clock → MetadataStorage db → Outcome (Unit {0}) × MetadataStorage db
  truncate inode new_length context now s =
      if ltb max_file_size new_length
      then (err file_too_large, s)
      else write_txn (err corrupted)
          (λ s. do
            a ← ok_or (db.get s.attrs inode) inode_does_not_exist
            guard (may_resize a context) access_denied
            ok (
              tt,
              put_attrs s inode (record a {
                size = new_length;
                last_metadata_changed = now 0;
                last_modified = now 1;
              }),
            ))
          s

  unfoldable pub write :
      ℕ → (offset length : ℕ) → Clock → MetadataStorage db → Outcome (Unit {0}) × MetadataStorage db
  write inode offset length now = write_txn (err corrupted) λ s. do
    a ← ok_or (db.get s.attrs inode) inode_does_not_exist
    ok (
      tt,
      put_attrs s inode (record a {
        size = max a.size ((length + offset) % 2 ^ 64);
        last_metadata_changed = now 0;
        last_modified = now 1;
      }),
    )
