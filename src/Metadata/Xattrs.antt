-- ===== src/Metadata/Xattrs.antt =====
-- `set_xattr` and `remove_xattr` of src/storage/local/metadata_storage.rs.
use fleetfs.Prelude.{ℕ, String, is_some}
use fleetfs.Base.Outcome.{
  Outcome, ok, err, guard, ok_or, corrupted, inode_does_not_exist, missing_xattr_key, ◌>>=◌, ◌>>◌,
}
use fleetfs.Base.Types.{Bytes, UserContext}
use fleetfs.Base.Access.{w_ok}
use fleetfs.Redb.{Redb}
use fleetfs.Metadata.{MetadataStorage, Clock, write_txn, put_attrs}
use fleetfs.Metadata.Access.{xattr_access_check}

module _ {db : Redb} where
  unfoldable pub set_xattr :
      ℕ
      → String
      → Bytes
      → UserContext
      → Clock
      → MetadataStorage db
      → Outcome (Unit {0}) × MetadataStorage db
  set_xattr inode key value context now = write_txn (err corrupted) λ s. do
    inode_attrs ← ok_or (db.get s.attrs inode) inode_does_not_exist
    xattr_access_check key w_ok inode_attrs context
    let s' = record s { xattrs = db.insert s.xattrs (inode, key) value }
    ok (tt, put_attrs s' inode (record inode_attrs { last_metadata_changed = now 0 }))

  unfoldable pub remove_xattr :
      ℕ
      → String
      → UserContext
      → Clock
      → MetadataStorage db
      → Outcome (Unit {0}) × MetadataStorage db
  remove_xattr inode key context now = write_txn (err corrupted) λ s. do
    inode_attrs ← ok_or (db.get s.attrs inode) inode_does_not_exist
    xattr_access_check key w_ok inode_attrs context
    guard (is_some (db.get s.xattrs (inode, key))) missing_xattr_key
    let s' = record s { xattrs = db.remove s.xattrs (inode, key) }
    ok (tt, put_attrs s' inode (record inode_attrs { last_metadata_changed = now 0 }))
