-- ===== src/Metadata/Read.antt =====
-- The read transactions of src/storage/local/metadata_storage.rs.
use Prim.Native.String.{len}
use mathlib.Core.Option
use fleetfs.Prelude.{
  ℕ, ◌+◌, ◌%◌, ◌^◌, String, Option, none, some, is_some, List, [], ◌∷◌, map, ltb, length,
  if◌then◌else◌,
}
use fleetfs.Base.Outcome.{
  Outcome, ok, err, guard, ok_or, inode_does_not_exist, does_not_exist, name_too_long,
  access_denied, missing_xattr_key, ◌>>=◌, ◌>>◌,
}
use fleetfs.Base.Types.{Bytes, FileKind, directory, is_directory, UserContext}
use fleetfs.Base.Access.{check_access, x_ok, r_ok}
use fleetfs.Redb.{Redb}
use fleetfs.Metadata.{MetadataStorage, InodeAttributes, max_name_length, read_txn}
use fleetfs.Metadata.Access.{xattr_access_check}

-- The bound `inode + 1` of a range, a `u64`.
abbrev pub next_key : ℕ → ℕ
next_key i = (i + 1) % 2 ^ 64

-- The loop of `non_directory_inodes`.
unfoldable pub keep_files : List (ℕ × InodeAttributes) → List ℕ
keep_files [] = []
keep_files ((i, a) ∷ rest) =
    let more = keep_files rest in if is_directory a.kind then more else i ∷ more

abbrev pub to_entry : (ℕ × String) × (ℕ × FileKind) → ℕ × String × FileKind
to_entry (key, value) = (value.0, key.1, value.1)

module _ {db : Redb} where
  unfoldable pub non_directory_inodes : MetadataStorage db → Outcome (List ℕ)
  non_directory_inodes = read_txn (λ s. ok (keep_files (db.iter s.attrs)))

  unfoldable pub lookup : ℕ → String → UserContext → MetadataStorage db → Outcome (Option ℕ)
  lookup parent name context s =
      if ltb max_name_length (len name)
      then err name_too_long
      else read_txn
          (λ s. do
            parent_attrs ← ok_or (db.get s.attrs parent) inode_does_not_exist
            guard
                (check_access parent_attrs.uid parent_attrs.gid parent_attrs.mode context.uid
                  context.gid x_ok)
                access_denied
            ok (Option.map (λ (e : ℕ × FileKind). e.0) (db.get s.directory (parent, name))))
          s

  unfoldable pub get_xattr : ℕ → String → UserContext → MetadataStorage db → Outcome Bytes
  get_xattr inode key context = read_txn λ s. do
    inode_attrs ← ok_or (db.get s.attrs inode) inode_does_not_exist
    xattr_access_check key r_ok inode_attrs context
    ok_or (db.get s.xattrs (inode, key)) missing_xattr_key

  unfoldable pub list_xattrs : ℕ → MetadataStorage db → Outcome (List String)
  list_xattrs inode =
      read_txn λ s.
        ok (map (λ (e : (ℕ × String) × Bytes). e.0.1) (db.range s.xattrs inode (next_key inode)))

  unfoldable pub readdir : ℕ → MetadataStorage db → Outcome (List (ℕ × String × FileKind))
  readdir inode = read_txn λ s. do
    guard (is_some (db.get s.attrs inode)) does_not_exist
    parent_inode ← ok_or (db.get s.parents inode) inode_does_not_exist
    ok (
        (inode, ".", directory)
        ∷ (parent_inode, "..", directory)
        ∷ map to_entry (db.range s.directory inode (next_key inode)))

  -- The attributes, and the number of entries of a directory, a `u32`.
  unfoldable pub get_attributes : ℕ → MetadataStorage db → Outcome (InodeAttributes × Option ℕ)
  get_attributes inode = read_txn λ s. do
    attributes ← ok_or (db.get s.attrs inode) inode_does_not_exist
    let entries = length (db.range s.directory inode (next_key inode))
    ok (attributes, if is_directory attributes.kind then some (entries % 2 ^ 32) else none)
