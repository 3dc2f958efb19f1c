-- ===== src/FileStorage/Reads.antt =====
-- The operations of src/storage/local/file_storage.rs that change nothing.
use fleetfs.Prelude.{ℕ, String, Option, none, some, List, [], ◌∷◌, map}
use fleetfs.Base.Outcome.{
  Outcome, ok, err, guard, corrupted, does_not_exist, uncategorized, ◌>>=◌, ◌>>◌,
}
use fleetfs.Base.Types.{Bytes, UserContext}
use fleetfs.Base.Response.{Response}
use fleetfs.Redb.{Redb}
use fleetfs.Metadata.{block_size, max_name_length}
use fleetfs.Metadata.Read
use fleetfs.DataStorage.Files
use fleetfs.DataStorage.Files.{DataStorage, file_inode_exists}
use fleetfs.FileStorage.{FileStorage, to_fileattr_response, to_listed}

-- `Ok(Response::Inode { id })`, or that there is none.
abbrev pub inode_response : Option ℕ → Outcome Response
inode_response none = err does_not_exist
inode_response (some inode) = ok (Response.inode inode)

-- The loop of `local_data_checksum`: the data of every inode is there.
unfoldable pub check_files : DataStorage → List ℕ → Outcome (Unit {0})
check_files d [] = ok tt
check_files d (inode ∷ rest) = do guard (file_inode_exists inode d) corrupted; check_files d rest

module _ {db : Redb} where
  unfoldable pub statfs : FileStorage db → Response
  statfs f = Response.filesystem_information block_size max_name_length

  unfoldable pub lookup : ℕ → String → UserContext → FileStorage db → Outcome Response
  lookup parent name context f =
      Read.lookup parent name context f.metadata_storage >>= inode_response

  unfoldable pub readdir : ℕ → FileStorage db → Outcome Response
  readdir inode f = do
    entries ← Read.readdir inode f.metadata_storage
    ok (Response.directory_listing (map to_listed entries))

  unfoldable pub getattr : ℕ → FileStorage db → Outcome Response
  getattr inode f = do
    (attributes, directory_entries) ← Read.get_attributes inode f.metadata_storage
    ok (to_fileattr_response attributes directory_entries)

  unfoldable pub get_xattr : ℕ → String → UserContext → FileStorage db → Outcome Response
  get_xattr inode key context f = do
    attr ← Read.get_xattr inode key context f.metadata_storage
    ok (Response.read attr)

  unfoldable pub list_xattrs : ℕ → FileStorage db → Outcome Response
  list_xattrs inode f = do
    attrs ← Read.list_xattrs inode f.metadata_storage
    ok (Response.xattrs attrs)

  unfoldable pub read :
      (inode offset read_size : ℕ) → List (Outcome Bytes) → FileStorage db → Outcome Response
  read inode offset read_size fetched f = do
    bytes ← Files.read inode offset read_size fetched f.data_storage
    ok (Response.read bytes)

  unfoldable pub read_raw : (inode offset read_size : ℕ) → FileStorage db → Outcome Response
  read_raw inode offset read_size f = do
    bytes ← Files.read_raw inode offset read_size f.data_storage
    ok (Response.read bytes)

  unfoldable pub local_data_checksum :
      (checksum : DataStorage → Option Bytes) → FileStorage db → Outcome Bytes
  local_data_checksum checksum f = do
    inodes ← Read.non_directory_inodes f.metadata_storage
    check_files f.data_storage inodes
    elim (checksum f.data_storage) [ none ↦ err uncategorized | some hash ↦ ok hash ]
