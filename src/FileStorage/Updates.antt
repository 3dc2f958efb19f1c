-- ===== src/FileStorage/Updates.antt =====
-- The operations of src/storage/local/file_storage.rs that a decided request makes.
use fleetfs.Prelude.{
  ℕ, ◌%◌, ◌^◌, String, Bool, true, false, Option, none, some, List, if◌then◌else◌, length,
}
use fleetfs.Base.Outcome.{Outcome, ok, err, panic, ◌>>=◌, ◌>>◌}
use fleetfs.Base.Types.{Bytes, UserContext, Timestamp, FileKind, is_directory}
use fleetfs.Base.Response.{Response}
use fleetfs.Redb.{Redb}
use fleetfs.Metadata.{InodeAttributes, Clock}
use fleetfs.Metadata.Read
use fleetfs.Metadata.Xattrs
use fleetfs.Metadata.Attributes
use fleetfs.Metadata.Links
use fleetfs.Metadata.Inodes
use fleetfs.DataStorage.Files
use fleetfs.DataStorage.Files.{DataStorage, file_inode_exists}
use fleetfs.FileStorage.{
  FileStorage, build_fileattr_response, to_fileattr_response, and_then, empty_response, unless_root,
}

-- The reply to a hard link has the attributes after it.
abbrev pub hardlink_reply : Timestamp → Outcome (InodeAttributes × Option ℕ) → Outcome Response
hardlink_reply rollback read = do
  (attributes, directory_size) ← read
  ok (Response.hardlink_transaction rollback (build_fileattr_response attributes directory_size))

-- The peers by their ids; the directories are made by the operating system.
unfoldable pub new :
    (db : Redb) (node_id raft_group num_raft_groups : ℕ) → List ℕ → Clock → Outcome (FileStorage db)
new db node_id raft_group num_raft_groups peers now = do
  data_storage ← Files.new node_id peers
  ok (record {
    data_storage = data_storage;
    metadata_storage = Inodes.new db raft_group num_raft_groups now;
  })

module _ {db : Redb} where
  unfoldable pub truncate :
      (inode new_length : ℕ)
      → UserContext
      → Clock
      → FileStorage db
      → Outcome Response × FileStorage db
  truncate inode new_length context now f =
      and_then f (Attributes.truncate inode new_length context now f.metadata_storage) λ _ f'. (
        ok Response.empty,
        record f' { data_storage = Files.truncate inode new_length f'.data_storage },
      )

  unfoldable pub utimens :
      ℕ
      → Option Timestamp
      → Option Timestamp
      → UserContext
      → Clock
      → FileStorage db
      → Outcome Response × FileStorage db
  utimens inode atime mtime context now f = unless_root inode f (
      and_then f (Attributes.utimens inode atime mtime context now f.metadata_storage)
        empty_response)

  unfoldable pub chmod :
      ℕ → ℕ → UserContext → Clock → FileStorage db → Outcome Response × FileStorage db
  chmod inode mode context now f =
      unless_root inode f
        (and_then f (Attributes.chmod inode mode context now f.metadata_storage) empty_response)

  unfoldable pub chown :
      ℕ
      → Option ℕ
      → Option ℕ
      → UserContext
      → Clock
      → FileStorage db
      → Outcome Response × FileStorage db
  chown inode uid gid context now f =
      unless_root inode f
        (and_then f (Attributes.chown inode uid gid context now f.metadata_storage) empty_response)

  unfoldable pub fsync : ℕ → FileStorage db → Outcome Response × FileStorage db
  fsync inode f = (Files.fsync inode f.data_storage >> ok Response.empty, f)

  -- The reply has the number of bytes of the request, though the node stores only some of them.
  unfoldable pub write :
      (inode offset : ℕ) → Bytes → Clock → FileStorage db → Outcome Response × FileStorage db
  write inode offset bytes now f =
      and_then f (Attributes.write inode offset (length bytes % 2 ^ 32) now f.metadata_storage)
        λ _ f'. (
          ok (Response.written (length bytes % 2 ^ 32)),
          record f' {
            data_storage = (Files.write_local_blocks inode offset bytes f'.data_storage).1;
          },
        )

  unfoldable pub hardlink_stage0_link_increment :
      ℕ → Clock → FileStorage db → Outcome Response × FileStorage db
  hardlink_stage0_link_increment inode now f =
      and_then f (Attributes.hardlink_stage0_link_increment inode now f.metadata_storage)
        λ rollback f'. (hardlink_reply rollback (Read.get_attributes inode f'.metadata_storage), f')

  unfoldable pub create_link :
      (inode new_parent : ℕ) (new_name : String)
      → UserContext
      → FileKind
      → Clock
      → FileStorage db
      → Outcome Response × FileStorage db
  create_link inode new_parent new_name context kind now f =
      and_then f (Links.create_link inode new_parent new_name context kind now f.metadata_storage)
        empty_response

  unfoldable pub replace_link :
      ℕ
      → String
      → ℕ
      → FileKind
      → UserContext
      → Clock
      → FileStorage db
      → Outcome Response × FileStorage db
  replace_link parent name new_inode kind context now f =
      and_then f (Links.replace_link parent name new_inode kind context now f.metadata_storage)
        λ old_inode f'. (ok (Response.inode old_inode), f')

  unfoldable pub update_parent :
      (inode new_parent : ℕ) → FileStorage db → Outcome Response × FileStorage db
  update_parent inode new_parent f =
      and_then f (Links.update_parent inode new_parent f.metadata_storage) empty_response

  unfoldable pub update_metadata_changed_time :
      ℕ → Clock → FileStorage db → Outcome Response × FileStorage db
  update_metadata_changed_time inode now f =
      and_then f (Attributes.update_metadata_changed_time inode now f.metadata_storage)
        empty_response

  unfoldable pub hardlink_rollback :
      ℕ → Timestamp → FileStorage db → Outcome Response × FileStorage db
  hardlink_rollback inode last_metadata_changed f =
      and_then f (Attributes.hardlink_rollback inode last_metadata_changed f.metadata_storage)
        empty_response

  unfoldable pub set_xattr :
      ℕ → String → Bytes → UserContext → Clock → FileStorage db → Outcome Response × FileStorage db
  set_xattr inode key value context now f =
      and_then f (Xattrs.set_xattr inode key value context now f.metadata_storage) empty_response

  unfoldable pub remove_xattr :
      ℕ → String → UserContext → Clock → FileStorage db → Outcome Response × FileStorage db
  remove_xattr inode key context now f =
      and_then f (Xattrs.remove_xattr inode key context now f.metadata_storage) empty_response

  unfoldable pub remove_link :
      ℕ
      → String
      → Option (ℕ × ℕ)
      → UserContext
      → Clock
      → FileStorage db
      → Outcome Response × FileStorage db
  remove_link parent name link_inode_and_uid context now f =
      and_then f (Links.remove_link parent name link_inode_and_uid context now f.metadata_storage)
        λ r f'. (ok (Response.removed_inode r.0 r.1), f')

  -- `.unwrap()`, and the empty response.
  unfoldable pub deleted :
      Outcome (Unit {0}) × DataStorage → FileStorage db → Outcome Response × FileStorage db
  deleted (ok _, d) f = (ok Response.empty, record f { data_storage = d })
  deleted (err _, d) f = (panic, record f { data_storage = d })
  deleted (panic, d) f = (panic, record f { data_storage = d })

  -- `self.data_storage.delete(deleted_inode)`, if there is an inode to delete.
  unfoldable pub delete_data : Option ℕ → FileStorage db → Outcome Response × FileStorage db
  delete_data none f = (ok Response.empty, f)
  delete_data (some inode) f = deleted (Files.delete inode f.data_storage) f

  unfoldable pub decrement_inode_link_count :
      (inode count : ℕ) → Clock → FileStorage db → Outcome Response × FileStorage db
  decrement_inode_link_count inode count now f =
      and_then f (Inodes.decrement_inode_link_count inode count now f.metadata_storage) delete_data

  -- The data of a new inode, if it is not a directory: an empty file.
  unfoldable pub new_data : ℕ → Bool → FileStorage db → FileStorage db
  new_data inode true f = f
  new_data inode false f = record f { data_storage = Files.truncate inode 0 f.data_storage }

  unfoldable pub create_inode :
      (parent uid gid mode : ℕ)
      → FileKind
      → Clock
      → FileStorage db
      → Outcome Response × FileStorage db
  create_inode parent uid gid mode kind now f =
      and_then f (Inodes.create_inode parent uid gid mode kind now f.metadata_storage) λ r f'. (
        ok (to_fileattr_response r.1 (if is_directory kind then some 0 else none)),
        new_data r.1.inode (is_directory kind) f',
      )
