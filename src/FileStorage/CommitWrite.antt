-- ===== src/FileStorage/CommitWrite.antt =====
-- `commit_write` of src/storage/message_handlers/write_handler.rs: a decided request is applied.
use fleetfs.Prelude.{Option, none, some, ℕ}
use fleetfs.Base.Outcome.{Outcome, panic}
use fleetfs.Base.Types.{InodeUidPair}
use fleetfs.Base.Request.{Request}
use fleetfs.Base.Response.{Response}
use fleetfs.Redb.{Redb}
use fleetfs.Metadata.{Clock}
use fleetfs.FileStorage.{FileStorage}
use fleetfs.FileStorage.Updates.{
  fsync, hardlink_rollback, utimens, set_xattr, remove_xattr, chmod, chown, truncate, write,
  remove_link, replace_link, create_link, create_inode, hardlink_stage0_link_increment,
  update_parent, update_metadata_changed_time, decrement_inode_link_count,
}

-- `link_inode_and_uid.map(|x| (x.inode, x.uid))`
abbrev pub inode_and_uid : Option InodeUidPair → Option (ℕ × ℕ)
inode_and_uid none = none
inode_and_uid (some x) = some (x.inode, x.uid)

-- Requests that are not writes, or that the lock table or the transaction coordinator deals with, are
-- unreachable.
unfoldable pub commit_write :
    {db : Redb} → Clock → Request → FileStorage db → Outcome Response × FileStorage db
commit_write now (Request.fsync inode) f = fsync inode f
commit_write now (Request.hardlink_rollback inode last_modified_time) f =
    hardlink_rollback inode last_modified_time f
commit_write now (Request.utimens inode atime mtime context) f =
    utimens inode atime mtime context now f
commit_write now (Request.set_xattr inode key value context) f =
    set_xattr inode key value context now f
commit_write now (Request.remove_xattr inode key context) f = remove_xattr inode key context now f
commit_write now (Request.chmod inode mode context) f = chmod inode mode context now f
commit_write now (Request.chown inode uid gid context) f = chown inode uid gid context now f
commit_write now (Request.truncate inode new_length context) f =
    truncate inode new_length context now f
commit_write now (Request.write inode offset bytes) f = write inode offset bytes now f
commit_write now (Request.remove_link parent name link_inode_and_uid _ context) f =
    remove_link parent name (inode_and_uid link_inode_and_uid) context now f
commit_write now (Request.replace_link parent name new_inode kind _ context) f =
    replace_link parent name new_inode kind context now f
commit_write now (Request.create_link parent name inode kind _ context) f =
    create_link inode parent name context kind now f
commit_write now (Request.create_inode _ parent uid gid mode kind) f =
    create_inode parent uid gid mode kind now f
commit_write now (Request.hardlink_increment inode) f = hardlink_stage0_link_increment inode now f
commit_write now (Request.update_parent inode new_parent _) f = update_parent inode new_parent f
commit_write now (Request.update_metadata_changed_time inode _) f =
    update_metadata_changed_time inode now f
commit_write now (Request.decrement_inode inode decrement_count _) f =
    decrement_inode_link_count inode decrement_count now f
commit_write now _ f = (panic, f)
