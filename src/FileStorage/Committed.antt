-- ===== src/FileStorage/Committed.antt =====
-- `commit_write` of src/storage/message_handlers/write_handler.rs keeps the metadata and the data of a
-- node together: the invariant that `local_data_checksum` of src/storage/local/file_storage.rs checks.
use fleetfs.Prelude.{ℕ, ◌%◌, ◌^◌, length, Bool, true, false, ◌==◌, if◌then◌else◌}
use fleetfs.Base.Outcome.{Outcome, ok, err, panic}
use fleetfs.Base.Request.{Request}
use fleetfs.Base.Response.{Response}
use fleetfs.Redb.{Redb}
use fleetfs.Metadata.{MetadataStorage, Clock, root_inode}
use fleetfs.Metadata.Kinds.{SameKinds, unchanged}
use fleetfs.Metadata.Kinds.Attributes.{
  utimens-SameKinds, chmod-SameKinds, chown-SameKinds, hardlink_stage0_link_increment-SameKinds,
  hardlink_rollback-SameKinds, update_metadata_changed_time-SameKinds, truncate-SameKinds,
  write-SameKinds, set_xattr-SameKinds, remove_xattr-SameKinds,
}
use fleetfs.Metadata.Kinds.Links.{
  create_link-SameKinds, replace_link-SameKinds, remove_link-SameKinds, update_parent-SameKinds,
}
use fleetfs.Metadata.Kinds.Inodes.{Ending, create_inode-Ending, decrement_inode_link_count-Ending}
use fleetfs.DataStorage.Files
use fleetfs.FileStorage.{FileStorage, and_then, unless_root}
use fleetfs.FileStorage.Updates.{
  truncate, utimens, chmod, chown, fsync, write, hardlink_stage0_link_increment, create_link,
  replace_link, update_parent, update_metadata_changed_time, hardlink_rollback, set_xattr,
  remove_xattr, remove_link, decrement_inode_link_count, create_inode,
}
use fleetfs.FileStorage.CommitWrite.{inode_and_uid, commit_write}
use fleetfs.FileStorage.HasFiles.{
  HasFiles, HasFiles-SameKinds, put_file-HasFiles, new_data-HasFiles, delete_data-HasFiles,
}

module _ {db : Redb} where
  -- The files are there afterwards.
  record Stays (r : Outcome Response × FileStorage db) : Type 0 where
    stays : HasFiles r.1

  holds : (r : Outcome Response) (f : FileStorage db) → HasFiles f → Stays (r, f)
  holds r f h = record { stays = h }

  and_then-Stays :
      {A : Type 0} (f : FileStorage db) (r : Outcome A × MetadataStorage db)
      (next : A → FileStorage db → Outcome Response × FileStorage db)
      → HasFiles f
      → SameKinds f.metadata_storage r.1
      → ((a : A)
          → HasFiles (record f { metadata_storage = r.1 })
          → Stays (next a (record f { metadata_storage = r.1 })))
      → Stays (and_then f r next)
  unfolding and_then
  and_then-Stays f (ok a, s) next h same k = k a (HasFiles-SameKinds f s h same)
  and_then-Stays f (err e, s) next h same k = record { stays = HasFiles-SameKinds f s h same }
  and_then-Stays f (panic, s) next h same k = record { stays = HasFiles-SameKinds f s h same }

  ended-Stays :
      {A : Type 0} (f : FileStorage db) (Q : A → MetadataStorage db → Type 0)
      (r : Outcome A × MetadataStorage db)
      (next : A → FileStorage db → Outcome Response × FileStorage db)
      → HasFiles f
      → Ending f.metadata_storage Q r
      → ((a : A) (t : MetadataStorage db)
          → Q a t
          → Stays (next a (record f { metadata_storage = t })))
      → Stays (and_then f r next)
  unfolding and_then
  ended-Stays f Q r next h (Ending.committed a t q) k = k a t q
  ended-Stays f Q r next h (Ending.dropped e t same) k = record {
    stays = HasFiles-SameKinds f t h (unchanged f.metadata_storage t same);
  }
  ended-Stays f Q r next h (Ending.crashed t same) k = record {
    stays = HasFiles-SameKinds f t h (unchanged f.metadata_storage t same);
  }

  if-Stays :
      (b : Bool) (r s : Outcome Response × FileStorage db)
      → Stays r
      → Stays s
      → Stays (if b then r else s)
  if-Stays true r s h k = h
  if-Stays false r s h k = k

  unless_root-Stays :
      (inode : ℕ) (f : FileStorage db) (next : Outcome Response × FileStorage db)
      → HasFiles f
      → Stays next
      → Stays (unless_root inode f next)
  unfolding unless_root
  unless_root-Stays inode f next h k =
      if-Stays (inode == root_inode) (panic, f) next (record { stays = h }) k

  commit_write-Stays :
      (now : Clock) (request : Request) (f : FileStorage db)
      → HasFiles f
      → Stays (commit_write now request f)
  unfolding commit_write truncate utimens chmod chown write hardlink_stage0_link_increment
      create_link replace_link update_parent update_metadata_changed_time hardlink_rollback
      set_xattr remove_xattr remove_link decrement_inode_link_count create_inode fsync
      Files.truncate Files.write_local_blocks
  commit_write-Stays now (Request.fsync inode) f h = record { stays = h }
  commit_write-Stays now (Request.hardlink_rollback inode time) f h =
      and_then-Stays f _ _ h (hardlink_rollback-SameKinds _ inode time) (λ _. holds _ _)
  commit_write-Stays now (Request.utimens inode atime mtime context) f h =
      unless_root-Stays inode f _ h (
        and_then-Stays f _ _ h (utimens-SameKinds _ inode atime mtime context now) (λ _. holds _ _))
  commit_write-Stays now (Request.set_xattr inode key value context) f h =
      and_then-Stays f _ _ h (set_xattr-SameKinds _ inode key value context now) (λ _. holds _ _)
  commit_write-Stays now (Request.remove_xattr inode key context) f h =
      and_then-Stays f _ _ h (remove_xattr-SameKinds _ inode key context now) (λ _. holds _ _)
  commit_write-Stays now (Request.chmod inode mode context) f h =
      unless_root-Stays inode f _ h
        (and_then-Stays f _ _ h (chmod-SameKinds _ inode mode context now) (λ _. holds _ _))
  commit_write-Stays now (Request.chown inode uid gid context) f h =
      unless_root-Stays inode f _ h
        (and_then-Stays f _ _ h (chown-SameKinds _ inode uid gid context now) (λ _. holds _ _))
  commit_write-Stays now (Request.truncate inode new_length context) f h =
      and_then-Stays f _ _ h (truncate-SameKinds _ inode new_length context now)
        (λ _ k. holds _ _ (put_file-HasFiles _ inode _ k))
  commit_write-Stays now (Request.write inode offset bytes) f h =
      and_then-Stays f _ _ h (write-SameKinds _ inode offset (length bytes % 2 ^ 32) now)
        (λ _ k. holds _ _ (put_file-HasFiles _ inode _ k))
  commit_write-Stays now (Request.remove_link parent name link _ context) f h =
      and_then-Stays f _ _ h (remove_link-SameKinds _ parent name (inode_and_uid link) context now)
        (λ _. holds _ _)
  commit_write-Stays now (Request.replace_link parent name new_inode kind _ context) f h =
      and_then-Stays f _ _ h (replace_link-SameKinds _ parent name new_inode kind context now)
        (λ _. holds _ _)
  commit_write-Stays now (Request.create_link parent name inode kind _ context) f h =
      and_then-Stays f _ _ h (create_link-SameKinds _ inode parent name context kind now)
        (λ _. holds _ _)
  commit_write-Stays now (Request.create_inode _ parent uid gid mode kind) f h =
      ended-Stays f _ _ _ h (create_inode-Ending f.metadata_storage parent uid gid mode kind now)
        (λ x t q. holds _ _ (new_data-HasFiles f t kind x h q))
  commit_write-Stays now (Request.hardlink_increment inode) f h =
      and_then-Stays f _ _ h (hardlink_stage0_link_increment-SameKinds _ inode now) (λ _. holds _ _)
  commit_write-Stays now (Request.update_parent inode new_parent _) f h =
      and_then-Stays f _ _ h (update_parent-SameKinds _ inode new_parent) (λ _. holds _ _)
  commit_write-Stays now (Request.update_metadata_changed_time inode _) f h =
      and_then-Stays f _ _ h (update_metadata_changed_time-SameKinds _ inode now) (λ _. holds _ _)
  commit_write-Stays now (Request.decrement_inode inode count _) f h =
      ended-Stays f _ _ _ h (decrement_inode_link_count-Ending f.metadata_storage inode count now)
        (λ x t q. record { stays = delete_data-HasFiles f t x h q })
  commit_write-Stays now Request.filesystem_ready f h = record { stays = h }
  commit_write-Stays now Request.filesystem_information f h = record { stays = h }
  commit_write-Stays now Request.filesystem_checksum f h = record { stays = h }
  commit_write-Stays now Request.filesystem_check f h = record { stays = h }
  commit_write-Stays now (Request.get_attr _) f h = record { stays = h }
  commit_write-Stays now (Request.list_dir _) f h = record { stays = h }
  commit_write-Stays now (Request.create _ _ _ _ _ _) f h = record { stays = h }
  commit_write-Stays now (Request.mkdir _ _ _ _ _) f h = record { stays = h }
  commit_write-Stays now (Request.unlink _ _ _) f h = record { stays = h }
  commit_write-Stays now (Request.rmdir _ _ _) f h = record { stays = h }
  commit_write-Stays now (Request.rename _ _ _ _ _) f h = record { stays = h }
  commit_write-Stays now (Request.lookup _ _ _) f h = record { stays = h }
  commit_write-Stays now (Request.hardlink _ _ _ _) f h = record { stays = h }
  commit_write-Stays now (Request.list_xattrs _) f h = record { stays = h }
  commit_write-Stays now (Request.get_xattr _ _ _) f h = record { stays = h }
  commit_write-Stays now (Request.read_raw _ _ _ _) f h = record { stays = h }
  commit_write-Stays now (Request.read _ _ _) f h = record { stays = h }
  commit_write-Stays now (Request.latest_commit _) f h = record { stays = h }
  commit_write-Stays now (Request.raft_group_leader _) f h = record { stays = h }
  commit_write-Stays now (Request.consensus_message _ _) f h = record { stays = h }
  commit_write-Stays now (Request.lock _) f h = record { stays = h }
  commit_write-Stays now (Request.unlock _ _) f h = record { stays = h }

  -- If every inode of a node that is no directory has its file in the node's data storage, that is still
  -- so after a decided request was applied, of any kind, with any arguments, and whether it succeeds,
  -- fails or panics.
  pub commit_write-HasFiles :
      (now : Clock) (request : Request) (f : FileStorage db)
      → HasFiles f
      → HasFiles (commit_write now request f).1
  commit_write-HasFiles now request f h = (commit_write-Stays now request f h).stays
