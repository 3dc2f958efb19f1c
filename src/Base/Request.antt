-- ===== src/Base/Request.antt =====
-- The requests of src/base/message_types.rs, and `Request::meta_info`.
use fleetfs.Prelude.{ℕ, String, Option, none, some}
use fleetfs.Base.Types.{Bytes, FileKind, CommitId, InodeUidPair, UserContext, Timestamp}

pub data AccessType : Type 0 where
  read_data read_metadata lock_metadata write_metadata write_data_and_metadata : AccessType
  no_access : AccessType

pub data DistributionRequirement : Type 0 where
  any transaction_coordinator raft_group node : DistributionRequirement

pub record RequestMetaInfo : Type 0 where
  pub raft_group : Option ℕ
  pub inode : Option ℕ
  pub lock_id : Option ℕ
  pub access_type : AccessType
  pub distribution_requirement : DistributionRequirement

pub data Request : Type 0 where
  filesystem_ready filesystem_information filesystem_checksum filesystem_check : Request
  fsync get_attr list_dir : (inode : ℕ) → Request
  create : (parent : ℕ) (name : String) (uid gid mode : ℕ) (kind : FileKind) → Request
  mkdir : (parent : ℕ) (name : String) (uid gid mode : ℕ) → Request
  unlink rmdir : (parent : ℕ) (name : String) (context : UserContext) → Request
  truncate : (inode new_length : ℕ) (context : UserContext) → Request
  rename :
      (parent : ℕ) (name : String) (new_parent : ℕ) (new_name : String) (context : UserContext)
      → Request
  lookup : (parent : ℕ) (name : String) (context : UserContext) → Request
  chown : (inode : ℕ) (uid gid : Option ℕ) (context : UserContext) → Request
  chmod : (inode mode : ℕ) (context : UserContext) → Request
  utimens : (inode : ℕ) (atime mtime : Option Timestamp) (context : UserContext) → Request
  hardlink : (inode new_parent : ℕ) (new_name : String) (context : UserContext) → Request
  list_xattrs : (inode : ℕ) → Request
  get_xattr : (inode : ℕ) (key : String) (context : UserContext) → Request
  set_xattr : (inode : ℕ) (key : String) (value : Bytes) (context : UserContext) → Request
  remove_xattr : (inode : ℕ) (key : String) (context : UserContext) → Request
  read_raw : (required_commit : CommitId) (inode offset read_size : ℕ) → Request
  read : (inode offset read_size : ℕ) → Request
  write : (inode offset : ℕ) (bytes : Bytes) → Request
  latest_commit raft_group_leader : (raft_group : ℕ) → Request
  consensus_message : (raft_group : ℕ) (bytes : Bytes) → Request
  lock : (inode : ℕ) → Request
  unlock : (inode lock_id : ℕ) → Request
  hardlink_rollback : (inode : ℕ) (last_modified_time : Timestamp) → Request
  create_link :
      (parent : ℕ) (name : String) (inode : ℕ) (kind : FileKind) (lock_id : Option ℕ)
      (context : UserContext)
      → Request
  replace_link :
      (parent : ℕ) (name : String) (new_inode : ℕ) (kind : FileKind) (lock_id : Option ℕ)
      (context : UserContext)
      → Request
  remove_link :
      (parent : ℕ) (name : String) (link_inode_and_uid : Option InodeUidPair) (lock_id : Option ℕ)
      (context : UserContext)
      → Request
  create_inode : (raft_group parent uid gid mode : ℕ) (kind : FileKind) → Request
  hardlink_increment : (inode : ℕ) → Request
  update_parent : (inode new_parent : ℕ) (lock_id : Option ℕ) → Request
  update_metadata_changed_time : (inode : ℕ) (lock_id : Option ℕ) → Request
  decrement_inode : (inode decrement_count : ℕ) (lock_id : Option ℕ) → Request

-- The record that most arms of `meta_info` build: an access to one inode of one group.
abbrev for_inode : ℕ → Option ℕ → AccessType → RequestMetaInfo
for_inode inode lock_id access = record {
  raft_group = none;
  inode = some inode;
  lock_id = lock_id;
  access_type = access;
  distribution_requirement = DistributionRequirement.raft_group;
}

abbrev for_group : ℕ → AccessType → RequestMetaInfo
for_group group access = record {
  raft_group = some group;
  inode = none;
  lock_id = none;
  access_type = access;
  distribution_requirement = raft_group;
}

abbrev coordinated : Option ℕ → RequestMetaInfo
coordinated inode = record {
  raft_group = none;
  inode = inode;
  lock_id = none;
  access_type = write_metadata;
  distribution_requirement = transaction_coordinator;
}

abbrev for_anyone : RequestMetaInfo
for_anyone = record {
  raft_group = none;
  inode = none;
  lock_id = none;
  access_type = no_access;
  distribution_requirement = any;
}

unfoldable pub meta_info : Request → RequestMetaInfo
meta_info filesystem_ready = for_anyone
meta_info filesystem_information = for_anyone
meta_info filesystem_check = for_anyone
meta_info filesystem_checksum = for_anyone
meta_info (fsync inode) = for_inode inode none no_access
meta_info (read_raw _ inode _ _) = for_inode inode none read_data
meta_info (read inode _ _) = for_inode inode none read_data
meta_info (set_xattr inode _ _ _) = for_inode inode none write_metadata
meta_info (remove_xattr inode _ _) = for_inode inode none write_metadata
meta_info (unlink parent _ _) = for_inode parent none write_metadata
meta_info (rmdir parent _ _) = for_inode parent none write_metadata
meta_info (hardlink _ _ _ _) = coordinated none
meta_info (rename _ _ _ _ _) = coordinated none
meta_info (write inode _ _) = for_inode inode none write_data_and_metadata
meta_info (list_xattrs inode) = for_inode inode none read_metadata
meta_info (get_xattr inode _ _) = for_inode inode none read_metadata
meta_info (lookup parent _ _) = for_inode parent none read_metadata
meta_info (list_dir inode) = for_inode inode none read_metadata
meta_info (get_attr inode) = for_inode inode none read_metadata
meta_info (latest_commit group) = for_group group no_access
meta_info (raft_group_leader group) = for_group group no_access
meta_info (consensus_message group _) = for_group group no_access
meta_info (lock inode) = for_inode inode none lock_metadata
meta_info (unlock inode lock_id) = for_inode inode (some lock_id) no_access
meta_info (create_inode group _ _ _ _ _) = for_group group write_metadata
meta_info (mkdir parent _ _ _ _) = coordinated (some parent)
meta_info (create parent _ _ _ _ _) = coordinated (some parent)
meta_info (remove_link parent _ _ lock_id _) = for_inode parent lock_id write_metadata
meta_info (create_link parent _ _ _ lock_id _) = for_inode parent lock_id write_metadata
meta_info (decrement_inode inode _ lock_id) = for_inode inode lock_id write_metadata
meta_info (update_parent inode _ lock_id) = for_inode inode lock_id write_metadata
meta_info (update_metadata_changed_time inode lock_id) = for_inode inode lock_id write_metadata
meta_info (replace_link parent _ _ _ lock_id _) = for_inode parent lock_id write_metadata
meta_info (truncate inode _ _) = for_inode inode none write_data_and_metadata
meta_info (hardlink_rollback inode _) = for_inode inode none write_metadata
meta_info (chown inode _ _ _) = for_inode inode none write_metadata
meta_info (chmod inode _ _) = for_inode inode none write_metadata
meta_info (hardlink_increment inode) = for_inode inode none write_metadata
meta_info (utimens inode _ _ _) = for_inode inode none write_metadata
