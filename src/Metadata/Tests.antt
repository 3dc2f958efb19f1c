-- ===== src/Metadata/Tests.antt =====
-- A small file system of group 1 of 3, on which the theorems are put to work.
mod Links
mod Attributes
mod History
use fleetfs.Prelude.{
  ℕ, ◌+◌, ◌-◌, ◌%◌, ◌<◌, ◌≤◌, ◌≡◌, ◌≢◌, refl, max, String, true, false, Option, none, some, ◌⊎◌,
  arith, [], ◌∷◌,
}
use fleetfs.Prelude.Int.{pos}
use fleetfs.Base.Outcome.{
  Outcome, ok, err, operation_not_permitted, missing_xattr_key, corrupted, inode_does_not_exist,
  ok_or, guard, ◌>>=◌, ◌>>◌,
}
use fleetfs.Base.Types.{UserContext, FileKind, file, directory}
use fleetfs.Base.Access.{check_access, clear}
use fleetfs.Redb.Model.{model, program}
use fleetfs.Metadata.{
  MetadataStorage, InodeAttributes, Clock, root_inode, max_file_size, put_attrs, write_txn,
  read_txn, durability_tick,
}
use fleetfs.Metadata.Access.{xattr_access_check, parse_xattr_namespace, namespace_check, first_part}
use fleetfs.Metadata.Read.{lookup, get_xattr, readdir}
use fleetfs.Metadata.Xattrs.{set_xattr, remove_xattr}
use fleetfs.Metadata.Attributes.{
  chmod, chown, hardlink_stage0_link_increment, hardlink_rollback, truncate, write, may_resize,
  may_chmod, get_or_old, may_give, may_regroup,
}
use fleetfs.Metadata.Links.{
  create_link, link_txn, remove_link, sticky_verdict, may_write, is_stale, is_sticky,
}
use fleetfs.Metadata.Inodes.{new, first_inode, create_inode, decrement_inode_link_count}
use fleetfs.Metadata.Invariant.{RaftGroup, IsWellFormed}
use fleetfs.Metadata.Start.{first_inode_lem}
use fleetfs.Metadata.Reachable.{Reachable, Step, Reachable-IsWellFormed, Reachable-disjoint}
use fleetfs.Metadata.Entries.{Entered, create_link-lookup}
use fleetfs.Metadata.Removal.{remove_link_complete, remove_link_incomplete}
use fleetfs.Metadata.Owners.{Rewritten, chmod_authority, chown_authority}
use fleetfs.Metadata.Counts.{
  Deleted, hardlink_rollback-hardlink_stage0_link_increment, decrement_inode_link_count_lem,
}
use fleetfs.Metadata.Values.{get_xattr-set_xattr, get_xattr-remove_xattr, truncate-size, write-size}

abbrev pub clock : Clock
clock i = record { seconds = pos 5; nanos = pos i }

abbrev pub root : UserContext
root = record { uid = 0; gid = 0 }

abbrev pub user : UserContext
user = record { uid = 7; gid = 7 }

-- What a caller of `remove_link` may say of the inode and its owner.
abbrev pub named : Option (ℕ × ℕ)
named = some (4, 7)

abbrev pub misnamed : Option (ℕ × ℕ)
misnamed = some (9, 7)

abbrev pub deleted : Option ℕ
deleted = some 4

abbrev pub group : RaftGroup
group = record { id = 1; num_raft_groups = 3 }

abbrev pub other_group : RaftGroup
other_group = record { id = 2; num_raft_groups = 3 }

-- The first inode of group 1 of 3 is 4.
abbrev pub empty_fs : MetadataStorage model
empty_fs = new model 1 3 clock

abbrev pub with_inode : MetadataStorage model
with_inode = (create_inode root_inode 7 7 0o644 file clock empty_fs).1

abbrev pub with_link : MetadataStorage model
with_link = (create_link 4 root_inode "a" user file clock with_inode).1

abbrev pub file_attrs : InodeAttributes
file_attrs = record {
  inode = 4;
  size = 0;
  last_accessed = clock 0;
  last_modified = clock 1;
  last_metadata_changed = clock 2;
  kind = file;
  mode = 0o644;
  hardlinks = 1;
  uid = 7;
  gid = 7;
}
