-- ===== src/Metadata/Tests/Attributes.antt =====
-- Attributes, link counts and extended attributes at work.
use fleetfs.Prelude.{
  ℕ, ◌+◌, ◌-◌, ◌%◌, ◌<◌, ◌≤◌, ◌≡◌, ◌≢◌, refl, max, String, true, none, some, ◌⊎◌, arith, [], ◌∷◌,
}
use fleetfs.Base.Outcome.{ok, err, missing_xattr_key}
use fleetfs.Base.Access.{check_access, clear}
use fleetfs.Redb.Model.{model, program}
use fleetfs.Metadata.{MetadataStorage, InodeAttributes, max_file_size, write_txn, durability_tick}
use fleetfs.Metadata.Access.{xattr_access_check, parse_xattr_namespace, namespace_check, first_part}
use fleetfs.Metadata.Read.{get_xattr}
use fleetfs.Metadata.Xattrs.{set_xattr, remove_xattr}
use fleetfs.Metadata.Attributes.{
  chmod, chown, hardlink_stage0_link_increment, hardlink_rollback, truncate, write, may_resize,
  get_or_old, may_give, may_regroup,
}
use fleetfs.Metadata.Inodes.{new, first_inode, create_inode, decrement_inode_link_count}
use fleetfs.Metadata.Owners.{Rewritten, chmod_authority, chown_authority}
use fleetfs.Metadata.Counts.{
  Deleted, hardlink_rollback-hardlink_stage0_link_increment, decrement_inode_link_count_lem,
}
use fleetfs.Metadata.Values.{get_xattr-set_xattr, get_xattr-remove_xattr, truncate-size, write-size}
use fleetfs.Metadata.Tests.{clock, root, user, deleted, with_inode, file_attrs}

chmod_authority_example :
    (a a' : InodeAttributes) × ((user.uid ≡ 0) ⊎ (user.uid ≡ a.uid))
    × (a'.mode % 1024 ≡ 0o4755 % 1024)
    × (a'.uid ≡ a.uid)
    × (a'.gid ≡ a.gid)
    × Rewritten 4 a a' with_inode (chmod 4 0o4755 user clock with_inode).1
unfolding program new first_inode create_inode chmod write_txn durability_tick
chmod_authority_example =
    chmod_authority 4 user clock with_inode (chmod 4 0o4755 user clock with_inode).1 0o4755 refl

chown_authority_example :
    (a a' : InodeAttributes) × (a'.uid ≢ a.uid → root.uid ≡ 0)
    × (a'.gid ≢ a.gid → (root.uid ≡ 0) ⊎ (root.uid ≡ a.uid))
    × (a'.uid ≡ get_or_old (some 8) a.uid)
    × (a'.gid ≡ get_or_old none a.gid)
    × (a'.mode ≡ a.mode)
    × Rewritten 4 a a' with_inode (chown 4 (some 8) none root clock with_inode).1
unfolding program new first_inode create_inode chown may_give may_regroup write_txn durability_tick
chown_authority_example =
    chown_authority 4 root clock with_inode (chown 4 (some 8) none root clock with_inode).1 (some 8)
      none refl

abbrev incremented : MetadataStorage model
incremented = (hardlink_stage0_link_increment 4 clock with_inode).1

abbrev rolled_back : MetadataStorage model
rolled_back = (hardlink_rollback 4 (clock 2) incremented).1

hardlink_rollback_example : model.get rolled_back.attrs 4 ≡ model.get with_inode.attrs 4
unfolding program new first_inode create_inode hardlink_stage0_link_increment hardlink_rollback
    write_txn durability_tick
hardlink_rollback_example =
    hardlink_rollback-hardlink_stage0_link_increment 4 with_inode incremented rolled_back file_attrs
      clock (clock 2) refl (omega arith) refl refl 4

abbrev without_inode : MetadataStorage model
without_inode = (decrement_inode_link_count 4 1 clock with_inode).1

decrement_inode_link_count_example :
    ((1 < file_attrs.hardlinks)
      × (deleted ≡ none)
      × Rewritten 4 file_attrs
          (record file_attrs {
            hardlinks = file_attrs.hardlinks - 1;
            last_metadata_changed = clock 0;
          })
          with_inode
          without_inode)
    ⊎ ((file_attrs.hardlinks ≡ 1) × (deleted ≡ some 4) × Deleted 4 with_inode without_inode)
unfolding program new first_inode create_inode decrement_inode_link_count write_txn durability_tick
decrement_inode_link_count_example =
    decrement_inode_link_count_lem 4 with_inode (omega arith) without_inode file_attrs 1 clock
      deleted refl (omega arith) (omega arith) refl

abbrev with_xattr : MetadataStorage model
with_xattr = (set_xattr 4 "user.x" (9 ∷ []) user clock with_inode).1

abbrev without_xattr : MetadataStorage model
without_xattr = (remove_xattr 4 "user.x" user clock with_xattr).1

get_xattr-set_xattr_example :
    (get_xattr 4 "user.x" user with_xattr ≡ ok (9 ∷ []))
    × ((k : ℕ × String)
        → ◌≢◌ {A = ℕ × String} (4, "user.x") k
        → model.get with_xattr.xattrs k ≡ model.get with_inode.xattrs k)
unfolding program new first_inode create_inode set_xattr xattr_access_check parse_xattr_namespace
    first_part namespace_check write_txn check_access clear durability_tick
get_xattr-set_xattr_example =
    get_xattr-set_xattr 4 "user.x" with_inode with_xattr (9 ∷ []) user user clock file_attrs refl
      refl refl

get_xattr-remove_xattr_example :
    (get_xattr 4 "user.x" user without_xattr ≡ err missing_xattr_key)
    × ((k : ℕ × String)
        → ◌≢◌ {A = ℕ × String} (4, "user.x") k
        → model.get without_xattr.xattrs k ≡ model.get with_xattr.xattrs k)
unfolding program new first_inode create_inode set_xattr remove_xattr xattr_access_check
    parse_xattr_namespace first_part namespace_check write_txn check_access clear durability_tick
get_xattr-remove_xattr_example =
    get_xattr-remove_xattr 4 "user.x" with_xattr without_xattr user user clock
      (record file_attrs { last_metadata_changed = clock 0 }) refl refl refl

truncate-size_example :
    (1000 ≤ max_file_size)
    × (a a' : InodeAttributes) × (may_resize a user ≡ true)
    × (a'.size ≡ 1000)
    × Rewritten 4 a a' with_inode (truncate 4 1000 user clock with_inode).1
unfolding program new first_inode create_inode truncate write_txn check_access clear durability_tick
truncate-size_example =
    truncate-size 4 with_inode (truncate 4 1000 user clock with_inode).1 1000 user clock refl

write-size_example :
    (a a' : InodeAttributes) × (a.size ≤ a'.size)
    × (100 + 20 ≤ a'.size)
    × (a'.size ≤ max a.size (100 + 20))
    × Rewritten 4 a a' with_inode (write 4 100 20 clock with_inode).1
unfolding program new first_inode create_inode write write_txn durability_tick
write-size_example =
    write-size 4 with_inode (write 4 100 20 clock with_inode).1 100 20 clock (omega arith) refl
