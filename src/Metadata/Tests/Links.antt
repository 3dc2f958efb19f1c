-- ===== src/Metadata/Tests/Links.antt =====
-- Directory entries at work.
use fleetfs.Prelude.{ℕ, ◌≡◌, refl, true, false, none, some, ◌⊎◌, inl, inr, [], ◌∷◌}
use fleetfs.Base.Outcome.{ok}
use fleetfs.Base.Types.{FileKind, file, directory}
use fleetfs.Base.Access.{check_access, clear}
use fleetfs.Redb.Model.{model, program}
use fleetfs.Metadata.{
  MetadataStorage, InodeAttributes, root_inode, write_txn, read_txn, durability_tick,
}
use fleetfs.Metadata.Read.{lookup, readdir}
use fleetfs.Metadata.Links.{
  create_link, link_txn, remove_link, sticky_verdict, may_write, is_stale, is_sticky,
}
use fleetfs.Metadata.Inodes.{new, first_inode, create_inode}
use fleetfs.Metadata.Txn.{SameTables}
use fleetfs.Metadata.Entries.{Entered, create_link-lookup}
use fleetfs.Metadata.Removal.{remove_link_complete, remove_link_incomplete}
use fleetfs.Metadata.Returns.{remove_link_returns}
use fleetfs.Metadata.Inodes.{root_attributes}
use fleetfs.Metadata.Tests.{clock, root, user, named, misnamed, with_inode, with_link}

readdir_test :
    readdir root_inode with_link
    ≡ ok ((1, ".", directory) ∷ (1, "..", directory) ∷ (4, "a", file) ∷ [])
unfolding program new first_inode create_inode create_link lookup link_txn readdir write_txn
    read_txn check_access clear durability_tick
readdir_test = refl

create_link-lookup_example :
    (lookup root_inode "a" user with_inode ≡ ok none)
    × Entered with_inode with_link root_inode "a" (some (4, file))
    × (lookup root_inode "a" user with_link ≡ ok (some 4))
unfolding program new first_inode create_inode create_link lookup link_txn write_txn read_txn
    check_access clear durability_tick
create_link-lookup_example =
    create_link-lookup 4 root_inode "a" user file clock with_inode with_link refl

remove_link_complete_example :
    (a : InodeAttributes) × (kind : FileKind) × (model.get with_link.attrs root_inode ≡ some a)
    × (model.get with_link.directory (root_inode, "a") ≡ some (4, kind))
    × (may_write a root ≡ true)
    × (is_stale named 4 ≡ false)
    × (is_sticky a.mode ≡ true
        → (root.uid ≡ a.uid) ⊎ (root.uid ≡ 0) ⊎ ((i : ℕ) × (named ≡ some (i, root.uid))))
    × Entered with_link
        (remove_link root_inode "a" named root clock with_link).1
        root_inode
        "a"
        none
unfolding program new first_inode create_inode create_link lookup link_txn remove_link
    sticky_verdict write_txn read_txn check_access clear durability_tick
remove_link_complete_example =
    remove_link_complete root_inode "a" named root clock with_link
      (remove_link root_inode "a" named root clock with_link).1 4 refl

-- The caller took the entry for another inode.
remove_link_incomplete_example :
    (a : InodeAttributes) × (kind : FileKind) × (model.get with_link.attrs root_inode ≡ some a)
    × (model.get with_link.directory (root_inode, "a") ≡ some (4, kind))
    × ((is_stale misnamed 4 ≡ true) ⊎ ((misnamed ≡ none) × (is_sticky a.mode ≡ true)))
    × SameTables with_link (remove_link root_inode "a" misnamed root clock with_link).1
unfolding program new first_inode create_inode create_link lookup link_txn remove_link
    sticky_verdict write_txn read_txn check_access clear durability_tick
remove_link_incomplete_example =
    remove_link_incomplete root_inode "a" misnamed root clock with_link
      (remove_link root_inode "a" misnamed root clock with_link).1 4 refl

remove_link_returns_example :
    (t : MetadataStorage model) × (remove_link root_inode "a" named root clock with_link
      ≡ (ok (4, true), t))
    × Entered with_link t root_inode "a" none
unfolding program new first_inode create_inode create_link lookup link_txn sticky_verdict write_txn
    read_txn check_access clear durability_tick
remove_link_returns_example =
    remove_link_returns with_link refl root clock root_inode "a"
      (record (root_attributes clock) { last_modified = clock 0; last_metadata_changed = clock 1 })
      refl named 4 file refl (inr (7, refl)) (inl refl) (inr (inr (inl refl)))
