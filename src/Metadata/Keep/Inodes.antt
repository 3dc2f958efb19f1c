-- ===== src/Metadata/Keep/Inodes.antt =====
-- Making and deleting inodes keeps the invariant.
use fleetfs.Prelude.{
  ℕ, ◌≡◌, refl, subst, Bool, true, false, Option, none, some, inl, inr, Bool-cases, ◌==◌,
  if◌then◌else◌,
}
use fleetfs.Base.Outcome.{ok, assert}
use fleetfs.Base.Outcome.Laws.{>>=-eq-ok, ok-injective}
use fleetfs.Base.Types.{FileKind, is_directory}
use fleetfs.Redb.{Redb}
use fleetfs.Metadata.{MetadataStorage, InodeAttributes, Clock, put_attrs, durability_tick}
use fleetfs.Metadata.Read.{next_key}
use fleetfs.Metadata.Inodes.{
  create_inode, decrement_inode_link_count, delete_inode, links_left, new_attributes, is_empty,
}
use fleetfs.Metadata.Invariant.{RaftGroup, IsWellFormed, remove-IsWellFormed, delete-IsWellFormed}
use fleetfs.Metadata.Fresh.{HasRoom, created-IsWellFormed}
use fleetfs.Metadata.Keep.{txn-IsWellFormed, edit-IsWellFormed, stored-IsWellFormed, same_mode}
use fleetfs.Metadata.Keep.Attributes.{new_mode_bits}

module _ {db : Redb} (g : RaftGroup) (s : MetadataStorage db) (w : IsWellFormed g s) where
  pub create_inode-IsWellFormed :
      (parent uid gid mode : ℕ) (kind : FileKind) (now : Clock)
      → HasRoom s
      → IsWellFormed g (create_inode parent uid gid mode kind now s).1
  unfolding create_inode durability_tick
  create_inode-IsWellFormed parent uid gid mode kind now room = txn-IsWellFormed g s w _ _ λ x t h.
      let a = new_attributes s.next_inode uid gid mode kind now in
      let (sgid, suid) = new_mode_bits mode in
      subst (λ (r : (ℕ × InodeAttributes) × MetadataStorage db). IsWellFormed g r.1)
        (ok-injective h)
        (created-IsWellFormed g (durability_tick s).1 w room parent a refl sgid suid
          (is_directory kind) refl)

  delete_inode-IsWellFormed :
      (i : ℕ) (b : Bool) (r : Option ℕ × MetadataStorage db)
      → delete_inode (durability_tick s).1 i b ≡ ok r
      → IsWellFormed g r.1
  unfolding durability_tick
  delete_inode-IsWellFormed i false r h =
      subst (λ (r : Option ℕ × MetadataStorage db). IsWellFormed g r.1) (ok-injective h)
        (remove-IsWellFormed g s w i)
  delete_inode-IsWellFormed i true r h =
      let (_, _, last) = >>=-eq-ok (assert (is_empty (db.range s.directory i (next_key i)))) _ h in
      subst (λ (r : Option ℕ × MetadataStorage db). IsWellFormed g r.1) (ok-injective last)
        (delete-IsWellFormed g s w i)

  decremented-IsWellFormed :
      (i count : ℕ) (now : Clock) (a : InodeAttributes) (r : Option ℕ × MetadataStorage db)
      → db.get s.attrs i ≡ some a
      → (if links_left a count == 0
          then delete_inode (durability_tick s).1 i (is_directory a.kind)
          else ok (
            none,
            put_attrs
                (durability_tick s).1
                i
                (record a { hardlinks = links_left a count; last_metadata_changed = now 0 }),
          ))
        ≡ ok r
      → IsWellFormed g r.1
  decremented-IsWellFormed i count now a r e h = elim (Bool-cases (links_left a count == 0)) [
    | inl b ↦ delete_inode-IsWellFormed i (is_directory a.kind) r (rw b at h)
    | inr b ↦
        stored-IsWellFormed g s w i a _ none r e (same_mode g s w a _ i refl refl refl) (rw b at h)
  ]

  pub decrement_inode_link_count-IsWellFormed :
      (i count : ℕ) (now : Clock) → IsWellFormed g (decrement_inode_link_count i count now s).1
  unfolding decrement_inode_link_count
  decrement_inode_link_count-IsWellFormed i count now =
      edit-IsWellFormed g s w i _ _ _ λ a r e h. decremented-IsWellFormed i count now a r e h
