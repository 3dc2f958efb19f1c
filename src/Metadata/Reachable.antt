-- ===== src/Metadata/Reachable.antt =====
-- The states that the metadata of a group pass through, by any sequence of the operations of
-- src/storage/local/metadata_storage.rs, with any arguments, successful or not.
use fleetfs.Prelude.{ℕ, ◌%◌, ◌<◌, ◌≡◌, ◌≢◌, inl, inr, sym, ◌∙◌, String, Option, some, ap}
use fleetfs.Base.Types.{Bytes, UserContext, Timestamp, FileKind}
use fleetfs.Redb.{Redb}
use fleetfs.Metadata.{MetadataStorage, InodeAttributes, Clock, root_inode}
use fleetfs.Metadata.Xattrs.{set_xattr, remove_xattr}
use fleetfs.Metadata.Attributes.{
  utimens, chmod, chown, hardlink_stage0_link_increment, hardlink_rollback,
  update_metadata_changed_time, truncate, write,
}
use fleetfs.Metadata.Links.{create_link, replace_link, remove_link, update_parent}
use fleetfs.Metadata.Inodes.{new, create_inode, decrement_inode_link_count}
use fleetfs.Metadata.Invariant.{RaftGroup, IsWellFormed}
use fleetfs.Metadata.Fresh.{HasRoom}
use fleetfs.Metadata.Start.{new-IsWellFormed}
use fleetfs.Metadata.Keep.Attributes
use fleetfs.Metadata.Keep.Links
use fleetfs.Metadata.Keep.Inodes

module _ (db : Redb) where
  -- One operation, and the state after it, its result forgotten. A new inode takes the next number, so
  -- the 64-bit counter must not be about to wrap around.
  pub data Step (now : Clock) (s : MetadataStorage db) : MetadataStorage db → Type 0 where
    step_set_xattr :
        (i : ℕ) (key : String) (value : Bytes) (context : UserContext)
        → Step now s (set_xattr i key value context now s).1
    step_remove_xattr :
        (i : ℕ) (key : String) (context : UserContext)
        → Step now s (remove_xattr i key context now s).1
    step_utimens :
        (i : ℕ) (atime mtime : Option Timestamp) (context : UserContext)
        → Step now s (utimens i atime mtime context now s).1
    step_chmod : (i mode : ℕ) (context : UserContext) → Step now s (chmod i mode context now s).1
    step_chown :
        (i : ℕ) (uid gid : Option ℕ) (context : UserContext)
        → Step now s (chown i uid gid context now s).1
    step_link_increment : (i : ℕ) → Step now s (hardlink_stage0_link_increment i now s).1
    step_rollback : (i : ℕ) (t : Timestamp) → Step now s (hardlink_rollback i t s).1
    step_changed_time : (i : ℕ) → Step now s (update_metadata_changed_time i now s).1
    step_truncate :
        (i length : ℕ) (context : UserContext) → Step now s (truncate i length context now s).1
    step_write : (i offset length : ℕ) → Step now s (write i offset length now s).1
    step_create_link :
        (i parent : ℕ) (name : String) (context : UserContext) (kind : FileKind)
        → Step now s (create_link i parent name context kind now s).1
    step_replace_link :
        (parent : ℕ) (name : String) (i : ℕ) (kind : FileKind) (context : UserContext)
        → Step now s (replace_link parent name i kind context now s).1
    step_remove_link :
        (parent : ℕ) (name : String) (link : Option (ℕ × ℕ)) (context : UserContext)
        → Step now s (remove_link parent name link context now s).1
    step_update_parent : (i parent : ℕ) → Step now s (update_parent i parent s).1
    step_create_inode :
        (parent uid gid mode : ℕ) (kind : FileKind)
        → HasRoom s
        → Step now s (create_inode parent uid gid mode kind now s).1
    step_decrement : (i count : ℕ) → Step now s (decrement_inode_link_count i count now s).1

  pub data Reachable (g : RaftGroup) : MetadataStorage db → Type 0 where
    start : (now : Clock) → Reachable g (new db g.id g.num_raft_groups now)
    next : {s t : MetadataStorage db} (now : Clock) → Reachable g s → Step now s t → Reachable g t

  Step-IsWellFormed :
      (g : RaftGroup) (now : Clock) (s t : MetadataStorage db)
      → IsWellFormed g s
      → Step now s t
      → IsWellFormed g t
  Step-IsWellFormed g now s t w (Step.step_set_xattr i key value context) =
      Attributes.set_xattr-IsWellFormed g s w i key value context now
  Step-IsWellFormed g now s t w (Step.step_remove_xattr i key context) =
      Attributes.remove_xattr-IsWellFormed g s w i key context now
  Step-IsWellFormed g now s t w (Step.step_utimens i atime mtime context) =
      Attributes.utimens-IsWellFormed g s w i atime mtime context now
  Step-IsWellFormed g now s t w (Step.step_chmod i mode context) =
      Attributes.chmod-IsWellFormed g s w i mode context now
  Step-IsWellFormed g now s t w (Step.step_chown i uid gid context) =
      Attributes.chown-IsWellFormed g s w i uid gid context now
  Step-IsWellFormed g now s t w (Step.step_link_increment i) =
      Attributes.hardlink_stage0_link_increment-IsWellFormed g s w i now
  Step-IsWellFormed g now s t w (Step.step_rollback i time) =
      Attributes.hardlink_rollback-IsWellFormed g s w i time
  Step-IsWellFormed g now s t w (Step.step_changed_time i) =
      Attributes.update_metadata_changed_time-IsWellFormed g s w i now
  Step-IsWellFormed g now s t w (Step.step_truncate i length context) =
      Attributes.truncate-IsWellFormed g s w i length context now
  Step-IsWellFormed g now s t w (Step.step_write i offset length) =
      Attributes.write-IsWellFormed g s w i offset length now
  Step-IsWellFormed g now s t w (Step.step_create_link i parent name context kind) =
      Links.create_link-IsWellFormed g s w i parent name context kind now
  Step-IsWellFormed g now s t w (Step.step_replace_link parent name i kind context) =
      Links.replace_link-IsWellFormed g s w parent name i kind context now
  Step-IsWellFormed g now s t w (Step.step_remove_link parent name link context) =
      Links.remove_link-IsWellFormed g s w parent name link context now
  Step-IsWellFormed g now s t w (Step.step_update_parent i parent) =
      Links.update_parent-IsWellFormed g s w i parent
  Step-IsWellFormed g now s t w (Step.step_create_inode parent uid gid mode kind room) =
      Inodes.create_inode-IsWellFormed g s w parent uid gid mode kind now room
  Step-IsWellFormed g now s t w (Step.step_decrement i count) =
      Inodes.decrement_inode_link_count-IsWellFormed g s w i count now

  -- In every state that the metadata of a group reach, the counter of inodes not having wrapped around,
  -- attributes are stored under the inode they name, every inode is the root or of the group's class and
  -- below the counter of inodes, every directory has a parent, no set-user-id or set-group-id bit is
  -- stored, and the counter is of the group's class.
  pub Reachable-IsWellFormed :
      (g : RaftGroup) (s : MetadataStorage db)
      → g.id < g.num_raft_groups
      → Reachable g s
      → IsWellFormed g s
  Reachable-IsWellFormed g s h (Reachable.start now) = new-IsWellFormed db g now h
  Reachable-IsWellFormed g t h (Reachable.next {s = s} now r step) =
      Step-IsWellFormed g now s t (Reachable-IsWellFormed g s h r) step

  -- Two groups of the same system never use the same inode, except for the root, as long as no counter of
  -- inodes wraps around.
  pub Reachable-disjoint :
      (g g' : RaftGroup) (s t : MetadataStorage db)
      → g.num_raft_groups ≡ g'.num_raft_groups
      → g.id < g.num_raft_groups
      → g'.id < g'.num_raft_groups
      → g.id ≢ g'.id
      → Reachable g s
      → Reachable g' t
      → (i : ℕ) (a b : InodeAttributes) → db.get s.attrs i ≡ some a
      → db.get t.attrs i ≡ some b
      → i ≡ root_inode
  Reachable-disjoint g g' s t same h h' other r r' i a b e f =
      let w = Reachable-IsWellFormed g s h r in
      let w' = Reachable-IsWellFormed g' t h' r' in
      elim (w.entries i a e).group [
        | inl root ↦ root
        | inr here ↦ elim (w'.entries i b f).group [
          | inl root ↦ root
          | inr there ↦
              absurd (other (sym here ∙ ap (λ n. i % n) (w.number ∙ same ∙ sym w'.number) ∙ there))
        ]
      ]
