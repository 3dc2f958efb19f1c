-- ===== src/Metadata/Kinds/Attributes.antt =====
-- The operations that rewrite attributes keep the kinds of the inodes.
use fleetfs.Prelude.{ℕ, refl, Option, inl, inr, Bool-cases, String, is_some, ltb}
use fleetfs.Base.Outcome.{operation_not_permitted, access_denied, missing_xattr_key}
use fleetfs.Base.Outcome.Laws.{>>=-eq-ok}
use fleetfs.Base.Types.{Bytes, UserContext, Timestamp}
use fleetfs.Base.Access.{w_ok}
use fleetfs.Redb.{Redb}
use fleetfs.Metadata.{MetadataStorage, Clock, max_file_size, durability_tick}
use fleetfs.Metadata.Access.{xattr_access_check}
use fleetfs.Metadata.Xattrs.{set_xattr, remove_xattr}
use fleetfs.Metadata.Attributes.{
  utimens, chmod, chown, hardlink_stage0_link_increment, hardlink_rollback,
  update_metadata_changed_time, truncate, write, may_choose_times, may_touch, may_resize, may_chmod,
  may_give, may_regroup,
}
use fleetfs.Metadata.Keep.{past_guard}
use fleetfs.Metadata.Kinds.{SameKinds, unchanged, stored, stored-SameKinds, edit-SameKinds}

module _ {db : Redb} (s : MetadataStorage db) where
  pub utimens-SameKinds :
      (i : ℕ) (atime mtime : Option Timestamp) (context : UserContext) (now : Clock)
      → SameKinds s (utimens i atime mtime context now s).1
  unfolding utimens durability_tick
  utimens-SameKinds i atime mtime context now = edit-SameKinds s i _ _ _ λ a r e h.
      let rest =
        past_guard (may_choose_times a context atime mtime) operation_not_permitted _ r h in
      let last = past_guard (may_touch a context) access_denied _ r rest in
      stored-SameKinds s i a _ r.1 e refl (stored s last)

  pub chmod-SameKinds :
      (i mode : ℕ) (context : UserContext) (now : Clock)
      → SameKinds s (chmod i mode context now s).1
  unfolding chmod durability_tick
  chmod-SameKinds i mode context now = edit-SameKinds s i _ _ _ λ a r e h.
      let last = past_guard (may_chmod a context) operation_not_permitted _ r h in
      stored-SameKinds s i a _ r.1 e refl (stored s last)

  pub chown-SameKinds :
      (i : ℕ) (uid gid : Option ℕ) (context : UserContext) (now : Clock)
      → SameKinds s (chown i uid gid context now s).1
  unfolding chown durability_tick
  chown-SameKinds i uid gid context now = edit-SameKinds s i _ _ _ λ a r e h.
      let rest = past_guard (may_give uid context.uid a.uid) operation_not_permitted _ r h in
      let last = past_guard (may_regroup gid context.uid a.uid) operation_not_permitted _ r rest in
      stored-SameKinds s i a _ r.1 e refl (stored s last)

  pub hardlink_stage0_link_increment-SameKinds :
      (i : ℕ) (now : Clock) → SameKinds s (hardlink_stage0_link_increment i now s).1
  unfolding hardlink_stage0_link_increment durability_tick
  hardlink_stage0_link_increment-SameKinds i now =
      edit-SameKinds s i _ _ _ λ a r e h. stored-SameKinds s i a _ r.1 e refl (stored s h)

  pub hardlink_rollback-SameKinds :
      (i : ℕ) (t : Timestamp) → SameKinds s (hardlink_rollback i t s).1
  unfolding hardlink_rollback durability_tick
  hardlink_rollback-SameKinds i t =
      edit-SameKinds s i _ _ _ λ a r e h. stored-SameKinds s i a _ r.1 e refl (stored s h)

  pub update_metadata_changed_time-SameKinds :
      (i : ℕ) (now : Clock) → SameKinds s (update_metadata_changed_time i now s).1
  unfolding update_metadata_changed_time durability_tick
  update_metadata_changed_time-SameKinds i now =
      edit-SameKinds s i _ _ _ λ a r e h. stored-SameKinds s i a _ r.1 e refl (stored s h)

  pub truncate-SameKinds :
      (i n : ℕ) (context : UserContext) (now : Clock) → SameKinds s (truncate i n context now s).1
  unfolding truncate durability_tick
  truncate-SameKinds i n context now = elim (Bool-cases (ltb max_file_size n)) [
    | inl e ↦ rw (e, truncate) (unchanged s s refl)
    | inr e ↦
        rw (e, truncate)
          (edit-SameKinds s i _ _ _ λ a r f h.
            let last = past_guard (may_resize a context) access_denied _ r h in
            stored-SameKinds s i a _ r.1 f refl (stored s last))
  ]

  pub write-SameKinds :
      (i offset length : ℕ) (now : Clock) → SameKinds s (write i offset length now s).1
  unfolding write durability_tick
  write-SameKinds i offset length now =
      edit-SameKinds s i _ _ _ λ a r e h. stored-SameKinds s i a _ r.1 e refl (stored s h)

  pub set_xattr-SameKinds :
      (i : ℕ) (key : String) (value : Bytes) (context : UserContext) (now : Clock)
      → SameKinds s (set_xattr i key value context now s).1
  unfolding set_xattr durability_tick
  set_xattr-SameKinds i key value context now = edit-SameKinds s i _ _ _ λ a r e h.
      let (_, _, last) = >>=-eq-ok (xattr_access_check key w_ok a context) _ h in
      stored-SameKinds s i a _ r.1 e refl (stored s last)

  pub remove_xattr-SameKinds :
      (i : ℕ) (key : String) (context : UserContext) (now : Clock)
      → SameKinds s (remove_xattr i key context now s).1
  unfolding remove_xattr durability_tick
  remove_xattr-SameKinds i key context now = edit-SameKinds s i _ _ _ λ a r e h.
      let (_, _, rest) = >>=-eq-ok (xattr_access_check key w_ok a context) _ h in
      let last = past_guard (is_some (db.get s.xattrs (i, key))) missing_xattr_key _ r rest in
      stored-SameKinds s i a _ r.1 e refl (stored s last)
