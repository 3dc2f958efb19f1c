-- ===== src/Metadata/Keep/Attributes.antt =====
-- The operations that rewrite attributes keep the invariant.
use fleetfs.Prelude.{
  ℕ, ◌-◌, ◌%◌, ◌^◌, ◌≡◌, refl, ◌∙◌, bit_and, Option, inl, inr, arith, Bool-cases, String, is_some,
  ltb,
}
use fleetfs.Prelude.Bits.{testbit, testbit-bit_and}
use fleetfs.Base.Outcome.{operation_not_permitted, access_denied, missing_xattr_key}
use fleetfs.Base.Outcome.Laws.{>>=-eq-ok}
use fleetfs.Base.Types.{Bytes, UserContext, Timestamp}
use fleetfs.Base.Access.{w_ok}
use fleetfs.Redb.{Redb}
use fleetfs.Metadata.{MetadataStorage, Clock, max_file_size, durability_tick}
use fleetfs.Metadata.Access.{xattr_access_check}
use fleetfs.Metadata.Xattrs.{set_xattr, remove_xattr}
use fleetfs.Metadata.Attributes.{
  suid_sgid, utimens, chmod, chown, hardlink_stage0_link_increment, hardlink_rollback,
  update_metadata_changed_time, truncate, write, may_choose_times, may_touch, may_resize, may_chmod,
  may_give, may_regroup,
}
use fleetfs.Metadata.Invariant.{RaftGroup, IsWellFormed}
use fleetfs.Metadata.Keep.{edit-IsWellFormed, stored-IsWellFormed, same_mode, past_guard}

-- A mode from which the two bits were masked has neither, also as a `u16`.
masked_bits :
    (m mask : ℕ)
    → testbit mask 10 ≡ 0
    → testbit mask 11 ≡ 0
    → (testbit (bit_and m mask) 10 ≡ 0) × (testbit (bit_and m mask) 11 ≡ 0)
masked_bits m mask h k =
    (omega (arith, testbit-bit_and m mask 10), omega (arith, testbit-bit_and m mask 11))

truncated_bits :
    (m : ℕ) → (testbit (m % 2 ^ 16) 10 ≡ testbit m 10) × (testbit (m % 2 ^ 16) 11 ≡ testbit m 11)
unfolding testbit
truncated_bits m = (omega arith, omega arith)

pub new_mode_bits :
    (m : ℕ)
    → (testbit (bit_and m (2 ^ 16 - 1 - suid_sgid)) 10 ≡ 0)
      × (testbit (bit_and m (2 ^ 16 - 1 - suid_sgid)) 11 ≡ 0)
unfolding testbit
new_mode_bits m = masked_bits m (2 ^ 16 - 1 - suid_sgid) refl refl

chmod_bits :
    (m : ℕ)
    → (testbit (bit_and m (2 ^ 32 - 1 - suid_sgid) % 2 ^ 16) 10 ≡ 0)
      × (testbit (bit_and m (2 ^ 32 - 1 - suid_sgid) % 2 ^ 16) 11 ≡ 0)
chmod_bits m =
    let masked =
      masked_bits m (2 ^ 32 - 1 - suid_sgid) (unfold testbit in refl) (unfold testbit in refl) in
    let cut = truncated_bits (bit_and m (2 ^ 32 - 1 - suid_sgid)) in
    (cut.0 ∙ masked.0, cut.1 ∙ masked.1)

module _ {db : Redb} (g : RaftGroup) (s : MetadataStorage db) (w : IsWellFormed g s) where
  pub utimens-IsWellFormed :
      (i : ℕ) (atime mtime : Option Timestamp) (context : UserContext) (now : Clock)
      → IsWellFormed g (utimens i atime mtime context now s).1
  unfolding utimens
  utimens-IsWellFormed i atime mtime context now = edit-IsWellFormed g s w i _ _ _ λ a r e h.
      let rest =
        past_guard (may_choose_times a context atime mtime) operation_not_permitted _ r h in
      let last = past_guard (may_touch a context) access_denied _ r rest in
      stored-IsWellFormed g s w i a _ tt r e (same_mode g s w a _ i refl refl refl) last

  pub chmod-IsWellFormed :
      (i mode : ℕ) (context : UserContext) (now : Clock)
      → IsWellFormed g (chmod i mode context now s).1
  unfolding chmod
  chmod-IsWellFormed i mode context now = edit-IsWellFormed g s w i _ _ _ λ a r e h.
      let last = past_guard (may_chmod a context) operation_not_permitted _ r h in
      let (sgid, suid) = chmod_bits mode in
      stored-IsWellFormed g s w i a _ tt r e
        (λ _. record { inode = refl; kind = refl; no_sgid = sgid; no_suid = suid }) last

  pub chown-IsWellFormed :
      (i : ℕ) (uid gid : Option ℕ) (context : UserContext) (now : Clock)
      → IsWellFormed g (chown i uid gid context now s).1
  unfolding chown
  chown-IsWellFormed i uid gid context now = edit-IsWellFormed g s w i _ _ _ λ a r e h.
      let rest = past_guard (may_give uid context.uid a.uid) operation_not_permitted _ r h in
      let last = past_guard (may_regroup gid context.uid a.uid) operation_not_permitted _ r rest in
      stored-IsWellFormed g s w i a _ tt r e (same_mode g s w a _ i refl refl refl) last

  pub hardlink_stage0_link_increment-IsWellFormed :
      (i : ℕ) (now : Clock) → IsWellFormed g (hardlink_stage0_link_increment i now s).1
  unfolding hardlink_stage0_link_increment
  hardlink_stage0_link_increment-IsWellFormed i now = edit-IsWellFormed g s w i _ _ _ λ a r e h.
      stored-IsWellFormed g s w i a _ a.last_metadata_changed r e
        (same_mode g s w a _ i refl refl refl) h

  pub hardlink_rollback-IsWellFormed :
      (i : ℕ) (t : Timestamp) → IsWellFormed g (hardlink_rollback i t s).1
  unfolding hardlink_rollback
  hardlink_rollback-IsWellFormed i t =
      edit-IsWellFormed g s w i _ _ _
        λ a r e h. stored-IsWellFormed g s w i a _ tt r e (same_mode g s w a _ i refl refl refl) h

  pub update_metadata_changed_time-IsWellFormed :
      (i : ℕ) (now : Clock) → IsWellFormed g (update_metadata_changed_time i now s).1
  unfolding update_metadata_changed_time
  update_metadata_changed_time-IsWellFormed i now =
      edit-IsWellFormed g s w i _ _ _
        λ a r e h. stored-IsWellFormed g s w i a _ tt r e (same_mode g s w a _ i refl refl refl) h

  pub truncate-IsWellFormed :
      (i n : ℕ) (context : UserContext) (now : Clock)
      → IsWellFormed g (truncate i n context now s).1
  unfolding truncate
  truncate-IsWellFormed i n context now = elim (Bool-cases (ltb max_file_size n)) [
    | inl e ↦ rw (e, truncate) w
    | inr e ↦
        rw (e, truncate)
          (edit-IsWellFormed g s w i _ _ _ λ a r f h.
            let last = past_guard (may_resize a context) access_denied _ r h in
            stored-IsWellFormed g s w i a _ tt r f (same_mode g s w a _ i refl refl refl) last)
  ]

  pub write-IsWellFormed :
      (i offset length : ℕ) (now : Clock) → IsWellFormed g (write i offset length now s).1
  unfolding write
  write-IsWellFormed i offset length now =
      edit-IsWellFormed g s w i _ _ _
        λ a r e h. stored-IsWellFormed g s w i a _ tt r e (same_mode g s w a _ i refl refl refl) h

  pub set_xattr-IsWellFormed :
      (i : ℕ) (key : String) (value : Bytes) (context : UserContext) (now : Clock)
      → IsWellFormed g (set_xattr i key value context now s).1
  unfolding set_xattr durability_tick
  set_xattr-IsWellFormed i key value context now = edit-IsWellFormed g s w i _ _ _ λ a r e h.
      let (_, _, last) = >>=-eq-ok (xattr_access_check key w_ok a context) _ h in
      stored-IsWellFormed g (record s { xattrs = db.insert s.xattrs (i, key) value }) w i a _ tt r e
        (same_mode g s w a _ i refl refl refl) last

  pub remove_xattr-IsWellFormed :
      (i : ℕ) (key : String) (context : UserContext) (now : Clock)
      → IsWellFormed g (remove_xattr i key context now s).1
  unfolding remove_xattr durability_tick
  remove_xattr-IsWellFormed i key context now = edit-IsWellFormed g s w i _ _ _ λ a r e h.
      let (_, _, rest) = >>=-eq-ok (xattr_access_check key w_ok a context) _ h in
      let last = past_guard (is_some (db.get s.xattrs (i, key))) missing_xattr_key _ r rest in
      stored-IsWellFormed g (record s { xattrs = db.remove s.xattrs (i, key) }) w i a _ tt r e
        (same_mode g s w a _ i refl refl refl) last
