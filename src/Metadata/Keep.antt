-- ===== src/Metadata/Keep.antt =====
-- How an operation keeps the invariant of the metadata; the modules below say it of each.
pub mod Attributes
pub mod Links
pub mod Inodes
use fleetfs.Prelude.{
  ℕ, ◌+◌, ◌-◌, ◌%◌, ◌^◌, ◌≡◌, refl, sym, ap, subst, ◌∙◌, bit_and, Bool, true, false, Option, none,
  some, inl, inr, arith, Bool-cases, Option-cases, min, String, ◌/◌,
}
use fleetfs.Prelude.Bits.{testbit, testbit-bit_and}
use fleetfs.Base.Outcome.{
  Outcome, ErrorCode, ok, err, panic, guard, ok_or, operation_not_permitted, access_denied,
  inode_does_not_exist, ◌>>=◌, ◌>>◌,
}
use fleetfs.Base.Outcome.Laws.{>>=-eq-ok, ok-injective, ok_or-eq-ok}
use fleetfs.Base.Types.{UserContext, Timestamp}
use fleetfs.Redb.{Redb}
use fleetfs.Metadata.{
  MetadataStorage, InodeAttributes, Clock, write_txn, put_attrs, durability_tick,
}
use fleetfs.Metadata.Attributes.{
  suid_sgid, utimens, chmod, chown, hardlink_stage0_link_increment, hardlink_rollback,
  update_metadata_changed_time, truncate, write, may_choose_times, may_touch, may_resize, may_chmod,
  may_give, may_regroup,
}
use fleetfs.Metadata.Txn.{write_txn_keeps}
use fleetfs.Metadata.Invariant.{RaftGroup, IsSound, SameInode, IsWellFormed, put_attrs-IsWellFormed}

-- A test in front of the rest of a body.
pub past_guard :
    {A : Type 0} (b : Bool) (c : ErrorCode) (m : Outcome A) (r : A)
    → (guard b c >> m) ≡ ok r
    → m ≡ ok r
past_guard true c m r h = h
past_guard false c m r h = absurd (cc h)

module _ {db : Redb} (g : RaftGroup) (s : MetadataStorage db) (w : IsWellFormed g s) where
  pub txn-IsWellFormed :
      {A : Type 0} (if_poisoned : Outcome A)
      (body : MetadataStorage db → Outcome (A × MetadataStorage db))
      → ((a : A) (t : MetadataStorage db)
          → body (durability_tick s).1 ≡ ok (a, t)
          → IsWellFormed g t)
      → IsWellFormed g (write_txn if_poisoned body s).1
  unfolding durability_tick
  txn-IsWellFormed p body commits = write_txn_keeps p body s (IsWellFormed g) w w w commits

  -- The bodies that read the attributes of one inode first.
  pub edit-IsWellFormed :
      {A : Type 0} (i : ℕ) (if_poisoned : Outcome A) (e : ErrorCode)
      (step : MetadataStorage db → InodeAttributes → Outcome (A × MetadataStorage db))
      → ((a : InodeAttributes) (r : A × MetadataStorage db)
          → db.get s.attrs i ≡ some a
          → step (durability_tick s).1 a ≡ ok r
          → IsWellFormed g r.1)
      → IsWellFormed g
          (write_txn if_poisoned (λ t. ok_or (db.get t.attrs i) e >>= λ a. step t a) s).1
  unfolding durability_tick
  edit-IsWellFormed i p e step keeps = txn-IsWellFormed p _ λ x t h.
      let (a, found, rest) = >>=-eq-ok (ok_or (db.get s.attrs i) e) _ h in
      keeps a (x, t) (ok_or-eq-ok (db.get s.attrs i) e found) rest

  -- The attributes are written back, changed in what the invariant leaves free.
  pub stored-IsWellFormed :
      {A : Type 0} (i : ℕ) (a a' : InodeAttributes) (x : A) (r : A × MetadataStorage db)
      → db.get s.attrs i ≡ some a
      → (IsSound g s.next_inode s.num_raft_groups (db.get s.parents) i a → SameInode a a')
      → ok (x, put_attrs (durability_tick s).1 i a') ≡ ok r
      → IsWellFormed g r.1
  unfolding durability_tick
  stored-IsWellFormed {A} i a a' x r e same h =
      subst (λ (r : A × MetadataStorage db). IsWellFormed g r.1) (ok-injective h)
        (put_attrs-IsWellFormed g (durability_tick s).1 w i a a' e (same (w.entries i a e)))

  -- Nothing that the invariant speaks of changes but the mode, if its bits are right.
  pub same_mode :
      (a a' : InodeAttributes) (i : ℕ)
      → a'.inode ≡ a.inode
      → a'.kind ≡ a.kind
      → a'.mode ≡ a.mode
      → IsSound g s.next_inode s.num_raft_groups (db.get s.parents) i a
      → SameInode a a'
  same_mode a a' i named kind mode h = record {
    inode = named;
    kind = kind;
    no_sgid = ap (λ m. testbit m 10) mode ∙ h.no_sgid;
    no_suid = ap (λ m. testbit m 11) mode ∙ h.no_suid;
  }
