-- ===== src/Metadata/Fresh.antt =====
-- A new inode keeps the invariant of the metadata.
use mathlib.Core.Option.{some-injective}
use mathlib.Core.Path.{subst₂}
use native.Mathlib.Nat.{add-mod_right}
use fleetfs.Prelude.{
  ℕ, ◌+◌, ◌%◌, ◌^◌, ◌<◌, ◌≡◌, refl, sym, ◌∙◌, Bool, true, false, none, some, inl, inr, arith, ◌==◌,
  Bool-cases, Option-cases, ==_iff,
}
use fleetfs.Prelude.Bits.{testbit}
use fleetfs.Base.Types.{is_directory}
use fleetfs.Redb.{Redb}
use fleetfs.Redb.Laws.{get-insert}
use fleetfs.Metadata.{MetadataStorage, InodeAttributes, put_attrs}
use fleetfs.Metadata.Inodes.{allocate_inode, put_parent}
use fleetfs.Metadata.Invariant.{RaftGroup, IsSound, IsWellFormed}

-- The counter moved on by one step stays in its class, if it does not wrap around.
counter_step :
    (g next groups : ℕ)
    → next + groups < 2 ^ 64
    → next % groups ≡ g
    → (next + groups) % 2 ^ 64 % groups ≡ g
counter_step g next groups room h =
    let small : (next + groups) % 2 ^ 64 ≡ next + groups = omega arith in
    rw small (add-mod_right next groups ∙ h)

module _ {db : Redb} where
  -- The counter of inodes does not wrap around.
  abbrev pub HasRoom : MetadataStorage db → Type 0
  HasRoom s = s.next_inode + s.num_raft_groups < 2 ^ 64

  put_parent-old :
      (s : MetadataStorage db) (i p j q : ℕ) (b : Bool)
      → db.get s.parents j ≡ some q
      → (r : ℕ) × (db.get (put_parent s i p b).parents j ≡ some r)
  put_parent-old s i p j q true h = elim (Bool-cases (i == j)) [
    | inl e ↦ (p, rw (get-insert db s.parents i j p, e))
    | inr e ↦ (q, rw (get-insert db s.parents i j p, e) h)
  ]
  put_parent-old s i p j q false h = (q, h)

  put_parent-attrs :
      (s : MetadataStorage db) (i p : ℕ) (b : Bool) → (put_parent s i p b).attrs ≡ s.attrs
  put_parent-attrs s i p true = refl
  put_parent-attrs s i p false = refl

  module _ (g : RaftGroup) (s : MetadataStorage db) (w : IsWellFormed g s) where
    -- The next inode has no attributes yet.
    pub fresh_inode : db.get s.attrs s.next_inode ≡ none
    fresh_inode = elim (Option-cases (db.get s.attrs s.next_inode)) [
      | inl e ↦ e
      | inr (a, e) ↦ absurd (omega (arith, (w.entries s.next_inode a e).below))
    ]

    module _ (room : HasRoom s) (parent : ℕ) (a : InodeAttributes) (keyed : a.inode ≡ s.next_inode)
        (no_sgid : testbit a.mode 10 ≡ 0) (no_suid : testbit a.mode 11 ≡ 0) where
      abbrev created : Bool → MetadataStorage db
      created b = put_parent (put_attrs (allocate_inode s).1 s.next_inode a) s.next_inode parent b

      created-IsSound :
          (b : Bool)
          → is_directory a.kind ≡ b
          → IsSound g
              ((s.next_inode + s.num_raft_groups) % 2 ^ 64)
              s.num_raft_groups
              (db.get (created b).parents)
              s.next_inode
              a
      created-IsSound b k = record {
        keyed = keyed;
        below = omega (arith, w.some_groups);
        group = inr w.counter;
        parent = λ d. row b (sym k ∙ d);
        no_sgid = no_sgid;
        no_suid = no_suid;
      }
        where
          row : (c : Bool) → c ≡ true → (q : ℕ) × (db.get (created c).parents s.next_inode ≡ some q)
          row true e = (parent, db.get-insert_self s.parents s.next_inode parent)
          row false e = absurd (cc e)

      old-IsSound :
          (b : Bool) (j : ℕ) (x : InodeAttributes)
          → IsSound g s.next_inode s.num_raft_groups (db.get s.parents) j x
          → IsSound g
              ((s.next_inode + s.num_raft_groups) % 2 ^ 64)
              s.num_raft_groups
              (db.get (created b).parents)
              j
              x
      old-IsSound b j x h = record {
        keyed = h.keyed;
        below = omega (arith, h.below);
        group = h.group;
        parent = λ d.
            let (q, e) = h.parent d in
            put_parent-old (put_attrs (allocate_inode s).1 s.next_inode a) s.next_inode parent j q b
              e;
        no_sgid = h.no_sgid;
        no_suid = h.no_suid;
      }

      created_entries :
          (b : Bool) (j : ℕ) (x : InodeAttributes)
          → is_directory a.kind ≡ b
          → db.get (db.insert s.attrs s.next_inode a) j ≡ some x
          → IsSound g
              ((s.next_inode + s.num_raft_groups) % 2 ^ 64)
              s.num_raft_groups
              (db.get (created b).parents)
              j
              x
      created_entries b j x k h = elim (Bool-cases (s.next_inode == j)) [
        | inl p ↦
            let stored : a ≡ x =
              some-injective a x (rw (get-insert db s.attrs s.next_inode j a, p) at h) in
            subst₂
              (IsSound g ((s.next_inode + s.num_raft_groups) % 2 ^ 64) s.num_raft_groups
                (db.get (created b).parents))
              ((==_iff s.next_inode j).0 p) stored (created-IsSound b k)
        | inr n ↦
            old-IsSound b j x (w.entries j x (rw (get-insert db s.attrs s.next_inode j a, n) at h))
      ]

      pub created-IsWellFormed : (b : Bool) → is_directory a.kind ≡ b → IsWellFormed g (created b)
      created-IsWellFormed true k = record {
        some_groups = w.some_groups;
        number = w.number;
        counter = counter_step g.id s.next_inode s.num_raft_groups room w.counter;
        entries = λ j x h. created_entries true j x k h;
      }
      created-IsWellFormed false k = record {
        some_groups = w.some_groups;
        number = w.number;
        counter = counter_step g.id s.next_inode s.num_raft_groups room w.counter;
        entries = λ j x h. created_entries false j x k h;
      }
