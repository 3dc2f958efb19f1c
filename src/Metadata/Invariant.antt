-- ===== src/Metadata/Invariant.antt =====
-- The invariant of the metadata, and what keeps it.
use fleetfs.Prelude.{
  ℕ, ◌%◌, ◌<◌, ◌≡◌, sym, ap, ◌∙◌, true, Option, some, ◌⊎◌, inl, inr, ◌==◌, Bool-cases, ==_iff,
}
use mathlib.Core.Option.{some-injective}
use mathlib.Core.Path.{subst₂}
use fleetfs.Prelude.Bits.{testbit}
use fleetfs.Base.Types.{is_directory}
use fleetfs.Redb.{Redb}
use fleetfs.Redb.Laws.{get-insert, get-remove}
use fleetfs.Metadata.{MetadataStorage, InodeAttributes, root_inode, put_attrs}

-- The group of a storage, and how many groups there are.
pub record RaftGroup : Type 0 where
  pub id : ℕ
  pub num_raft_groups : ℕ

-- What holds of the attributes stored for an inode of group `g`.
pub record IsSound (g : RaftGroup) (next groups : ℕ) (parents : ℕ → Option ℕ) (i : ℕ)
    (a : InodeAttributes) : Type 0 where
  pub keyed : a.inode ≡ i
  pub below : i < next
  pub group : (i ≡ root_inode) ⊎ (i % groups ≡ g.id)
  pub parent : is_directory a.kind ≡ true → (p : ℕ) × (parents i ≡ some p)
  pub no_sgid : testbit a.mode 10 ≡ 0
  pub no_suid : testbit a.mode 11 ≡ 0

-- Of all of them, and of the counter of inodes.
pub record IsConsistent (g : RaftGroup) (next groups : ℕ) (attrs : ℕ → Option InodeAttributes)
    (parents : ℕ → Option ℕ) : Type 0 where
  pub some_groups : 0 < groups
  pub number : groups ≡ g.num_raft_groups
  pub counter : next % groups ≡ g.id
  pub entries : (i : ℕ) (a : InodeAttributes) → attrs i ≡ some a → IsSound g next groups parents i a

-- Attributes that stand for the same inode: the name, the kind and the forbidden bits agree.
pub record SameInode (a a' : InodeAttributes) : Type 0 where
  pub inode : a'.inode ≡ a.inode
  pub kind : a'.kind ≡ a.kind
  pub no_sgid : testbit a'.mode 10 ≡ 0
  pub no_suid : testbit a'.mode 11 ≡ 0

SameInode-IsSound :
    {g : RaftGroup} {next groups : ℕ} {parents : ℕ → Option ℕ} {i : ℕ} {a a' : InodeAttributes}
    → IsSound g next groups parents i a
    → SameInode a a'
    → IsSound g next groups parents i a'
SameInode-IsSound {parents = parents} {i = i} h same = record {
  keyed = same.inode ∙ h.keyed;
  below = h.below;
  group = h.group;
  parent = λ d. h.parent (ap is_directory (sym same.kind) ∙ d);
  no_sgid = same.no_sgid;
  no_suid = same.no_suid;
}

module _ {db : Redb} where
  abbrev pub IsWellFormed : RaftGroup → MetadataStorage db → Type 0
  IsWellFormed g s =
      IsConsistent g s.next_inode s.num_raft_groups (db.get s.attrs) (db.get s.parents)

  module _ (g : RaftGroup) (s : MetadataStorage db) (w : IsWellFormed g s) where
    pub put_attrs-IsWellFormed :
        (i : ℕ) (a a' : InodeAttributes)
        → db.get s.attrs i ≡ some a
        → SameInode a a'
        → IsWellFormed g (put_attrs s i a')
    put_attrs-IsWellFormed i a a' e same = record {
      some_groups = w.some_groups;
      number = w.number;
      counter = w.counter;
      entries = λ j b h. elim (Bool-cases (i == j)) [
        | inl p ↦
            let sound = SameInode-IsSound (w.entries i a e) same in
            let stored : a' ≡ b = some-injective a' b (rw (get-insert db s.attrs i j a', p) at h) in
            subst₂ (IsSound g s.next_inode s.num_raft_groups (db.get s.parents)) ((==_iff i j).0 p)
              stored sound
        | inr n ↦ w.entries j b (rw (get-insert db s.attrs i j a', n) at h)
      ];
    }

    pub remove-IsWellFormed : (i : ℕ) → IsWellFormed g (record s { attrs = db.remove s.attrs i })
    remove-IsWellFormed i = record {
      some_groups = w.some_groups;
      number = w.number;
      counter = w.counter;
      entries = λ j b h. elim (Bool-cases (i == j)) [
        | inl p ↦ absurd (cc (rw (get-remove db s.attrs i j, p) at h))
        | inr n ↦ w.entries j b (rw (get-remove db s.attrs i j, n) at h)
      ];
    }

    pub parents-IsWellFormed :
        (i p : ℕ) → IsWellFormed g (record s { parents = db.insert s.parents i p })
    parents-IsWellFormed i p = record {
      some_groups = w.some_groups;
      number = w.number;
      counter = w.counter;
      entries = λ j b h.
          let old = w.entries j b h in
          record {
            keyed = old.keyed;
            below = old.below;
            group = old.group;
            parent = λ d. elim (Bool-cases (i == j)) [
              | inl e ↦ (p, rw (get-insert db s.parents i j p, e))
              | inr e ↦ let (q, f) = old.parent d in (q, rw (get-insert db s.parents i j p, e) f)
            ];
            no_sgid = old.no_sgid;
            no_suid = old.no_suid;
          };
    }

    -- Without an inode whose row of parents goes too.
    pub delete-IsWellFormed :
        (i : ℕ)
        → IsWellFormed g (record s { attrs = db.remove s.attrs i; parents = db.remove s.parents i })
    delete-IsWellFormed i = record {
      some_groups = w.some_groups;
      number = w.number;
      counter = w.counter;
      entries = λ j b h. elim (Bool-cases (i == j)) [
        | inl p ↦ absurd (cc (rw (get-remove db s.attrs i j, p) at h))
        | inr n ↦
            let old = w.entries j b (rw (get-remove db s.attrs i j, n) at h) in
            record {
              keyed = old.keyed;
              below = old.below;
              group = old.group;
              parent = λ d. let (q, f) = old.parent d in (q, rw (get-remove db s.parents i j, n) f);
              no_sgid = old.no_sgid;
              no_suid = old.no_suid;
            }
      ];
    }
