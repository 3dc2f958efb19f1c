-- ===== src/Metadata/Kinds.antt =====
-- How an operation of the metadata leaves the kinds of the inodes as they were; the modules below say it
-- of each.
pub mod Attributes
pub mod Links
pub mod Inodes
use fleetfs.Prelude.{ℕ, ◌≡◌, refl, sym, ap, subst, ◌∙◌, some, inl, inr, ◌==◌, Bool-cases, ==_iff}
use mathlib.Core.Option.{some-injective}
use fleetfs.Base.Outcome.{Outcome, ErrorCode, ok, ok_or, ◌>>=◌}
use fleetfs.Base.Outcome.Laws.{>>=-eq-ok, ok-injective, ok_or-eq-ok}
use fleetfs.Base.Types.{FileKind}
use fleetfs.Redb.{Redb}
use fleetfs.Redb.Laws.{get-insert}
use fleetfs.Metadata.{MetadataStorage, InodeAttributes, write_txn, durability_tick}
use fleetfs.Metadata.Txn.{write_txn_keeps}

module _ {db : Redb} (s : MetadataStorage db) where
  -- Every inode of `t` is one of `s`, of the same kind.
  pub record SameKinds (t : MetadataStorage db) : Type 0 where
    pub kinds :
        (i : ℕ) (b : InodeAttributes)
        → db.get t.attrs i ≡ some b
        → (a : InodeAttributes) × (db.get s.attrs i ≡ some a) × (b.kind ≡ a.kind)

  pub unchanged : (t : MetadataStorage db) → t.attrs ≡ s.attrs → SameKinds t
  unchanged t e = record { kinds = λ i b h. (b, ap (λ attrs. db.get attrs i) (sym e) ∙ h, refl) }

  -- What a body that returns has stored.
  pub stored : {A : Type 0} {x r : A × MetadataStorage db} → ok x ≡ ok r → r.1.attrs ≡ x.1.attrs
  stored {A = A} h = sym (ap (λ (r : A × MetadataStorage db). r.1.attrs) (ok-injective h))

  -- One inode is stored again, with its kind.
  pub stored-SameKinds :
      (i : ℕ) (a a' : InodeAttributes) (t : MetadataStorage db)
      → db.get s.attrs i ≡ some a
      → a'.kind ≡ a.kind
      → t.attrs ≡ db.insert s.attrs i a'
      → SameKinds t
  stored-SameKinds i a a' t found kind e = record {
    kinds = λ j b h.
        let h' = ap (λ attrs. db.get attrs j) (sym e) ∙ h in
        elim (Bool-cases (i == j)) [
          | inl p ↦
              let same : a' ≡ b =
                some-injective a' b (rw (get-insert db s.attrs i j a', p) at h') in
              (
                a,
                subst (λ k. db.get s.attrs k ≡ some a) ((==_iff i j).0 p) found,
                ap (λ (c : InodeAttributes). c.kind) (sym same) ∙ kind,
              )
          | inr n ↦ (b, rw (get-insert db s.attrs i j a', n) at h', refl)
        ];
  }

  pub txn-SameKinds :
      {A : Type 0} (if_poisoned : Outcome A)
      (body : MetadataStorage db → Outcome (A × MetadataStorage db))
      → ((a : A) (t : MetadataStorage db) → body (durability_tick s).1 ≡ ok (a, t) → SameKinds t)
      → SameKinds (write_txn if_poisoned body s).1
  unfolding durability_tick
  txn-SameKinds p body commits =
      write_txn_keeps p body s SameKinds (unchanged _ refl) (unchanged _ refl) (unchanged _ refl)
        commits

  -- The bodies that read the attributes of one inode first.
  pub edit-SameKinds :
      {A : Type 0} (i : ℕ) (if_poisoned : Outcome A) (e : ErrorCode)
      (step : MetadataStorage db → InodeAttributes → Outcome (A × MetadataStorage db))
      → ((a : InodeAttributes) (r : A × MetadataStorage db)
          → db.get s.attrs i ≡ some a
          → step (durability_tick s).1 a ≡ ok r
          → SameKinds r.1)
      → SameKinds (write_txn if_poisoned (λ t. ok_or (db.get t.attrs i) e >>= λ a. step t a) s).1
  unfolding durability_tick
  edit-SameKinds i p e step keeps = txn-SameKinds p _ λ x t h.
      let (a, found, rest) = >>=-eq-ok (ok_or (db.get s.attrs i) e) _ h in
      keeps a (x, t) (ok_or-eq-ok (db.get s.attrs i) e found) rest
