-- ===== src/Metadata/Txn.antt =====
-- What a transaction leaves: what its body commits, or the tables as they were.
use mathlib.Core.Option.{some-injective}
use fleetfs.Prelude.{
  ◌∙◌, ℕ, sym, subst, some, Bool, ◌≡◌, refl, ap, true, false, inl, inr, Bool-cases,
}
use fleetfs.Base.Outcome.{ErrorCode, Outcome, ok, err, panic, guard, ok_or, ◌>>=◌, ◌>>◌}
use fleetfs.Base.Outcome.Laws.{>>=-eq-ok, ok_or-eq-ok}
use fleetfs.Redb.{Redb}
use fleetfs.Metadata.{MetadataStorage, InodeAttributes, durability_tick, write_txn, close}

module _ {db : Redb} where
  -- The tables and the inode counter; not the durability counter and the poison flag.
  pub record SameTables (s s' : MetadataStorage db) : Type 0 where
    pub parents : s'.parents ≡ s.parents
    pub directory : s'.directory ≡ s.directory
    pub xattrs : s'.xattrs ≡ s.xattrs
    pub attrs : s'.attrs ≡ s.attrs
    pub next_inode : s'.next_inode ≡ s.next_inode

  pub ticked : (s : MetadataStorage db) → SameTables s (durability_tick s).1
  unfolding durability_tick
  ticked s = record {
    parents = refl;
    directory = refl;
    xattrs = refl;
    attrs = refl;
    next_inode = refl;
  }

module _ {ℓ} {db : Redb} {A : Type ℓ} (if_poisoned : Outcome A)
    (body : MetadataStorage db → Outcome (A × MetadataStorage db)) (s : MetadataStorage db) where
  pub write_txn_live :
      s.poisoned ≡ false
      → write_txn if_poisoned body s ≡ close (durability_tick s).1 (body (durability_tick s).1)
  unfolding write_txn
  write_txn_live h = rw h

  pub write_txn_poisoned : s.poisoned ≡ true → write_txn if_poisoned body s ≡ (if_poisoned, s)
  unfolding write_txn
  write_txn_poisoned h = rw h

  -- A property that the storage has, also with its counter of commits moved on and its poison flag
  -- set, holds after the transaction, if it holds of what the body commits.
  pub write_txn_keeps {κ} :
      (P : MetadataStorage db → Type κ)
      → P s
      → P (durability_tick s).1
      → P (record (durability_tick s).1 { poisoned = true })
      → ((a : A) (t : MetadataStorage db) → body (durability_tick s).1 ≡ ok (a, t) → P t)
      → P (write_txn if_poisoned body s).1
  write_txn_keeps P kept ticked stopped commits = elim (Bool-cases s.poisoned) [
    | inl h ↦ rw (write_txn_poisoned h) kept
    | inr h ↦ rw (write_txn_live h) (closed (body (durability_tick s).1) refl)
  ]
    where
      closed :
          (m : Outcome (A × MetadataStorage db))
          → body (durability_tick s).1 ≡ m
          → P (close (durability_tick s).1 m).1
      closed (ok (a, t)) e = commits a t e
      closed (err c) e = ticked
      closed panic e = stopped

  -- A transaction that returns was committed by its body.
  pub write_txn-eq-ok :
      (a : A) (t : MetadataStorage db)
      → ((b : A) → if_poisoned ≡ ok b → ⊥)
      → write_txn if_poisoned body s ≡ (ok a, t)
      → (s.poisoned ≡ false) × (body (durability_tick s).1 ≡ ok (a, t))
  write_txn-eq-ok a t no_value h = elim (Bool-cases s.poisoned) [
    | inl p ↦ absurd (
        no_value a
          (ap (λ (r : Outcome A × MetadataStorage db). r.0) (rw (write_txn_poisoned p) at h)))
    | inr p ↦ (p, closed (body (durability_tick s).1) (rw (write_txn_live p) at h))
  ]
    where
      closed :
          (m : Outcome (A × MetadataStorage db))
          → close (durability_tick s).1 m ≡ (ok a, t)
          → m ≡ ok (a, t)
      closed (ok (b, t')) e = cc (
        ap (λ (r : Outcome A × MetadataStorage db). r.0) e,
        ap (λ (r : Outcome A × MetadataStorage db). r.1) e,
      )
      closed (err c) e = absurd (cc (ap (λ (r : Outcome A × MetadataStorage db). r.0) e))
      closed panic e = absurd (cc (ap (λ (r : Outcome A × MetadataStorage db). r.0) e))

-- A transaction that reads the attributes of one inode first, and returns.
pub edit-eq-ok :
    {db : Redb} {A : Type 0} (i : ℕ) (if_poisoned : Outcome A) (e : ErrorCode)
    (step : MetadataStorage db → InodeAttributes → Outcome (A × MetadataStorage db))
    (s t : MetadataStorage db) (x : A)
    → ((b : A) → if_poisoned ≡ ok b → ⊥)
    → write_txn if_poisoned (λ r. ok_or (db.get r.attrs i) e >>= λ a. step r a) s ≡ (ok x, t)
    → (s.poisoned ≡ false)
      × (a : InodeAttributes) × (db.get s.attrs i ≡ some a)
      × (step (durability_tick s).1 a ≡ ok (x, t))
unfolding durability_tick
edit-eq-ok {db = db} i p e step s t x no_value h =
    let (live, ran) = write_txn-eq-ok p _ s x t no_value h in
    let (a, found, rest) = >>=-eq-ok (ok_or (db.get s.attrs i) e) _ ran in
    (live, a, ok_or-eq-ok (db.get s.attrs i) e found, rest)

pub no_value : {A : Type 0} (e : ErrorCode) (a : A) → err e ≡ ok a → ⊥
no_value e a h = cc h

-- Past a guard, with what it says.
pub through :
    {A : Type 0} (b : Bool) (c : ErrorCode) (m : Outcome A) (r : A)
    → (guard b c >> m) ≡ ok r
    → (b ≡ true) × (m ≡ ok r)
through true c m r h = (refl, h)
through false c m r h = absurd (cc h)

-- The same, where the attributes are known.
pub edit_known-eq-ok :
    {db : Redb} {A : Type 0} (i : ℕ) (if_poisoned : Outcome A) (e : ErrorCode)
    (step : MetadataStorage db → InodeAttributes → Outcome (A × MetadataStorage db))
    (s t : MetadataStorage db) (x : A) (a : InodeAttributes)
    → db.get s.attrs i ≡ some a
    → ((b : A) → if_poisoned ≡ ok b → ⊥)
    → write_txn if_poisoned (λ r. ok_or (db.get r.attrs i) e >>= λ a. step r a) s ≡ (ok x, t)
    → step (durability_tick s).1 a ≡ ok (x, t)
edit_known-eq-ok {db = db} i p e step s t x a found fails h =
    let (live, b, found', rest) = edit-eq-ok i p e step s t x fails h in
    subst (λ (c : InodeAttributes). step (durability_tick s).1 c ≡ ok (x, t))
      (some-injective b a (sym found' ∙ found)) rest
