-- ===== src/Redb/Laws.antt =====
-- The documented behaviour of tables, in the form in which the proofs use it.
use fleetfs.Prelude.{ℕ, ◌≡◌, none, some, ◌==◌, ==_iff, Bool-cases, inl, inr, if◌then◌else◌, arith}
use fleetfs.Redb.{Redb, by_inode}

module _ (db : Redb) {V : Type 0} where
  pub get-insert :
      (t : db.Table by_inode V) (i j : ℕ) (v : V)
      → db.get (db.insert t i v) j ≡ (if i == j then some v else db.get t j)
  get-insert t i j v = elim (Bool-cases (i == j)) [
    | inl e ↦ let p : i ≡ j = (==_iff i j).0 e in rw e (rw (← p) (db.get-insert_self t i v))
    | inr e ↦ rw e (db.get-insert_ne t i j v (λ p. ground (arith, p, e)))
  ]

  pub get-remove :
      (t : db.Table by_inode V) (i j : ℕ)
      → db.get (db.remove t i) j ≡ (if i == j then none else db.get t j)
  get-remove t i j = elim (Bool-cases (i == j)) [
    | inl e ↦ let p : i ≡ j = (==_iff i j).0 e in rw e (rw (← p) (db.get-remove_self t i))
    | inr e ↦ rw e (db.get-remove_ne t i j (λ p. ground (arith, p, e)))
  ]
