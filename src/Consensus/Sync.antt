-- ===== src/Consensus/Sync.antt =====
-- Who waits for a slot to be applied.
use fleetfs.Prelude.{
  ℕ, ◌≤◌, ◌<◌, ◌≡◌, refl, ap, List, [], ◌∷◌, ◌++◌, map, All, arith, inl, inr, Bool-cases, leb,
}
use fleetfs.Consensus.{wake}

-- `l` is ordered by its indices.
abbrev pub IsOrdered : List (ℕ × ℕ) → Type 0
IsOrdered [] = Unit
IsOrdered (p ∷ l) = All (λ (q : ℕ × ℕ). p.0 ≤ q.0) l × IsOrdered l

-- The first of the callers, if any, asked for a later index.
abbrev pub StartsAfter : ℕ → List (ℕ × ℕ) → Type 0
StartsAfter slot [] = Unit
StartsAfter slot (p ∷ l) = slot < p.0

-- The callers that `wake` answers stand in front of those that it keeps, in order; all of them asked
-- for an index that is applied; and the first that it keeps, if any, asked for a later one.
pub wake_lem :
    (slot : ℕ) (l : List (ℕ × ℕ))
    → (front : List (ℕ × ℕ)) × (l ≡ front ++ (wake slot l).1)
      × ((wake slot l).0 ≡ map (λ (p : ℕ × ℕ). p.1) front)
      × All (λ (p : ℕ × ℕ). p.0 ≤ slot) front
      × StartsAfter slot (wake slot l).1
unfolding wake
wake_lem slot [] = ([], refl, refl, tt, tt)
wake_lem slot ((index, channel) ∷ rest) =
    let (front, split, woken, due, later) = wake_lem slot rest in
    elim (Bool-cases (leb index slot)) [
      | inl b ↦ (
        (index, channel) ∷ front,
        rw b (ap (λ l. (index, channel) ∷ l) split),
        rw b (ap (λ l. channel ∷ l) woken),
        (ground arith, due),
        rw b later,
      )
      | inr b ↦ ([], rw b, rw b, tt, rw b (ground arith))
    ]

All-trans :
    (a b : ℕ) (l : List (ℕ × ℕ))
    → a < b
    → All (λ (q : ℕ × ℕ). b ≤ q.0) l
    → All (λ (q : ℕ × ℕ). a < q.0) l
All-trans a b [] h all = tt
All-trans a b (q ∷ l) h (x, all) = (omega arith, All-trans a b l h all)

-- If the callers are ordered by the index that they wait for, nobody is kept whose index is applied.
pub wake_ordered :
    (slot : ℕ) (l : List (ℕ × ℕ)) → IsOrdered l → All (λ (p : ℕ × ℕ). slot < p.0) (wake slot l).1
unfolding wake
wake_ordered slot [] h = tt
wake_ordered slot ((index, channel) ∷ rest) (h, more) = elim (Bool-cases (leb index slot)) [
  | inl b ↦ rw b (wake_ordered slot rest more)
  | inr b ↦ rw b (ground arith, All-trans slot index rest (ground arith) h)
]
