-- ===== src/LockTable/Scan.antt =====
-- The loop of `unlock` over the queue finds the first lock request.
use fleetfs.Prelude.{
  ℕ, suc, ◌+◌, ◌≡◌, refl, ap, subst, inl, inr, Bool, true, false, Option, none, some, is_some, List,
  [], ◌∷◌, ◌++◌, length, All, arith, Option-cases, Bool-cases,
}
use fleetfs.Base.Outcome.{ok, unwrap}
use fleetfs.Base.Outcome.Laws.{>>=-eq-ok, ok-injective, unwrap-eq-ok}
use fleetfs.Base.Types.{Bytes}
use fleetfs.Base.Request.{Request}
use fleetfs.LockTable.{PendingRequest, is_lock_request, scan}

abbrev lock_test : Option Request → Bool
lock_test none = false
lock_test (some r) = is_lock_request r

module _ (decode_request : Bytes → Option Request) where
  abbrev pub IsLock : PendingRequest → Type 0
  IsLock p = lock_test (decode_request p.0) ≡ true

  abbrev pub IsNoLock : PendingRequest → Type 0
  IsNoLock p = lock_test (decode_request p.0) ≡ false

  abbrev pub Decodes : PendingRequest → Type 0
  Decodes p = is_some (decode_request p.0) ≡ true

  -- What the result of the loop says of the queue.
  abbrev pub Scanned : List PendingRequest → ℕ → Bool → Type 0
  Scanned l n true =
      (pre : List PendingRequest) × (x : PendingRequest) × (post : List PendingRequest) × (l
        ≡ pre ++ x ∷ post)
      × All IsNoLock pre
      × IsLock x
      × (n ≡ suc (length pre))
  Scanned l n false = All IsNoLock l × (n ≡ length l)

  Scanned-cons :
      (p : PendingRequest) (l : List PendingRequest) (n : ℕ) (found : Bool)
      → IsNoLock p
      → Scanned l n found
      → Scanned (p ∷ l) (n + 1) found
  Scanned-cons p l n true h (pre, x, post, e, before, now, count) =
      (p ∷ pre, x, post, ap (λ k. p ∷ k) e, (h, before), now, omega arith)
  Scanned-cons p l n false h (all, count) = ((h, all), omega arith)

  scan_first :
      (p : PendingRequest) (l : List PendingRequest) (r : Request)
      → decode_request p.0 ≡ some r
      → is_lock_request r ≡ true
      → Scanned (p ∷ l) 1 true
  scan_first p l r e first = ([], p, l, refl, tt, cc e, refl)

  -- The result of the loop describes the queue.
  pub scan-Scanned :
      (l : List PendingRequest) (q : ℕ × Bool) → scan decode_request l ≡ ok q → Scanned l q.0 q.1
  unfolding scan
  scan-Scanned [] q h = subst (λ (q : ℕ × Bool). Scanned [] q.0 q.1) (ok-injective h) (tt, refl)
  scan-Scanned (p ∷ l) q h =
      let (r, e, rest) = >>=-eq-ok (unwrap (decode_request p.0)) _ h in
      let decoded = unwrap-eq-ok (decode_request p.0) e in
      elim (Bool-cases (is_lock_request r)) [
        | inl first ↦
            subst (λ (q : ℕ × Bool). Scanned (p ∷ l) q.0 q.1) (ok-injective (rw first at rest))
              (scan_first p l r decoded first)
        | inr other ↦
            let (q', e', last) = >>=-eq-ok (scan decode_request l) _ (rw other at rest) in
            subst (λ (q : ℕ × Bool). Scanned (p ∷ l) q.0 q.1) (ok-injective last)
              (Scanned-cons p l q'.0 q'.1 (cc decoded) (scan-Scanned l q' e'))
      ]

  -- The loop finishes if every queued request decodes.
  pub scan_total :
      (l : List PendingRequest) → All Decodes l → (q : ℕ × Bool) × (scan decode_request l ≡ ok q)
  unfolding scan
  scan_total [] h = ((0, false), refl)
  scan_total (p ∷ l) (h, rest) = elim (Option-cases (decode_request p.0)) [
    | inl e ↦ absurd (cc h)
    | inr (r, e) ↦ elim (Bool-cases (is_lock_request r)) [
      | inl first ↦ ((1, true), rw (e, first))
      | inr other ↦ let (q, e') = scan_total l rest in ((q.0 + 1, q.1), rw (e, other, e'))
    ]
  ]
