-- ===== src/DataStorage/Stripe.antt =====
-- The bytes of a range that a node stores, and where they stand in it.
use native.Mathlib.Nat.{mod-add-mod, mod-eq_of_lt, mod-eq-sub-mod, mod-lt}
use fleetfs.Prelude.{
  ℕ, zero, suc, ◌+◌, ◌-◌, ◌*◌, ◌/◌, ◌%◌, ◌<◌, ◌≤◌, ◌≡◌, ◌≢◌, refl, sym, ap, ◌∙◌, true, false, [],
  ◌∷◌, ◌++◌, if◌then◌else◌, length, take, drop, arith, Bool-cases, inl, inr, ◌⊎◌, dec_lt,
}
use fleetfs.Prelude.Slices.{length-take, drop-drop}
use fleetfs.Base.Types.{Bytes}
use fleetfs.DataStorage.{stores_index}

-- Of the bytes from global index `g` on, those that the node of a rank stores.
unfoldable pub stored : (local_rank total_nodes g : ℕ) → Bytes → Bytes
stored r n g [] = []
stored r n g (x ∷ l) =
    let rest = stored r n (g + 1) l in if stores_index g r n then x ∷ rest else rest

module _ (r n : ℕ) where
  pub stored_split :
      (k g : ℕ) (l : Bytes)
      → stored r n g l ≡ stored r n g (take k l) ++ stored r n (g + k) (drop k l)
  unfolding stored
  stored_split zero g l = ap (λ i. stored r n i l) (omega arith)
  stored_split (suc k) g [] = refl
  stored_split (suc k) g (x ∷ l) =
      let next : g + 1 + k ≡ g + suc k = omega arith in
      let ih =
        stored_split k (g + 1) l
        ∙ ap (λ i. stored r n (g + 1) (take k l) ++ stored r n i (drop k l)) next in
      elim (Bool-cases (stores_index g r n)) [ inl e ↦ rw (e, ih) refl | inr e ↦ rw (e, ih) refl ]

  -- A stretch of bytes that are all the node's, and one with none.
  pub stored_whole :
      (g : ℕ) (l : Bytes)
      → ((j : ℕ) → j < length l → stores_index (g + j) r n ≡ true)
      → stored r n g l ≡ l
  unfolding stored
  stored_whole g [] h = refl
  stored_whole g (x ∷ l) h =
      let here : stores_index g r n ≡ true =
        ap (λ i. stores_index i r n) (omega arith) ∙ h 0 (omega arith) in
      let ih =
        stored_whole (g + 1) l
          (λ j lt. ap (λ i. stores_index i r n) (omega arith) ∙ h (suc j) (omega arith)) in
      rw here (ap (λ m. x ∷ m) ih)

  pub stored_none :
      (g : ℕ) (l : Bytes)
      → ((j : ℕ) → j < length l → stores_index (g + j) r n ≡ false)
      → stored r n g l ≡ []
  unfolding stored
  stored_none g [] h = refl
  stored_none g (x ∷ l) h =
      let here : stores_index g r n ≡ false =
        ap (λ i. stores_index i r n) (omega arith) ∙ h 0 (omega arith) in
      let ih =
        stored_none (g + 1) l
          (λ j lt. ap (λ i. stores_index i r n) (omega arith) ∙ h (suc j) (omega arith)) in
      rw here ih

  -- The rest of a block that is the node's, and a block that is not.
  pub stored_turn :
      (g : ℕ) (l : Bytes)
      → g / 512 % n ≡ r
      → stored r n g l
        ≡ take (512 - g % 512) l ++ stored r n (g + (512 - g % 512)) (drop (512 - g % 512) l)
  unfolding stores_index
  stored_turn g l turn =
      let k = 512 - g % 512 in
      let own = stored_whole g (take k l) λ j lt.
        let block : (g + j) / 512 ≡ g / 512 = omega (arith, length-take k l) in
        rw (block, turn) (ground arith) in
      stored_split k g l ∙ ap (λ m. m ++ stored r n (g + k) (drop k l)) own

  pub stored_pass :
      (g : ℕ) (l : Bytes)
      → g / 512 % n ≢ r
      → stored r n g l ≡ stored r n (g + (512 - g % 512)) (drop (512 - g % 512) l)
  unfolding stores_index
  stored_pass g l other =
      let k = 512 - g % 512 in
      let none_own = stored_none g (take k l) λ j lt.
        let block : (g + j) / 512 ≡ g / 512 = omega (arith, length-take k l) in
        rw block (ground (arith, other)) in
      stored_split k g l ∙ ap (λ m. m ++ stored r n (g + k) (drop k l)) none_own

  -- Whole blocks that are not the node's.
  pub stored_far :
      (m g : ℕ) (l : Bytes)
      → g % 512 ≡ 0
      → ((j : ℕ) → j < m → (g / 512 + j) % n ≢ r)
      → stored r n g l ≡ stored r n (g + m * 512) (drop (m * 512) l)
  stored_far zero g l aligned other =
      let e : g ≡ g + 0 * 512 = omega arith in
      let z : 0 ≡ 0 * 512 = omega arith in
      ap (λ i. stored r n i l) e ∙ ap (λ k. stored r n (g + 0 * 512) (drop k l)) z
  stored_far (suc m) g l aligned other =
      let here : g / 512 % n ≢ r = λ e. other 0 (omega arith) (ap (λ k. k % n) (omega arith) ∙ e) in
      let whole : 512 - g % 512 ≡ 512 = omega arith in
      let block : (g + 512) / 512 ≡ g / 512 + 1 = omega arith in
      let ih = stored_far m (g + 512) (drop 512 l) (omega arith) λ j lt e.
        let shift : g / 512 + suc j ≡ (g + 512) / 512 + j = omega arith in
        other (suc j) (omega arith) (ap (λ k. k % n) shift ∙ e) in
      let index : g + 512 + m * 512 ≡ g + suc m * 512 = omega arith in
      let count : 512 + m * 512 ≡ suc m * 512 = omega arith in
      stored_pass g l here
      ∙ ap (λ k. stored r n (g + k) (drop k l)) whole
      ∙ ih
      ∙ ap (λ k. stored r n k (drop (m * 512) (drop 512 l))) index
      ∙ ap (λ x. stored r n (g + suc m * 512) x) (drop-drop (m * 512) 512 l)
      ∙ ap (λ k. stored r n (g + suc m * 512) (drop k l)) count

-- The column of a block that is less than a row further on.
pub column_lem :
    (q n j : ℕ)
    → j < n
    → ((q % n + j < n) × ((q + j) % n ≡ q % n + j))
      ⊎ ((n ≤ q % n + j) × ((q + j) % n ≡ q % n + j - n))
column_lem q n j h = elim (dec_lt (q % n + j) n) [
  | yes p ↦ inl (p, sym (mod-add-mod q n j) ∙ mod-eq_of_lt p)
  | no p ↦
      let over : n ≤ q % n + j = omega arith in
      let below : q % n + j - n < n = omega (arith, mod-lt q {m = n} (omega arith)) in
      inr (over, sym (mod-add-mod q n j) ∙ mod-eq-sub-mod over ∙ mod-eq_of_lt below)
]
