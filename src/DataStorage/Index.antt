-- ===== src/DataStorage/Index.antt =====
-- The index functions agree with each other, and with counting the bytes that a node stores.
use native.Mathlib.Nat.{
  zero-mod, zero-div, mul_assoc, mul_comm, le-mul_of_pos_right, mod_self, div_self,
  mul-add-div_right, div-eq_of_lt, mod-lt, div-add-mod', mul-add-mod_self_right, mod-eq_of_lt,
}
use fleetfs.Prelude.{
  ℕ, zero, suc, ◌+◌, ◌*◌, ◌/◌, ◌%◌, ◌^◌, ◌<◌, ◌≤◌, ◌≡◌, refl, sym, ap, ◌∙◌, true, ltb, ◌==◌,
  Bool-cases, inl, inr, ◌⊎◌, if◌then◌else◌, arith,
}
use fleetfs.DataStorage.{to_local_index_ceiling, stores_index, to_global_index}

-- How many of the indices below `global_index` a node stores.
unfoldable pub stored_below : (global_index local_rank total_nodes : ℕ) → ℕ
stored_below zero r n = 0
stored_below (suc g) r n = (if stores_index g r n then 1 else 0) + stored_below g r n

-- The next block is the next one of the row, or the first of the next row.
pub next_block :
    (q n : ℕ)
    → 0 < n
    → ((q % n + 1 < n) × ((q + 1) % n ≡ q % n + 1) × ((q + 1) / n ≡ q / n))
      ⊎ ((q % n + 1 ≡ n) × ((q + 1) % n ≡ 0) × ((q + 1) / n ≡ q / n + 1))
next_block q n h = elim (Bool-cases (ltb (q % n + 1) n)) [
  | inl e ↦
      let small : q % n + 1 < n = ground (arith, e) in
      let whole : q + 1 ≡ q / n * n + (q % n + 1) = omega (arith, div-add-mod' q n) in
      inl (
        small,
        ap (λ k. k % n) whole ∙ mul-add-mod_self_right (q / n) n (q % n + 1) ∙ mod-eq_of_lt small,
        ap (λ k. k / n) whole
            ∙ mul-add-div_right h (q / n) (q % n + 1)
            ∙ ap (λ k. q / n + k) (div-eq_of_lt small)
            ∙ omega arith,
      )
  | inr e ↦
      let last : q % n + 1 ≡ n = ground (arith, e, mod-lt q h) in
      let whole : q + 1 ≡ q / n * n + n = omega (arith, div-add-mod' q n) in
      inr (
        last,
        ap (λ k. k % n) whole ∙ mul-add-mod_self_right (q / n) n n ∙ mod_self n,
        ap (λ k. k / n) whole ∙ mul-add-div_right h (q / n) n ∙ ap (λ k. q / n + k) (div_self h),
      )
]

-- Where the ceiling adds a whole block, the sum does not wrap around.
no_wrap :
    (g r n : ℕ)
    → g < 2 ^ 64
    → 0 < n
    → r < g / 512 % n
    → (g / 512 / n * 512 + 512) % 2 ^ 64 ≡ g / 512 / n * 512 + 512
no_wrap g r n small h e =
    let row : g / 512 / n ≤ g / 512 / n * n = le-mul_of_pos_right (g / 512 / n) h in
    omega (arith, div-add-mod' (g / 512) n, row)

-- The ceiling, without the wrapping around.
unfoldable pub plain : (g r n : ℕ) → ℕ
plain g r n =
    if ltb r (g / 512 % n)
    then g / 512 / n * 512 + 512
    else if r == g / 512 % n
    then g / 512 / n * 512 + g % 512
    else g / 512 / n * 512

pub to_local_index_ceiling-plain :
    (g r n : ℕ) → g < 2 ^ 64 → 0 < n → to_local_index_ceiling g r n ≡ plain g r n
unfolding to_local_index_ceiling plain
to_local_index_ceiling-plain g r n small h = elim (Bool-cases (ltb r (g / 512 % n))) [
  | inl e ↦ rw e (no_wrap g r n small h (ground (arith, e)))
  | inr e ↦ rw e refl
]

plain_step :
    (g r n : ℕ) → r < n → plain (g + 1) r n ≡ (if stores_index g r n then 1 else 0) + plain g r n
unfolding plain stores_index
plain_step g r n h = elim (Bool-cases (g % 512 == 511)) [
  | inl e ↦
      let block : (g + 1) / 512 ≡ g / 512 + 1 = ground (arith, e) in
      let first : (g + 1) % 512 ≡ 0 = ground (arith, e) in
      rw (block, first) (ground (arith, e, next_block (g / 512) n (omega arith)))
  | inr e ↦
      let block : (g + 1) / 512 ≡ g / 512 = ground (arith, e) in
      let byte : (g + 1) % 512 ≡ g % 512 + 1 = ground (arith, e) in rw (block, byte) (ground arith)
]

plain_counts : (g r n : ℕ) → r < n → plain g r n ≡ stored_below g r n
unfolding plain stored_below
plain_counts zero r n h = let z : 0 % n ≡ 0 = zero-mod n in ground (arith, z, zero-div n)
plain_counts (suc g) r n h =
    ap (λ k. plain k r n) (omega arith)
    ∙ plain_step g r n h
    ∙ ap (λ k. (if stores_index g r n then 1 else 0) + k) (plain_counts g r n h)

-- The local index of a byte, or of the next byte that the node stores, is the number of bytes before
-- it that the node stores: a node's bytes lie in its file in order and without gaps.
pub to_local_index_ceiling-stored_below :
    (global_index local_rank total_nodes : ℕ)
    → global_index < 2 ^ 64
    → local_rank < total_nodes
    → to_local_index_ceiling global_index local_rank total_nodes
      ≡ stored_below global_index local_rank total_nodes
to_local_index_ceiling-stored_below g r n small h =
    to_local_index_ceiling-plain g r n small (omega arith) ∙ plain_counts g r n h

-- `a * 512 * n` is `a * n` blocks.
pub blocks_lem : (a n : ℕ) → a * 512 * n ≡ a * n * 512
blocks_lem a n = mul_assoc a 512 n ∙ ap (λ k. a * k) (mul_comm 512 n) ∙ sym (mul_assoc a n 512)

-- A byte that a node stores is found again at its local index.
pub to_global_index-to_local_index_ceiling :
    (global_index local_rank total_nodes : ℕ)
    → global_index < 2 ^ 64
    → local_rank < total_nodes
    → stores_index global_index local_rank total_nodes ≡ true
    → to_global_index
        (to_local_index_ceiling global_index local_rank total_nodes)
        local_rank
        total_nodes
      ≡ global_index
unfolding to_global_index stores_index plain
to_global_index-to_local_index_ceiling g r n small h stored =
    let e : r ≡ g / 512 % n = ground (arith, stored) in
    let local : to_local_index_ceiling g r n ≡ g / 512 / n * 512 + g % 512 =
      to_local_index_ceiling-plain g r n small (omega arith) ∙ ground (arith, e) in
    let row : (g / 512 / n * 512 + g % 512) / 512 ≡ g / 512 / n = omega arith in
    let byte : (g / 512 / n * 512 + g % 512) % 512 ≡ g % 512 = omega arith in
    rw (local, row, byte) (omega (arith, blocks_lem (g / 512 / n) n, div-add-mod' (g / 512) n, e))

-- A local index stands for a byte that the node stores and whose local index it is, as long as the
-- byte's index is a `u64`.
pub to_local_index_ceiling-to_global_index :
    (local_index local_rank total_nodes : ℕ)
    → local_rank < total_nodes
    → local_index / 512 * 512 * total_nodes + local_rank * 512 + local_index % 512 < 2 ^ 64
    → (stores_index (to_global_index local_index local_rank total_nodes) local_rank total_nodes
        ≡ true)
      × (to_local_index_ceiling
            (to_global_index local_index local_rank total_nodes)
            local_rank
            total_nodes
          ≡ local_index)
unfolding to_global_index stores_index plain
to_local_index_ceiling-to_global_index l r n h small =
    let g = (l / 512 * n + r) * 512 + l % 512 in
    let whole : to_global_index l r n ≡ g = omega (arith, blocks_lem (l / 512) n) in
    let below : g < 2 ^ 64 = omega (arith, blocks_lem (l / 512) n) in
    let block : g / 512 ≡ l / 512 * n + r = omega arith in
    let column : g / 512 % n ≡ r =
      ap (λ k. k % n) block ∙ mul-add-mod_self_right (l / 512) n r ∙ mod-eq_of_lt h in
    let row : g / 512 / n ≡ l / 512 =
      ap (λ k. k / n) block
      ∙ mul-add-div_right (omega arith) (l / 512) r
      ∙ ap (λ k. l / 512 + k) (div-eq_of_lt h)
      ∙ omega arith in
    let byte : g % 512 ≡ l % 512 = omega arith in
    rw whole (
      ground (arith, column),
      to_local_index_ceiling-plain g r n below (omega arith) ∙ ground (arith, column, row, byte),
    )
