-- ===== src/DataStorage/Scatter.antt =====
-- What a node writes of a write is its share of the bytes, in order.
use fleetfs.Prelude.{
  ℕ, zero, suc, ◌+◌, ◌-◌, ◌*◌, ◌/◌, ◌%◌, ◌^◌, ◌<◌, ◌≤◌, ◌≡◌, ◌≢◌, sym, ap, ◌∙◌, true, false, ◌++◌,
  min, ◌==◌, ltb, length, take, drop, arith, Bool-cases, inl, inr, ℕ_discrete,
}
use native.Mathlib.Nat.{mod-lt, div-add-mod', add-mod_right, add-mul, one-mul}
use fleetfs.Prelude.Slices.{length-drop, drop-drop, take-min, drop_all}
use fleetfs.Base.Types.{Bytes}
use fleetfs.DataStorage.{to_local_index_ceiling, stores_index, to_global_index}
use fleetfs.DataStorage.Blocks.{every_block, local_data}
use fleetfs.DataStorage.Index.{to_local_index_ceiling-plain, plain, blocks_lem}
use fleetfs.DataStorage.Stripe.{stored, stored_turn, stored_far, stored_pass, column_lem}

suc-mul' : (a n : ℕ) → (a + 1) * n ≡ a * n + n
suc-mul' a n = add-mul a 1 n ∙ ap (λ k. a * n + k) (one-mul n)

module _ (r n : ℕ) (some_nodes : 0 < n) where
  -- From the start of a block of the node: the block, and what is a row further on.
  stored_round :
      (g : ℕ) (l : Bytes)
      → g % 512 ≡ 0
      → g / 512 % n ≡ r
      → stored r n g l ≡ take 512 l ++ stored r n (g + n * 512) (drop (n * 512) l)
  stored_round g l aligned turn =
      let whole : 512 - g % 512 ≡ 512 = omega arith in
      let block : (g + 512) / 512 ≡ g / 512 + 1 = omega arith in
      let far = stored_far r n (n - 1) (g + 512) (drop 512 l) (omega arith) λ j lt e.
        let shift : (g + 512) / 512 + j ≡ g / 512 + suc j = omega arith in
        omega (
          arith,
          column_lem (g / 512) n (suc j) (omega arith),
          sym (ap (λ k. k % n) shift) ∙ e,
          turn,
        ) in
      let index : g + 512 + (n - 1) * 512 ≡ g + n * 512 = omega arith in
      let count : 512 + (n - 1) * 512 ≡ n * 512 = omega arith in
      stored_turn r n g l turn
      ∙ ap (λ k. take k l ++ stored r n (g + k) (drop k l)) whole
      ∙ ap (λ x. take 512 l ++ x)
          (far
            ∙ ap (λ k. stored r n k (drop ((n - 1) * 512) (drop 512 l))) index
            ∙ ap (λ x. stored r n (g + n * 512) x) (drop-drop ((n - 1) * 512) 512 l)
            ∙ ap (λ k. stored r n (g + n * 512) (drop k l)) count)

  -- The loop, from a position whose global index is `g`.
  pub every_block-stored :
      (fuel start g : ℕ) (l : Bytes)
      → g % 512 ≡ 0
      → g / 512 % n ≡ r
      → length l ≤ start + fuel
      → every_block fuel n start l ≡ stored r n g (drop start l)
  unfolding every_block stored
  every_block-stored zero start g l aligned turn enough =
      sym (ap (λ x. stored r n g x) (drop_all start l (omega arith)))
  every_block-stored (suc fuel) start g l aligned turn enough =
      elim (Bool-cases (ltb start (length l))) [
        | inl e ↦
            let block : (g + n * 512) / 512 ≡ g / 512 + n = omega arith in
            let column : (g + n * 512) / 512 % n ≡ r =
              ap (λ k. k % n) block ∙ add-mod_right (g / 512) n ∙ turn in
            let count : min (start + 512) (length l) - start ≡ min 512 (length (drop start l)) =
              omega (arith, length-drop start l) in
            let rest =
              every_block-stored fuel (start + n * 512) (g + n * 512) l (omega arith) column
                (omega arith) in
            rw e (
              ap (λ k. take k (drop start l) ++ every_block fuel n (start + n * 512) l) count
              ∙ ap (λ x. x ++ every_block fuel n (start + n * 512) l) (take-min 512 (drop start l))
              ∙ ap (λ x. take 512 (drop start l) ++ x)
                  (rest ∙ sym (ap (λ x. stored r n (g + n * 512) x) (drop-drop (n * 512) start l)))
              ∙ sym (stored_round g (drop start l) aligned turn))
        | inr e ↦ rw e (sym (ap (λ x. stored r n g x) (drop_all start l (ground (arith, e)))))
      ]

  -- The node whose block the write starts in.
  local_data-own :
      (offset : ℕ) (l : Bytes)
      → offset / 512 % n ≡ r
      → local_data offset r n l ≡ stored r n offset l
  unfolding local_data stores_index
  local_data-own offset l turn =
      let k = 512 - offset % 512 in
      let mine : (r == offset / 512 % n) ≡ true = ground (arith, turn) in
      let next : (offset + k) / 512 ≡ offset / 512 + 1 = omega arith in
      let far = stored_far r n (n - 1) (offset + k) (drop k l) (omega arith) λ j lt e.
        let shift : (offset + k) / 512 + j ≡ offset / 512 + suc j = omega arith in
        omega (
          arith,
          column_lem (offset / 512) n (suc j) (omega arith),
          sym (ap (λ k. k % n) shift) ∙ e,
          turn,
        ) in
      let g = offset + k + (n - 1) * 512 in
      let start = k + (n - 1) * 512 in
      let block : g / 512 ≡ offset / 512 + n = omega arith in
      let column : g / 512 % n ≡ r =
        ap (λ k. k % n) block ∙ add-mod_right (offset / 512) n ∙ turn in
      let rest = every_block-stored (length l) start g l (omega arith) column (omega arith) in
      let no_shift : min k (length l) - 0 ≡ min k (length l) = omega arith in
      rw mine (
        ap (λ c. take c l ++ every_block (length l) n start l) no_shift
        ∙ ap (λ x. x ++ every_block (length l) n start l) (take-min k l)
        ∙ ap (λ x. take k l ++ x)
            (rest ∙ sym (far ∙ ap (λ x. stored r n g x) (drop-drop ((n - 1) * 512) k l)))
        ∙ sym (stored_turn r n offset l turn))

  -- Where the next block of another node starts.
  next_own :
      (offset : ℕ)
      → offset + n * 512 < 2 ^ 64
      → r < n
      → offset / 512 % n ≢ r
      → (d : ℕ) × (0 < d)
        × (d < n)
        × ((offset / 512 + d) % n ≡ r)
        × (to_global_index (to_local_index_ceiling offset r n) r n ≡ (offset / 512 + d) * 512)
  unfolding to_global_index plain
  next_own offset room h other =
      let q = offset / 512 in
      let whole = div-add-mod' q n in
      let ceiling = to_local_index_ceiling-plain offset r n (omega arith) some_nodes in
      elim (Bool-cases (ltb r (q % n))) [
        | inl e ↦
            let below : r < q % n = ground (arith, e) in
            let small : q % n < n = mod-lt q some_nodes in
            let d = n + r - q % n in
            let local : to_local_index_ceiling offset r n ≡ (q / n + 1) * 512 =
              ceiling ∙ ground (arith, e) in
            let row : (q / n + 1) * 512 / 512 ≡ q / n + 1 = omega arith in
            let byte : (q / n + 1) * 512 % 512 ≡ 0 = omega arith in
            let rows : (q / n + 1) * n ≡ q / n * n + n = suc-mul' (q / n) n in
            (
              d,
              omega arith,
              omega arith,
              omega (arith, column_lem q n d (omega arith)),
              rw (local, row, byte) (omega (arith, blocks_lem (q / n + 1) n, rows, whole)),
            )
        | inr e ↦
            let above : q % n < r = ground (arith, e, other) in
            let d = r - q % n in
            let local : to_local_index_ceiling offset r n ≡ q / n * 512 =
              ceiling ∙ ground (arith, e, other) in
            let row : q / n * 512 / 512 ≡ q / n = omega arith in
            let byte : q / n * 512 % 512 ≡ 0 = omega arith in
            (
              d,
              omega arith,
              omega arith,
              omega (arith, column_lem q n d (omega arith)),
              rw (local, row, byte) (omega (arith, blocks_lem (q / n) n, whole)),
            )
      ]

  local_data-other :
      (offset : ℕ) (l : Bytes)
      → offset + n * 512 < 2 ^ 64
      → r < n
      → offset / 512 % n ≢ r
      → local_data offset r n l ≡ stored r n offset l
  unfolding local_data stores_index
  local_data-other offset l room h other =
      let (d, positive, within, column, target) = next_own offset room h other in
      let k = 512 - offset % 512 in
      let g = (offset / 512 + d) * 512 in
      let start = k + (d - 1) * 512 in
      let not_mine : (r == offset / 512 % n) ≡ false = ground (arith, other) in
      let begins : (to_global_index (to_local_index_ceiling offset r n) r n + 2 ^ 64 - offset)
            % 2 ^ 64
          ≡ start =
        omega (arith, target) in
      let far = stored_far r n (d - 1) (offset + k) (drop k l) (omega arith) λ j lt e.
        let shift : (offset + k) / 512 + j ≡ offset / 512 + suc j = omega arith in
        omega (
          arith,
          column_lem (offset / 512) n (suc j) (omega arith),
          column_lem (offset / 512) n d within,
          sym (ap (λ k. k % n) shift) ∙ e,
          column,
        ) in
      let index : offset + k + (d - 1) * 512 ≡ g = omega arith in
      let block : g / 512 ≡ offset / 512 + d = omega arith in
      let rest =
        every_block-stored (length l) start g l (omega arith) (ap (λ k. k % n) block ∙ column)
          (omega arith) in
      rw not_mine (
        ap (λ x. every_block (length l) n x l) begins
        ∙ rest
        ∙ sym (
            stored_pass r n offset l other
            ∙ far
            ∙ ap (λ x. stored r n x (drop ((d - 1) * 512) (drop k l))) index
            ∙ ap (λ x. stored r n g x) (drop-drop ((d - 1) * 512) k l)))

  -- The bytes that `write_local_blocks` takes out of a write are those of the node, in order.
  pub local_data-stored :
      (offset : ℕ) (l : Bytes)
      → offset + n * 512 < 2 ^ 64
      → r < n
      → local_data offset r n l ≡ stored r n offset l
  local_data-stored offset l room h = elim (ℕ_discrete (offset / 512 % n) r) [
    | yes turn ↦ local_data-own offset l turn
    | no other ↦ local_data-other offset l room h other
  ]
