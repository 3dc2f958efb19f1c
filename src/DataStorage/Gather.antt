-- ===== src/DataStorage/Gather.antt =====
-- The bytes of all nodes, put together, are the bytes of the range.
use mathlib.Core.List.{append-nil}
use native.Mathlib.Nat.{mod-lt, mod-add-mod}
use fleetfs.Prelude.{
  ℕ, zero, suc, ◌+◌, ◌-◌, ◌/◌, ◌%◌, ◌<◌, ◌≤◌, ◌≡◌, ◌≢◌, refl, sym, ap, ◌∙◌, [], ◌∷◌, ◌++◌, min, ltb,
  length, length-append, take, drop, take-append-drop, arith, Bool-cases, inl, inr, ℕ_discrete,
  dec_lt,
}
use fleetfs.Prelude.Slices.{
  length-take, length-drop, drop-drop, take-min, take_all, drop_all, take-append, drop-append,
}
use fleetfs.Base.Types.{Bytes}
use fleetfs.DataStorage.Blocks.{slice, Indices, advance, gather_loop, gather}
use fleetfs.DataStorage.Stripe.{stored, stored_turn, stored_pass}

-- A front of `k` bytes, or of fewer if nothing follows.
front_lem :
    (k : ℕ) (l rest : Bytes)
    → (length l < k → rest ≡ [])
    → (let whole = take k l ++ rest in
        (take (min k (length whole)) whole ≡ take k l) × (drop (min k (length whole)) whole ≡ rest))
front_lem k l rest h =
    let whole = take k l ++ rest in
    elim (dec_lt (length l) k) [
      | yes p ↦
          let alone : whole ≡ l =
            ap (λ x. take k l ++ x) (h p) ∙ append-nil (take k l) ∙ take_all k l (omega arith) in
          let count : min k (length l) ≡ length l = omega arith in
          rw alone (
            take-min k l,
            ap (λ c. drop c l) count ∙ drop_all (length l) l (omega arith) ∙ sym (h p),
          )
      | no p ↦
          let front : length (take k l) ≡ k = omega (arith, length-take k l) in
          let count : min k (length whole) ≡ k = omega (arith, length-append (take k l) rest) in
          (
            ap (λ c. take c whole) count ∙ take-append k (take k l) rest front,
            ap (λ c. drop c whole) count ∙ drop-append k (take k l) rest front,
          )
    ]

length_zero : (l : Bytes) → length l ≡ 0 → l ≡ []
length_zero [] h = refl
length_zero (x ∷ l) h = absurd (omega arith)

stored_nothing : (r n g k : ℕ) (l : Bytes) → length l < k → stored r n g (drop k l) ≡ []
unfolding stored
stored_nothing r n g k l h = ap (λ x. stored r n g x) (drop_all k l (omega arith))

module _ (n : ℕ) (some_nodes : 0 < n) (blocks : ℕ → Bytes) where
  -- What is left of the bytes of every node, after the bytes before global index `g`.
  abbrev IsLeft : Indices → ℕ → Bytes → Type 0
  IsLeft indices g l = (j : ℕ) → j < n → drop (indices j) (blocks j) ≡ stored j n g l

  own_turn :
      (r g : ℕ) (l : Bytes) (k : ℕ)
      → k ≡ 512 - g % 512
      → g / 512 % n ≡ r
      → stored r n g l ≡ take k l ++ stored r n (g + k) (drop k l)
  own_turn r g l k whole turn =
      stored_turn r n g l turn ∙ ap (λ c. take c l ++ stored r n (g + c) (drop c l)) (sym whole)

  other_turn :
      (r g : ℕ) (l : Bytes) (k : ℕ)
      → k ≡ 512 - g % 512
      → g / 512 % n ≢ r
      → stored r n g l ≡ stored r n (g + k) (drop k l)
  other_turn r g l k whole turn =
      stored_pass r n g l turn ∙ ap (λ c. stored r n (g + c) (drop c l)) (sym whole)

  -- A turn of the node whose block it is.
  after_turn :
      (indices : Indices) (g : ℕ) (l : Bytes) (k : ℕ)
      → k ≡ 512 - g % 512
      → IsLeft indices g l
      → (let i = g / 512 % n in
          let taken = min k (length (blocks i) - indices i) in
          (slice (blocks i) (indices i) (indices i + taken) ≡ take k l)
          × IsLeft (advance indices i taken) (g + k) (drop k l))
  after_turn indices g l k whole left =
      let i = g / 512 % n in
      let a = indices i in
      let own = blocks i in
      let within : i < n = mod-lt (g / 512) some_nodes in
      let tail = stored i n (g + k) (drop k l) in
      let turn : drop a own ≡ take k l ++ tail = left i within ∙ own_turn i g l k whole refl in
      let (fronted, dropped) = front_lem k l tail (stored_nothing i n (g + k) k l) in
      let count : min k (length own - a) ≡ min k (length (take k l ++ tail)) =
        ap (min k) (sym (length-drop a own) ∙ ap length turn) in
      let taken = min k (length own - a) in
      let width : a + taken - a ≡ taken = omega arith in
      (
        ap (λ c. take c (drop a own)) (width ∙ count)
            ∙ ap (λ x. take (min k (length (take k l ++ tail))) x) turn
            ∙ fronted,
        λ j lt. elim (ℕ_discrete j i) [
          | yes p ↦
              let here : advance indices i taken j ≡ a + taken =
                ap (advance indices i taken) p ∙ ground arith in
              ap (λ c. drop c (blocks j)) here
              ∙ ap (λ m. drop (a + taken) (blocks m)) p
              ∙ sym (drop-drop taken a own)
              ∙ ap (λ c. drop c (drop a own)) count
              ∙ ap (λ x. drop (min k (length (take k l ++ tail))) x) turn
              ∙ dropped
              ∙ ap (λ m. stored m n (g + k) (drop k l)) (sym p)
          | no p ↦
              let here : advance indices i taken j ≡ indices j = ground (arith, p) in
              ap (λ c. drop c (blocks j)) here
              ∙ left j lt
              ∙ other_turn j g l k whole (λ e. p (sym e))
        ],
      )

  gather_loop_lem :
      (fuel : ℕ) (indices : Indices) (g : ℕ) (l : Bytes) (next : ℕ)
      → g % 512 ≡ 0
      → next ≡ g / 512 % n
      → length l ≤ fuel
      → IsLeft indices g l
      → gather_loop fuel n blocks indices next ≡ l
  unfolding gather_loop
  gather_loop_lem zero indices g [] next aligned turn enough left = refl
  gather_loop_lem zero indices g (x ∷ l) next aligned turn enough left = absurd (omega arith)
  gather_loop_lem (suc fuel) indices g l next aligned turn enough left =
      let i = g / 512 % n in
      let whole : 512 ≡ 512 - g % 512 = omega arith in
      let (taken, after) = after_turn indices g l 512 whole left in
      let further : (i + 1) % n ≡ (g + 512) / 512 % n =
        mod-add-mod (g / 512) n 1 ∙ ap (λ k. k % n) (omega arith) in
      let rest =
        gather_loop_lem fuel (advance indices i (min 512 (length (blocks i) - indices i))) (g + 512)
          (drop 512 l) ((i + 1) % n) (omega arith) further (omega (arith, length-drop 512 l))
          after in
      rw turn (elim (Bool-cases (ltb (indices i) (length (blocks i)))) [
        | inl e ↦ rw e (
            ap
              (λ x.
                x
                ++ gather_loop fuel n blocks
                    (advance indices i (min 512 (length (blocks i) - indices i))) ((i + 1) % n))
              taken
            ∙ ap (λ x. take 512 l ++ x) rest
            ∙ take-append-drop 512 l)
        | inr e ↦
            let empty : length (take 512 l ++ stored i n (g + 512) (drop 512 l)) ≡ 0 =
              ap length (sym (left i (mod-lt (g / 512) some_nodes) ∙ own_turn i g l 512 whole refl))
              ∙ length-drop (indices i) (blocks i)
              ∙ ground (arith, e) in
            rw e (
              sym (
                length_zero l (
                  omega (
                    arith,
                    empty,
                    length-append (take 512 l) (stored i n (g + 512) (drop 512 l)),
                    length-take 512 l,
                  ))))
      ])

  -- If every node holds its share of the bytes, `read` puts the bytes together again.
  pub gather_lem :
      (fuel offset : ℕ) (l : Bytes)
      → length l ≤ fuel
      → ((j : ℕ) → j < n → blocks j ≡ stored j n offset l)
      → gather fuel n blocks offset ≡ l
  unfolding gather
  gather_lem fuel offset l enough shares =
      let i = offset / 512 % n in
      let k = 512 - offset % 512 in
      let (taken, after) = after_turn (λ j. 0) offset l k refl shares in
      let further : (i + 1) % n ≡ (offset + k) / 512 % n =
        mod-add-mod (offset / 512) n 1 ∙ ap (λ k. k % n) (omega arith) in
      let none_taken : length (blocks i) - 0 ≡ length (blocks i) = omega arith in
      let first : 0 + min k (length (blocks i) - 0) ≡ min k (length (blocks i)) = omega arith in
      let rest =
        gather_loop_lem fuel (advance (λ j. 0) i (min k (length (blocks i) - 0))) (offset + k)
          (drop k l) ((i + 1) % n) (omega arith) further (omega (arith, length-drop k l)) after in
      ap
        (λ c.
          slice (blocks i) 0 c
          ++ gather_loop fuel n blocks (advance (λ j. 0) i (min k (length (blocks i))))
              ((i + 1) % n))
        (sym first)
      ∙ ap
          (λ x.
            x
            ++ gather_loop fuel n blocks (advance (λ j. 0) i (min k (length (blocks i))))
                ((i + 1) % n))
          taken
      ∙ ap (λ c. take k l ++ gather_loop fuel n blocks (advance (λ j. 0) i (min k c)) ((i + 1) % n))
          (sym none_taken)
      ∙ ap (λ x. take k l ++ x) rest
      ∙ take-append-drop k l
