-- ===== src/Prelude/Bits.antt =====
-- The bits of `bit_and`, digit by digit.
use Prim.Native.Nat.{
  ℕ, zero, suc, ◌+◌, ◌-◌, ◌*◌, ◌/◌, ◌%◌, ◌≤◌, ◌<◌, min, bit_and, digits, bit_and-bitwise,
}
use mathlib.Core.Path.{◌≡◌, refl, sym, ap, ◌∙◌}
use native.Mathlib.Omega.{arith}

-- The conjunction of the `n` lowest digits.
conj : (n x y : ℕ) → ℕ
conj zero x y = 0
conj (suc n) x y = min (x % 2) (y % 2) + 2 * conj n (x / 2) (y / 2)

conj-zero : (n y : ℕ) → conj n 0 y ≡ 0
unfolding conj
conj-zero zero y = refl
conj-zero (suc n) y = omega (arith, conj-zero n (y / 2))

-- Digits beyond those of `x` add nothing.
conj_beyond : (n k x y : ℕ) → x ≤ n → conj (k + n) x y ≡ conj n x y
unfolding conj
conj_beyond zero k x y h =
    let none_left : x ≡ 0 = omega arith in
    ap (λ z. conj (k + 0) z y) none_left ∙ conj-zero (k + 0) y
conj_beyond (suc n) k x y h =
    let longer : k + suc n ≡ suc (k + n) = omega arith in
    ap (λ m. conj m x y) longer
    ∙ ap (λ c. min (x % 2) (y % 2) + 2 * c) (conj_beyond n k (x / 2) (y / 2) (omega arith))

native-conj : (n x y : ℕ) → digits (λ b. zero) min n x y ≡ conj n x y
unfolding conj
native-conj zero x y = refl
native-conj (suc n) zero y = sym (conj-zero (suc n) y)
native-conj (suc n) (suc x) y = omega (arith, native-conj n (suc x / 2) (y / 2))

bit_and-conj : (n x y : ℕ) → x ≤ n → bit_and x y ≡ conj n x y
bit_and-conj n x y h =
    let rest : n - x + x ≡ n = omega arith in
    bit_and-bitwise x y
    ∙ native-conj x x y
    ∙ sym (conj_beyond x (n - x) x y (omega arith))
    ∙ ap (λ m. conj m x y) rest

-- The lowest digit of a conjunction, and the others.
pub bit_and_step : (x y : ℕ) → bit_and x y ≡ bit_and (x / 2) (y / 2) * 2 + min (x % 2) (y % 2)
unfolding conj
bit_and_step x y =
    omega
      (arith, bit_and-conj (suc x) x y (omega arith), bit_and-conj x (x / 2) (y / 2) (omega arith))

zero-bit_and : (y : ℕ) → bit_and 0 y ≡ 0
zero-bit_and y = bit_and-conj 0 0 y (omega arith) ∙ conj-zero 0 y

-- The digit of `x` that stands for 2 ^ k.
unfoldable pub testbit : ℕ → ℕ → ℕ
testbit x zero = x % 2
testbit x (suc k) = testbit (x / 2) k

-- A bit of `bit_and a b` is set exactly if it is set in both.
pub testbit-bit_and : (a b k : ℕ) → testbit (bit_and a b) k ≡ min (testbit a k) (testbit b k)
unfolding testbit
testbit-bit_and a b zero = omega (arith, bit_and_step a b)
testbit-bit_and a b (suc k) =
    let half : bit_and a b / 2 ≡ bit_and (a / 2) (b / 2) = omega (arith, bit_and_step a b) in
    rw half (testbit-bit_and (a / 2) (b / 2) k)

-- A mask of three bits reads three digits.
pub bit_and_three :
    (m x : ℕ)
    → m < 8
    → bit_and m x
      ≡ min (m % 2) (x % 2) + 2 * min (m / 2 % 2) (x / 2 % 2) + 4 * min (m / 4 % 2) (x / 4 % 2)
bit_and_three m x h =
    let gone : m / 2 / 2 / 2 ≡ 0 = omega arith in
    let last : bit_and (m / 2 / 2 / 2) (x / 2 / 2 / 2) ≡ 0 =
      rw gone (zero-bit_and (x / 2 / 2 / 2)) in
    omega (
      arith,
      bit_and_step m x,
      bit_and_step (m / 2) (x / 2),
      bit_and_step (m / 2 / 2) (x / 2 / 2),
      last,
    )
