-- ===== src/Base/Access/Laws.antt =====
-- What `check_access` grants, bit by bit of the mask.
use fleetfs.Prelude.{
  ℕ, ◌+◌, ◌-◌, ◌/◌, ◌%◌, ◌≤◌, ◌<◌, ◌≡◌, ◌≢◌, ◌↔◌, true, bit_and, arith, ◌==◌, ==_iff, if◌then◌else◌,
}
use fleetfs.Prelude.Bits.{bit_and_three}
use fleetfs.Base.Access.{clear, check_access}

-- Every bit of the mask is among the three permission bits `granted`.
abbrev pub Grants : (mask granted : ℕ) → Type 0
Grants mask granted =
    (mask % 2 ≤ granted % 2) × (mask / 2 % 2 ≤ granted / 2 % 2) × (mask / 4 % 2 ≤ granted / 4 % 2)

-- The permission bits that apply to a user: the owner's, the group's, or everybody's.
abbrev pub class_bits : (file_uid file_gid file_mode uid gid : ℕ) → ℕ
class_bits file_uid file_gid file_mode uid gid =
    if uid == file_uid then file_mode / 64 else if gid == file_gid then file_mode / 8 else file_mode

clear_iff : (m x : ℕ) → m < 8 → (clear m x ≡ 0) ↔ Grants m x
unfolding clear
clear_iff m x h = (λ e. omega (arith, bit_and_three m x h), λ g. omega (arith, bit_and_three m x h))

clear-le : (m x : ℕ) → clear m x ≤ m
unfolding clear
clear-le m x = omega arith

check_access_nonroot :
    (file_uid file_gid file_mode uid gid mask : ℕ)
    → uid ≢ 0
    → check_access file_uid file_gid file_mode uid gid mask
      ≡ (clear mask (class_bits file_uid file_gid file_mode uid gid) == 0)
unfolding check_access
check_access_nonroot fu fg mode uid gid mask nonroot =
    ground (arith, clear-le mask (class_bits fu fg mode uid gid))

-- A user other than root is granted a mask exactly if the permission bits of the user's class
-- (owner, group or other) hold every bit of it.
pub check_access-Grants :
    (file_uid file_gid file_mode uid gid mask : ℕ)
    → uid ≢ 0
    → mask < 8
    → (check_access file_uid file_gid file_mode uid gid mask ≡ true)
      ↔ Grants mask (class_bits file_uid file_gid file_mode uid gid)
check_access-Grants fu fg mode uid gid mask nonroot h =
    let bits = class_bits fu fg mode uid gid in
    rw (check_access_nonroot fu fg mode uid gid mask nonroot) (
      λ e. (clear_iff mask bits h).0 ((==_iff _ 0).0 e),
      λ g. (==_iff _ 0).1 ((clear_iff mask bits h).1 g),
    )

-- On the lowest bit alone, what is granted is taken away.
clear_one : (m x : ℕ) → m ≤ 1 → clear m x ≡ m - x % 2
unfolding clear
clear_one m x h = omega (arith, bit_and_three m x (omega arith))

root_clear :
    (m x y z : ℕ)
    → m < 8
    → (clear (clear (clear (bit_and m 1) x) y) z ≡ 0) ↔ (m % 2 ≤ x % 2 + y % 2 + z % 2)
root_clear m x y z h =
    let b : bit_and m 1 ≡ m % 2 = omega (arith, bit_and_three m 1 h) in
    let b1 : bit_and m 1 ≤ 1 = omega arith in
    let c : clear (bit_and m 1) x ≤ 1 = omega (arith, clear-le (bit_and m 1) x) in
    let d : clear (clear (bit_and m 1) x) y ≤ 1 =
      omega (arith, clear-le (clear (bit_and m 1) x) y) in
    let l1 = clear_one (bit_and m 1) x b1 in
    let l2 = clear_one (clear (bit_and m 1) x) y c in
    let l3 = clear_one (clear (clear (bit_and m 1) x) y) z d in
    (λ e. omega (arith, l1, l2, l3), λ g. omega (arith, l1, l2, l3))

-- Root may read and write anything, and execute what anybody may execute.
pub check_access_root :
    (file_uid file_gid file_mode gid mask : ℕ)
    → mask < 8
    → (check_access file_uid file_gid file_mode 0 gid mask ≡ true)
      ↔ (mask % 2 ≤ file_mode / 64 % 2 + file_mode / 8 % 2 + file_mode % 2)
check_access_root fu fg mode gid mask h =
    let r = root_clear mask (mode / 64) (mode / 8) mode h in
    (λ e. unfold check_access in ground (arith, r), λ g. unfold check_access in ground (arith, r))
