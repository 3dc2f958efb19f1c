-- ===== src/Base/Access.antt =====
-- `check_access` of src/base/utils.rs. A mode is a `u16`; an access mask is made of R_OK, W_OK and
-- X_OK, so it is a number below 8. The constants are those of <unistd.h> and <sys/stat.h>.
pub mod Laws
mod Tests
use fleetfs.Prelude.{ℕ, ◌-◌, ◌/◌, Bool, true, bit_and, ◌==◌, if◌then◌else◌}

abbrev pub f_ok : ℕ
f_ok = 0

abbrev pub x_ok : ℕ
x_ok = 1

abbrev pub w_ok : ℕ
w_ok = 2

abbrev pub r_ok : ℕ
r_ok = 4

-- `mask -= mask & granted`
unfoldable pub clear : ℕ → ℕ → ℕ
clear mask granted = mask - bit_and mask granted

-- A shift `file_mode >> 6` is the division by 64.
unfoldable pub check_access : ℕ → ℕ → ℕ → ℕ → ℕ → ℕ → Bool
check_access file_uid file_gid file_mode uid gid access_mask =
    if access_mask == f_ok
    then true
    else if uid == 0
    then clear (clear (clear (bit_and access_mask x_ok) (file_mode / 64)) (file_mode / 8)) file_mode
      == 0
    else if uid == file_uid
    then clear access_mask (file_mode / 64) == 0
    else if gid == file_gid
    then clear access_mask (file_mode / 8) == 0
    else clear access_mask file_mode == 0
