-- ===== src/Base/Access/Tests.antt =====
-- Access checks at concrete modes.
use fleetfs.Prelude.{◌+◌, ◌/◌, ◌%◌, ◌≤◌, ◌≡◌, ◌↔◌, refl, true, false, arith}
use fleetfs.Base.Access.{check_access, clear, r_ok, w_ok, x_ok}
use fleetfs.Base.Access.Laws.{Grants, class_bits, check_access-Grants, check_access_root}

owner_test : check_access 7 7 0o640 7 9 (r_ok + w_ok) ≡ true
unfolding check_access clear
owner_test = refl

other_test : check_access 7 7 0o640 8 8 r_ok ≡ false
unfolding check_access clear
other_test = refl

root_execute_test : check_access 7 7 0o640 0 0 x_ok ≡ false
unfolding check_access clear
root_execute_test = refl

check_access-Grants_example :
    (check_access 7 7 0o640 8 7 4 ≡ true) ↔ Grants 4 (class_bits 7 7 0o640 8 7)
check_access-Grants_example =
    check_access-Grants 7 7 0o640 8 7 4 (λ e. omega (arith, e)) (omega arith)

check_access_root_example :
    (check_access 7 7 0o640 0 0 3 ≡ true) ↔ (3 % 2 ≤ 0o640 / 64 % 2 + 0o640 / 8 % 2 + 0o640 % 2)
check_access_root_example = check_access_root 7 7 0o640 0 3 (omega arith)
