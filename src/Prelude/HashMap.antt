-- ===== src/Prelude/HashMap.antt =====
-- `std::collections::HashMap` with `u64` keys, for maps that the program reads and writes by key
-- only: what is stored at each key.
use fleetfs.Prelude.Tests.{◌==◌, if◌then◌else◌}
use Prim.Native.Nat.{ℕ}
use mathlib.Core.Option.{Option, none, some}

abbrev pub HashMap : Type 0 → Type 0
HashMap V = ℕ → Option V

module _ {V : Type 0} where
  abbrev pub empty : HashMap V
  empty = λ j. none

  abbrev pub insert : HashMap V → ℕ → V → HashMap V
  insert m k v = λ j. if j == k then some v else m j

  abbrev pub remove : HashMap V → ℕ → HashMap V
  remove m k = λ j. if j == k then none else m j
