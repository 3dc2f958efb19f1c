-- ===== src/Base/Outcome/Laws.antt =====
-- Inversion: what a successful outcome says of its parts.
use fleetfs.Prelude.{◌≡◌, refl, Option, none, some, Bool, true, false}
use fleetfs.Base.Outcome.{ErrorCode, Outcome, ok, err, panic, unwrap, ok_or, guard, assert, ◌>>=◌}

module _ {ℓ} {A : Type ℓ} where
  pub ok-injective : {a b : A} → ok a ≡ ok b → a ≡ b
  ok-injective e = cc

  pub unwrap-eq-ok : (o : Option A) {a : A} → unwrap o ≡ ok a → o ≡ some a
  unwrap-eq-ok none h = cc
  unwrap-eq-ok (some b) h = cc

  pub ok_or-eq-ok : (o : Option A) (e : ErrorCode) {a : A} → ok_or o e ≡ ok a → o ≡ some a
  ok_or-eq-ok none e h = cc
  ok_or-eq-ok (some b) e h = cc

pub assert-eq-ok : (b : Bool) {u : Unit {0}} → assert b ≡ ok u → b ≡ true
assert-eq-ok true h = refl
assert-eq-ok false h = cc

pub guard-eq-ok : (b : Bool) (e : ErrorCode) {u : Unit {0}} → guard b e ≡ ok u → b ≡ true
guard-eq-ok true e h = refl
guard-eq-ok false e h = cc

-- A call that goes on and returns had a value to go on with.
pub >>=-eq-ok {ℓ κ} :
    {A : Type ℓ} {B : Type κ} (first : Outcome A) (next : A → Outcome B) {value : B}
    → (first >>= next) ≡ ok value
    → (x : A) × (first ≡ ok x) × (next x ≡ ok value)
>>=-eq-ok panic next returned = cc
>>=-eq-ok (err code) next returned = cc
>>=-eq-ok (ok x) next returned = (x, refl, returned)
