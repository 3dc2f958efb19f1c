-- ===== src/Base/Outcome.antt =====
-- How a call ends: `Ok(a)`, `Err(error_code)`, or a panic (`unwrap`, `assert!`, `unreachable!`).
-- ErrorCode is the enum of src/base/message_types.rs.
pub mod Laws
use fleetfs.Prelude.{Option, none, some, Bool, true, false}

pub data ErrorCode : Type 0 where
  does_not_exist inode_does_not_exist file_too_large access_denied : ErrorCode
  operation_not_permitted already_exists name_too_long not_empty missing_xattr_key : ErrorCode
  bad_response bad_request corrupted raft_failure invalid_xattr_namespace uncategorized : ErrorCode

pub data Outcome {ℓ} (A : Type ℓ) : Type ℓ where
  ok : A → Outcome A
  err : ErrorCode → Outcome A
  panic : Outcome A

infixl 5 ◌>>=◌ ◌>>◌
abbrev pub ◌>>=◌ {ℓ κ} : {A : Type ℓ} {B : Type κ} → Outcome A → (A → Outcome B) → Outcome B
ok a >>= f = f a
err e >>= f = err e
panic >>= f = panic

abbrev pub ◌>>◌ {ℓ} : {B : Type ℓ} → Outcome (Unit {0}) → Outcome B → Outcome B
m >> k = m >>= λ _. k

-- `if !test { return Err(e); }`
abbrev pub guard : Bool → ErrorCode → Outcome (Unit {0})
guard true e = ok tt
guard false e = err e

-- `assert!(test)`
abbrev pub assert : Bool → Outcome (Unit {0})
assert true = ok tt
assert false = panic

-- `o.ok_or(e)?`
abbrev pub ok_or {ℓ} : {A : Type ℓ} → Option A → ErrorCode → Outcome A
ok_or none e = err e
ok_or (some a) e = ok a

-- `o.unwrap()`
abbrev pub unwrap {ℓ} : {A : Type ℓ} → Option A → Outcome A
unwrap none = panic
unwrap (some a) = ok a
