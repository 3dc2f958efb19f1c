-- ===== src/Redb.antt =====
-- The embedded database of src/storage/local/metadata_storage.rs (the crate redb) is a parameter:
-- its tables, the calls that the storage makes of them inside a transaction, and what redb documents
-- of them. A table of a transaction is a value; what `commit` keeps and `abort` (or dropping the
-- transaction) forgets is written out where the transactions are modelled.
pub mod Model
pub mod Laws
use fleetfs.Prelude.{
  ℕ, ◌≤◌, ◌<◌, String, ◌≡◌, ◌≢◌, ◌↔◌, Bool, true, Option, none, some, List, ◌&&◌, leb, ltb,
  if◌then◌else◌,
}
use mathlib.Core.List.{Memᴰ}

-- The key types of the tables: `u64`, and `(u64, &str)`.
pub data KeyType : Type 0 where
  by_inode by_name : KeyType

abbrev pub Key : KeyType → Type 0
Key by_inode = ℕ
Key by_name = ℕ × String

-- Whether a name's key lies in `(low, "")..(high, "")`: the empty name is the least.
abbrev pub in_range : ℕ → ℕ → ℕ × String → Bool
in_range low high k = leb low k.0 && ltb k.0 high

pub record Redb : Type 1 where
  pub Table : KeyType → Type 0 → Type 0
  pub empty : {κ : KeyType} {V : Type 0} → Table κ V
  pub get : {κ : KeyType} {V : Type 0} → Table κ V → Key κ → Option V
  pub insert : {κ : KeyType} {V : Type 0} → Table κ V → Key κ → V → Table κ V
  pub remove : {κ : KeyType} {V : Type 0} → Table κ V → Key κ → Table κ V
  -- `iter()`
  pub iter : {V : Type 0} → Table by_inode V → List (ℕ × V)
  -- `range((low, "")..(high, ""))`
  pub range : {V : Type 0} → Table by_name V → ℕ → ℕ → List ((ℕ × String) × V)
  -- `retain_in((low, "")..(high, ""), |_, _| false)`
  pub remove_range : {V : Type 0} → Table by_name V → ℕ → ℕ → Table by_name V
  pub get-empty : (κ : KeyType) (V : Type 0) (k : Key κ) → get (empty {κ = κ} {V = V}) k ≡ none
  pub get-insert_self :
      {κ : KeyType} {V : Type 0} (t : Table κ V) (k : Key κ) (v : V) → get (insert t k v) k ≡ some v
  pub get-insert_ne :
      {κ : KeyType} {V : Type 0} (t : Table κ V) (k j : Key κ) (v : V)
      → k ≢ j
      → get (insert t k v) j ≡ get t j
  pub get-remove_self :
      {κ : KeyType} {V : Type 0} (t : Table κ V) (k : Key κ) → get (remove t k) k ≡ none
  pub get-remove_ne :
      {κ : KeyType} {V : Type 0} (t : Table κ V) (k j : Key κ)
      → k ≢ j
      → get (remove t k) j ≡ get t j
  pub mem-iter :
      {V : Type 0} (t : Table by_inode V) (k : ℕ) (v : V)
      → Memᴰ (k, v) (iter t) ↔ (get t k ≡ some v)
  pub mem-range :
      {V : Type 0} (t : Table by_name V) (low high : ℕ) (k : ℕ × String) (v : V)
      → Memᴰ (k, v) (range t low high) ↔ ((get t k ≡ some v) × (in_range low high k ≡ true))
  pub get-remove_range :
      {V : Type 0} (t : Table by_name V) (low high : ℕ) (k : ℕ × String)
      → get (remove_range t low high) k ≡ (if in_range low high k then none else get t k)
