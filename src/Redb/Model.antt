-- ===== src/Redb/Model.antt =====
-- A database that behaves as documented: association lists, the newest entry of a key first.
use mathlib.Core.List.{Memᴰ}
use fleetfs.Prelude.{
  ◌≡◌, ◌≢◌, ◌↔◌, refl, sym, ap, ◌∙◌, Bool, true, false, not, Option, none, some, List, [], ◌∷◌,
  arith, inl, inr, ◌==◌, ==_iff, str_eq, eq_iff, ◌&&◌, Bool-cases, if◌then◌else◌,
}
use fleetfs.Redb.{Redb, KeyType, by_inode, by_name, Key, in_range}

-- Equality of keys.
abbrev pub same : (κ : KeyType) → Key κ → Key κ → Bool
same by_inode a b = a == b
same by_name (a, x) (b, y) = a == b && str_eq x y

pub same_iff : (κ : KeyType) (a b : Key κ) → (same κ a b ≡ true) ↔ (a ≡ b)
same_iff by_inode a b = ==_iff a b
same_iff by_name (a, x) (b, y) = (
  λ e. ground (arith, eq_iff x y),
  λ e. ground (arith, eq_iff x y, ap (λ (k : Key by_name). k.0) e, ap (λ (k : Key by_name). k.1) e),
)

module _ {K V : Type 0} (eq : K → K → Bool) where
  unfoldable pub lookup : List (K × V) → K → Option V
  lookup [] k = none
  lookup ((j, v) ∷ t) k = if eq j k then some v else lookup t k

-- the entries whose key passes a test
unfoldable pub keep : {K V : Type 0} → (K → Bool) → List (K × V) → List (K × V)
keep test [] = []
keep test ((j, v) ∷ t) = let rest = keep test t in if test j then (j, v) ∷ rest else rest

-- the newest entry of each key
unfoldable pub newest : {K V : Type 0} → (K → K → Bool) → List (K × V) → List (K × V)
newest eq [] = []
newest eq ((j, v) ∷ t) = (j, v) ∷ keep (λ k. not (eq j k)) (newest eq t)

module _ {K V : Type 0} where
  keep_mem_cons :
      (test : K → Bool) (t : List (K × V)) (rest : List (K × V)) (j k : K) (w v : V) (b : Bool)
      → test j ≡ b
      → (Memᴰ (k, v) rest → Memᴰ (k, v) t × (test k ≡ true))
      → Memᴰ (k, v) (if b then (j, w) ∷ rest else rest)
      → Memᴰ (k, v) ((j, w) ∷ t) × (test k ≡ true)
  keep_mem_cons test t rest j k w v true e ih (Memᴰ.head p) =
      (Memᴰ.head p, ap test (ap (λ (x : K × V). x.0) p) ∙ e)
  keep_mem_cons test t rest j k w v true e ih (Memᴰ.tail m) =
      let (here, passes) = ih m in (Memᴰ.tail here, passes)
  keep_mem_cons test t rest j k w v false e ih m =
      let (here, passes) = ih m in (Memᴰ.tail here, passes)

  pub keep_mem :
      (test : K → Bool) (t : List (K × V)) (k : K) (v : V)
      → Memᴰ (k, v) (keep test t)
      → Memᴰ (k, v) t × (test k ≡ true)
  unfolding keep
  keep_mem test [] k v m = elim m [ ]
  keep_mem test ((j, w) ∷ t) k v m =
      keep_mem_cons test t (keep test t) j k w v (test j) refl (keep_mem test t k v) m

  pub mem_keep :
      (test : K → Bool) (t : List (K × V)) (k : K) (v : V)
      → Memᴰ (k, v) t
      → test k ≡ true
      → Memᴰ (k, v) (keep test t)
  unfolding keep
  mem_keep test [] k v m h = elim m [ ]
  mem_keep test ((j, w) ∷ t) k v (Memᴰ.head p) h =
      rw (sym (ap test (ap (λ (x : K × V). x.0) p)) ∙ h) (Memᴰ.head p)
  mem_keep test ((j, w) ∷ t) k v (Memᴰ.tail m) h = elim (Bool-cases (test j)) [
    | inl e ↦ rw e (Memᴰ.tail (mem_keep test t k v m h))
    | inr e ↦ rw e (mem_keep test t k v m h)
  ]

module _ {K V : Type 0} (eq : K → K → Bool) (eq_iff' : (a b : K) → (eq a b ≡ true) ↔ (a ≡ b)) where
  pub lookup-keep :
      (test : K → Bool) (t : List (K × V)) (k : K)
      → lookup eq (keep test t) k ≡ (if test k then lookup eq t k else none)
  unfolding lookup keep
  lookup-keep test [] k = ground arith
  lookup-keep test ((j, v) ∷ t) k = elim (Bool-cases (eq j k)) [
    | inl e ↦
        let p : j ≡ k = (eq_iff' j k).0 e in
        let q : test j ≡ test k = ap test p in ground (arith, e, q, lookup-keep test t k)
    | inr n ↦ ground (arith, n, lookup-keep test t k)
  ]

  lookup-newest : (t : List (K × V)) (k : K) → lookup eq (newest eq t) k ≡ lookup eq t k
  unfolding lookup newest
  lookup-newest [] k = refl
  lookup-newest ((j, v) ∷ t) k =
      ground (arith, lookup-keep (λ i. not (eq j i)) (newest eq t) k, lookup-newest t k)

  pub newest_mem :
      (t : List (K × V)) (k : K) (v : V) → Memᴰ (k, v) (newest eq t) → lookup eq t k ≡ some v
  unfolding lookup newest
  newest_mem [] k v m = elim m [ ]
  newest_mem ((j, w) ∷ t) k v (Memᴰ.head p) =
      rw ((eq_iff' j k).1 (sym (ap (λ (x : K × V). x.0) p))) (ap (λ (x : K × V). some x.1) (sym p))
  newest_mem ((j, w) ∷ t) k v (Memᴰ.tail m) =
      let (m', other) = keep_mem (λ i. not (eq j i)) (newest eq t) k v m in
      ground (arith, other, newest_mem t k v m')

  pub mem_newest :
      (t : List (K × V)) (k : K) (v : V) → lookup eq t k ≡ some v → Memᴰ (k, v) (newest eq t)
  unfolding lookup newest
  mem_newest [] k v h = absurd (cc h)
  mem_newest ((j, w) ∷ t) k v h = elim (Bool-cases (eq j k)) [
    | inl e ↦ Memᴰ.head (cc ((eq_iff' j k).0 e, rw e at h))
    | inr n ↦
        Memᴰ.tail
          (mem_keep (λ i. not (eq j i)) (newest eq t) k v (mem_newest t k v (rw n at h)) (rw n))
  ]

abbrev pub Entries : KeyType → Type 0 → Type 0
Entries κ V = List (Key κ × V)

pub eq_refl' : (κ : KeyType) (k : Key κ) → same κ k k ≡ true
eq_refl' κ k = (same_iff κ k k).1 refl

pub eq_ne : (κ : KeyType) (k j : Key κ) → k ≢ j → same κ k j ≡ false
eq_ne κ k j h = elim (Bool-cases (same κ k j)) [
  | inl e ↦ absurd (h ((same_iff κ k j).0 e))
  | inr n ↦ n
]

pub if_not {ℓ} :
    {A : Type ℓ} (b : Bool) (o : Option A) → (if not b then o else none) ≡ (if b then none else o)
if_not true o = refl
if_not false o = refl

unfoldable pub program : Unit {0}
unfolding lookup keep newest
program = tt

-- A write puts the entry in front; a removal keeps the entries of other keys.
abbrev pub model : Redb
unfolding program
model = record {
  Table = Entries;
  empty = [];
  get = λ {κ} {V} t k. lookup (same κ) t k;
  insert = λ {κ} {V} t k v. (k, v) ∷ t;
  remove = λ {κ} {V} t k. keep (λ j. not (same κ k j)) t;
  iter = λ {V} t. newest (same by_inode) t;
  range = λ {V} t low high. keep (in_range low high) (newest (same by_name) t);
  remove_range = λ {V} t low high. keep (λ k. not (in_range low high k)) t;
  get-empty = λ κ V k. refl;
  get-insert_self = λ {κ} {V} t k v. rw (eq_refl' κ k);
  get-insert_ne = λ {κ} {V} t k j v h. rw (eq_ne κ k j h);
  get-remove_self = λ {κ} {V} t k.
      rw (lookup-keep (same κ) (same_iff κ) (λ j. not (same κ k j)) t k) (rw (eq_refl' κ k));
  get-remove_ne = λ {κ} {V} t k j h.
      rw (lookup-keep (same κ) (same_iff κ) (λ i. not (same κ k i)) t j) (rw (eq_ne κ k j h));
  mem-iter = λ {V} t k v. (
    newest_mem (same by_inode) (same_iff by_inode) t k v,
    mem_newest (same by_inode) (same_iff by_inode) t k v,
  );
  mem-range = λ {V} t low high k v. (
    λ m.
        let (m', inside) = keep_mem (in_range low high) (newest (same by_name) t) k v m in
        (newest_mem (same by_name) (same_iff by_name) t k v m', inside),
    λ h.
        mem_keep (in_range low high) (newest (same by_name) t) k v
          (mem_newest (same by_name) (same_iff by_name) t k v h.0) h.1,
  );
  get-remove_range = λ {V} t low high k.
      lookup-keep (same by_name) (same_iff by_name) (λ j. not (in_range low high j)) t k
      ∙ if_not (in_range low high k) (lookup (same by_name) t k);
}
