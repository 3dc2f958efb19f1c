-- ===== src/DataStorage/Cluster.antt =====
-- A write that all nodes of a group have applied is read back through any of them.
use fleetfs.Prelude.{
  ℕ, zero, suc, ◌+◌, ◌-◌, ◌*◌, ◌^◌, ◌<◌, ◌≤◌, ◌≡◌, refl, sym, ap, ◌∙◌, false, List, [], ◌∷◌, ◌++◌,
  ◌==◌, length, arith, subst, ◌/◌, ◌%◌, leb, ltb, ◌&&◌, if◌then◌else◌,
}
use native.Mathlib.Nat.{mod-lt}
use fleetfs.DataStorage.{stores_index}
use fleetfs.Base.Outcome.{Outcome, ok}
use fleetfs.Base.Types.{Bytes}
use fleetfs.DataStorage.Stripe.{stored}
use fleetfs.DataStorage.Gather.{gather_lem}
use fleetfs.DataStorage.Files.{
  DataStorage, total_nodes, write_local_blocks, read_raw, read, all_fetched, insert_block, block_at,
  total_length,
}
use fleetfs.DataStorage.RoundTrip.{read_raw-write_local_blocks}

-- `f first`, ..., `f (first + count - 1)`
abbrev pub from {ℓ} : {A : Type ℓ} → (f : ℕ → A) → (first count : ℕ) → List A
from f first zero = []
from f first (suc count) = f first ∷ from f (first + 1) count

-- The answers of all nodes but the one of rank `r`, in the order of the ranks.
abbrev pub others {ℓ} : {A : Type ℓ} → (f : ℕ → A) → (r n : ℕ) → List A
others f r n = from f 0 r ++ from f (r + 1) (n - 1 - r)

from_split {ℓ} :
    {A : Type ℓ} (f : ℕ → A) (k a b : ℕ)
    → from f k (a + suc b) ≡ from f k a ++ f (k + a) ∷ from f (k + a + 1) b
from_split f k zero b =
    let e : 0 + suc b ≡ suc b = omega arith in
    let z : k ≡ k + 0 = omega arith in ap (from f k) e ∙ ap (λ i. f i ∷ from f (i + 1) b) z
from_split f k (suc a) b =
    let e : suc a + suc b ≡ suc (a + suc b) = omega arith in
    let z : k + 1 + a ≡ k + suc a = omega arith in
    ap (from f k) e
    ∙ ap (λ l. f k ∷ l) (from_split f (k + 1) a b)
    ∙ ap (λ i. f k ∷ (from f (k + 1) a ++ f i ∷ from f (i + 1) b)) z

from_ext {ℓ} :
    {A : Type ℓ} (f g : ℕ → A) (k c n : ℕ)
    → k + c ≤ n
    → ((j : ℕ) → j < n → f j ≡ g j)
    → from f k c ≡ from g k c
from_ext f g k zero n h same = refl
from_ext f g k (suc c) n h same =
    ap (λ x. x ∷ from f (k + 1) c) (same k (omega arith))
    ∙ ap (λ l. g k ∷ l) (from_ext f g (k + 1) c n (omega arith) same)

length-from {ℓ} : {A : Type ℓ} (f : ℕ → A) (k c : ℕ) → length (from f k c) ≡ c
length-from f k zero = refl
length-from f k (suc c) = ap suc (length-from f (k + 1) c)

fetched_ok :
    (f : ℕ → Bytes) (k a m b : ℕ)
    → all_fetched (from (λ j. ok (f j)) k a ++ from (λ j. ok (f j)) m b)
      ≡ ok (from f k a ++ from f m b)
unfolding all_fetched
fetched_ok f k zero m zero = refl
fetched_ok f k zero m (suc b) = rw (fetched_ok f k zero (m + 1) b) refl
fetched_ok f k (suc a) m b = rw (fetched_ok f (k + 1) a m b) refl

inserted :
    (f : ℕ → Bytes) (k a : ℕ) (x : Bytes) (rest : List Bytes)
    → insert_block a x (from f k a ++ rest) ≡ ok (from f k a ++ x ∷ rest)
unfolding insert_block
inserted f k zero x rest = refl
inserted f k (suc a) x rest = rw (inserted f (k + 1) a x rest) refl

block_at-from : (f : ℕ → Bytes) (k c j : ℕ) → j < c → block_at (from f k c) j ≡ f (k + j)
unfolding block_at
block_at-from f k zero j h = absurd (omega arith)
block_at-from f k (suc c) zero h = let z : k ≡ k + 0 = omega arith in ap f z
block_at-from f k (suc c) (suc j) h =
    let e : k + 1 + j ≡ k + suc j = omega arith in
    block_at-from f (k + 1) c j (omega arith) ∙ ap f e

-- Every byte is in the share of one node.
share_step :
    (n g k c x : ℕ) (l : Bytes)
    → total_length (from (λ r. stored r n g (x ∷ l)) k c)
      ≡ total_length (from (λ r. stored r n (g + 1) l) k c)
        + (if leb k (g / 512 % n) && ltb (g / 512 % n) (k + c) then 1 else 0)
unfolding total_length stored stores_index
share_step n g k zero x l = ground arith
share_step n g k (suc c) x l = ground (arith, share_step n g (k + 1) c x l)

all_shares :
    (n g : ℕ) (l : Bytes) → 0 < n → length l ≤ total_length (from (λ r. stored r n g l) 0 n)
all_shares n g [] h = omega arith
all_shares n g (x ∷ l) h =
    ground (arith, share_step n g 0 n x l, all_shares n (g + 1) l h, mod-lt (g / 512) h)

-- `read`, if this node and all others answer with their shares.
read_shares :
    (inode offset size : ℕ) (bytes : Bytes) (n r : ℕ)
    → r < n
    → (d : DataStorage) → d.local_rank ≡ r
    → read_raw inode offset size d ≡ ok (stored r n offset bytes)
    → read inode offset size (others (λ j. ok (stored j n offset bytes)) r n) d ≡ ok bytes
unfolding read
read_shares inode offset size bytes n r h d rank local =
    let share : ℕ → Bytes = λ j. stored j n offset bytes in
    let behind = from share (r + 1) (n - 1 - r) in
    let zero_r : r ≡ 0 + r = omega arith in
    let count : r + suc (n - 1 - r) ≡ n = omega arith in
    let all : from share 0 r ++ share r ∷ behind ≡ from share 0 n =
      ap (λ i. from share 0 r ++ share i ∷ from share (i + 1) (n - 1 - r)) zero_r
      ∙ sym (from_split share 0 r (n - 1 - r))
      ∙ ap (from share 0) count in
    rw
      (
        local,
        fetched_ok share 0 r (r + 1) (n - 1 - r),
        rank,
        inserted share 0 r (share r) behind,
        all,
        length-from share 0 n,
      )
      (ap (λ x. ok x)
        (gather_lem n (omega arith) (block_at (from share 0 n)) (total_length (from share 0 n))
          offset bytes (all_shares n offset bytes (omega arith))
          λ j lt.
            let zero_j : 0 + j ≡ j = omega arith in block_at-from share 0 n j lt ∙ ap share zero_j))

module _ (inode offset : ℕ) (bytes : Bytes) (nodes : ℕ → DataStorage) where
  -- A node of the group after the write, and what it answers to a read of the range.
  abbrev pub written : ℕ → DataStorage
  written j = (write_local_blocks inode offset bytes (nodes j)).1

  abbrev pub answer : ℕ → Outcome Bytes
  answer j = read_raw inode offset (length bytes) (written j)

module _ (inode offset : ℕ) (bytes : Bytes) (n : ℕ) (nodes : ℕ → DataStorage)
    (ranks : (j : ℕ) → j < n → (nodes j).local_rank ≡ j)
    (sizes : (j : ℕ) → j < n → total_nodes (nodes j) ≡ n) (file : (inode == 1) ≡ false)
    (room : offset + length bytes + n * 512 < 2 ^ 64) where
  answered : (j : ℕ) → j < n → answer inode offset bytes nodes j ≡ ok (stored j n offset bytes)
  answered j h =
      let n' = total_nodes (nodes j) in
      read_raw-write_local_blocks inode offset bytes (nodes j) file
        (subst (λ m. offset + length bytes + m * 512 < 2 ^ 64) (sym (sizes j h)) room)
        (omega (arith, ranks j h, sizes j h))
      ∙ ap (λ r. ok (stored r n' offset bytes)) (ranks j h)
      ∙ ap (λ m. ok (stored j m offset bytes)) (sizes j h)

  rank_kept : (j : ℕ) → j < n → (written inode offset bytes nodes j).local_rank ≡ j
  unfolding write_local_blocks
  rank_kept j h = ranks j h

  -- A write of bytes to a file, not the root, that all nodes of a group have applied, is read back
  -- through any of them: `read` returns the bytes, given what the other nodes answer. The nodes have the
  -- ranks from 0 on, and the end of the write is so far below 2^64 that a row of blocks fits behind it.
  pub read-write_local_blocks :
      (r : ℕ)
      → r < n
      → read inode offset
          (length bytes)
          (others (answer inode offset bytes nodes) r n)
          (written inode offset bytes nodes r)
        ≡ ok bytes
  read-write_local_blocks r h =
      let share : ℕ → Bytes = λ j. stored j n offset bytes in
      let known : others (answer inode offset bytes nodes) r n ≡ others (λ j. ok (share j)) r n =
        ap (λ l. l ++ from (answer inode offset bytes nodes) (r + 1) (n - 1 - r))
          (from_ext (answer inode offset bytes nodes) (λ j. ok (share j)) 0 r n (omega arith)
            answered)
        ∙ ap (λ l. from (λ j. ok (share j)) 0 r ++ l)
            (from_ext (answer inode offset bytes nodes) (λ j. ok (share j)) (r + 1) (n - 1 - r) n
              (omega arith) answered) in
      ap (λ l. read inode offset (length bytes) l (written inode offset bytes nodes r)) known
      ∙ read_shares inode offset (length bytes) bytes n r h (written inode offset bytes nodes r)
          (rank_kept r h) (answered r h)
