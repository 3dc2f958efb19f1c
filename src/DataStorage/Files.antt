-- ===== src/DataStorage/Files.antt =====
-- `DataStorage` of src/storage/local/data_storage.rs: the operations on the local files, one for each
-- inode. What `std::fs` does to an open file is written out, a call on it is taken to succeed; a file
-- that is not there is the error that `into_error_code` of error_helper.rs makes of it. The peers' bytes
-- are an argument of `read`.
use fleetfs.Prelude.{
  ℕ, zero, suc, ◌+◌, ◌-◌, ◌%◌, ◌^◌, min, Bool, true, false, not, Option, none, some, is_some, List,
  [], ◌∷◌, ◌++◌, ltb, leb, ◌==◌, if◌then◌else◌, length, take, drop,
}
use fleetfs.Prelude.HashMap
use fleetfs.Prelude.HashMap.{HashMap}
use fleetfs.Base.Outcome.{Outcome, ok, err, panic, assert, ok_or, does_not_exist, ◌>>=◌, ◌>>◌}
use fleetfs.Base.Types.{Bytes}
use fleetfs.DataStorage.{to_local_index_ceiling}
use fleetfs.DataStorage.Blocks.{local_data, gather, slice}

pub record DataStorage : Type 0 where
  pub node_ids : List ℕ
  pub local_rank : ℕ
  pub local_node_id : ℕ
  pub files : HashMap Bytes

-- `sort_unstable`
unfoldable pub insert_sorted : ℕ → List ℕ → List ℕ
insert_sorted x [] = x ∷ []
insert_sorted x (y ∷ l) = let rest = insert_sorted x l in if leb x y then x ∷ y ∷ l else y ∷ rest

unfoldable pub sort : List ℕ → List ℕ
sort [] = []
sort (x ∷ l) = insert_sorted x (sort l)

-- `dedup_by(|a, b| a == b)`: of equal neighbours one stays.
unfoldable pub dedup : List ℕ → List ℕ
dedup [] = []
dedup (x ∷ []) = x ∷ []
dedup (x ∷ y ∷ l) = let rest = dedup (y ∷ l) in if x == y then rest else x ∷ rest

-- `iter().position(|x| *x == id)`
unfoldable pub position : ℕ → List ℕ → Option ℕ
position id [] = none
position id (x ∷ l) =
    let later = position id l in
    if x == id then some 0 else elim later [ none ↦ none | some k ↦ some (suc k) ]

abbrev pub sorted_ids : ℕ → List ℕ → List ℕ
sorted_ids local peers = dedup (sort (peers ++ local ∷ []))

-- The files of an empty directory.
unfoldable pub new : ℕ → List ℕ → Outcome DataStorage
new local_node_id peers = elim (position local_node_id (sorted_ids local_node_id peers)) [
  | none ↦ panic
  | some rank ↦ ok (record {
    node_ids = sorted_ids local_node_id peers;
    local_rank = rank;
    local_node_id = local_node_id;
    files = HashMap.empty;
  })
]

abbrev pub total_nodes : DataStorage → ℕ
total_nodes d = length d.node_ids

abbrev pub zeros : ℕ → Bytes
zeros zero = []
zeros (suc k) = 0 ∷ zeros k

-- `set_len` cuts a file or fills it up with zeros; so does a write behind its end.
unfoldable pub pad : ℕ → Bytes → Bytes
pad k bytes = bytes ++ zeros (k - length bytes)

unfoldable pub set_len : ℕ → Bytes → Bytes
unfolding pad
set_len k bytes = take k (pad k bytes)

unfoldable pub write_at : (position : ℕ) → (written old : Bytes) → Bytes
unfolding pad
write_at k written old = take k (pad k old) ++ (written ++ drop (k + length written) old)

-- A file that is opened with `create(true)`.
abbrev pub contents : Option Bytes → Bytes
contents none = []
contents (some bytes) = bytes

abbrev pub put_file : DataStorage → ℕ → Bytes → DataStorage
put_file d inode bytes = record d { files = HashMap.insert d.files inode bytes }

-- The file after a write that has no bytes for this node: long enough for the bytes before it.
unfoldable pub written_file : (local_index : ℕ) → (local old : Bytes) → Bytes
unfolding set_len write_at
written_file local_index [] old =
    if ltb (length old) local_index then set_len local_index old else old
written_file local_index (x ∷ local) old = write_at local_index (x ∷ local) old

-- The number of bytes written, a `u32`, and the storage.
unfoldable pub write_local_blocks : ℕ → ℕ → Bytes → DataStorage → ℕ × DataStorage
unfolding written_file
write_local_blocks inode offset bytes d =
    let local_index = to_local_index_ceiling offset d.local_rank (total_nodes d) in
    let local = local_data offset d.local_rank (total_nodes d) bytes in
    (
      length local % 2 ^ 32,
      put_file d inode (written_file local_index local (contents (d.files inode))),
    )

unfoldable pub file_inode_exists : ℕ → DataStorage → Bool
file_inode_exists inode d = is_some (d.files inode)

unfoldable pub read_raw : (inode offset size : ℕ) → DataStorage → Outcome Bytes
read_raw inode offset size d = do
  assert (not (inode == 1))
  let local_start = to_local_index_ceiling offset d.local_rank (total_nodes d)
  let local_end = to_local_index_ceiling ((offset + size) % 2 ^ 64) d.local_rank (total_nodes d)
  assert (leb local_start local_end)
  file ← ok_or (d.files inode) does_not_exist
  let local_size = length file
  let count = min local_end local_size - local_start
  ok (slice file local_start (local_start + count))

-- `tmp_blocks.push(x?)`
unfoldable pub all_fetched : List (Outcome Bytes) → Outcome (List Bytes)
all_fetched [] = ok []
all_fetched (x ∷ rest) = do block ← x; blocks ← all_fetched rest; ok (block ∷ blocks)

-- `data_blocks.insert(local_rank, local_data)`, which panics behind the end.
unfoldable pub insert_block : ℕ → Bytes → List Bytes → Outcome (List Bytes)
insert_block zero block blocks = ok (block ∷ blocks)
insert_block (suc k) block [] = panic
insert_block (suc k) block (x ∷ blocks) = do rest ← insert_block k block blocks; ok (x ∷ rest)

-- `data_blocks[i]`
unfoldable pub block_at : List Bytes → ℕ → Bytes
block_at [] i = []
block_at (x ∷ blocks) zero = x
block_at (x ∷ blocks) (suc i) = block_at blocks i

unfoldable pub total_length : List Bytes → ℕ
total_length [] = 0
total_length (x ∷ blocks) = length x + total_length blocks

-- `read`: the answers of the peers, in the order of their ranks. A round of its loop takes a byte, so
-- there are not more rounds than bytes.
unfoldable pub read : (inode offset size : ℕ) → List (Outcome Bytes) → DataStorage → Outcome Bytes
read inode offset size fetched d = do
  local ← read_raw inode offset size d
  remote ← all_fetched fetched
  blocks ← insert_block d.local_rank local remote
  ok (gather (total_length blocks) (length blocks) (block_at blocks) offset)

unfoldable pub truncate : (inode length : ℕ) → DataStorage → DataStorage
unfolding set_len
truncate inode global_length d =
    let local_bytes = to_local_index_ceiling global_length d.local_rank (total_nodes d) in
    put_file d inode (set_len local_bytes (contents (d.files inode)))

unfoldable pub fsync : ℕ → DataStorage → Outcome (Unit {0})
fsync inode d = do assert (not (inode == 1)); file ← ok_or (d.files inode) does_not_exist; ok tt

unfoldable pub delete : ℕ → DataStorage → Outcome (Unit {0}) × DataStorage
delete inode d = elim (inode == 1) [
  | true ↦ (panic, d)
  | false ↦ elim (d.files inode) [
    | none ↦ (err does_not_exist, d)
    | some file ↦ (ok tt, record d { files = HashMap.remove d.files inode })
  ]
]
