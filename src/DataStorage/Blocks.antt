-- ===== src/DataStorage/Blocks.antt =====
-- How src/storage/local/data_storage.rs takes a node's blocks out of the bytes of a write, and puts the
-- bytes of a read together again. The lengths of slices are below 2 ^ 63, so sums of them do not wrap.
use fleetfs.Prelude.{
  ℕ, zero, suc, ◌+◌, ◌-◌, ◌*◌, ◌/◌, ◌%◌, ◌^◌, min, [], ◌++◌, ltb, ◌==◌, if◌then◌else◌, length, take,
  drop,
}
use fleetfs.Base.Types.{Bytes}
use fleetfs.DataStorage.{block_size, to_local_index_ceiling, stores_index, to_global_index}

-- `bytes[from..to]`
abbrev pub slice : Bytes → (from to : ℕ) → Bytes
slice bytes from to = take (to - from) (drop from bytes)

-- The loop of `write_local_blocks`: every `total_nodes`-th block from `start` on.
unfoldable pub every_block : (fuel total_nodes start : ℕ) → Bytes → Bytes
every_block zero n start bytes = []
every_block (suc fuel) n start bytes =
    let rest = every_block fuel n (start + n * block_size) bytes in
    if ltb start (length bytes)
    then slice bytes start (min (start + block_size) (length bytes)) ++ rest
    else []

-- `local_data`: of each round of the loop the start grows, so the length is enough fuel.
unfoldable pub local_data : (global_offset local_rank total_nodes : ℕ) → Bytes → Bytes
local_data offset rank n bytes =
    let local_index = to_local_index_ceiling offset rank n in
    let partial_first_block = block_size - offset % block_size in
    if stores_index offset rank n
    then slice bytes 0 (min partial_first_block (length bytes))
      ++ every_block (length bytes) n (partial_first_block + (n - 1) * block_size) bytes
    else every_block (length bytes) n
        ((to_global_index local_index rank n + 2 ^ 64 - offset) % 2 ^ 64) bytes

-- What `read` knows of the bytes of each node: how many were taken.
abbrev pub Indices : Type 0
Indices = ℕ → ℕ

abbrev pub advance : Indices → ℕ → ℕ → Indices
advance indices i k = λ j. if j == i then indices j + k else indices j

-- The loop of `read`, until the node whose turn it is has no bytes left. Every round takes a byte.
unfoldable pub gather_loop :
    (fuel total_nodes : ℕ) (data_blocks : ℕ → Bytes) → Indices → (next_block : ℕ) → Bytes
gather_loop zero n blocks indices next = []
gather_loop (suc fuel) n blocks indices next =
    let index = indices next in
    let block_read = min block_size (length (blocks next) - index) in
    let rest = gather_loop fuel n blocks (advance indices next block_read) ((next + 1) % n) in
    if ltb index (length (blocks next))
    then slice (blocks next) index (index + block_read) ++ rest
    else []

-- `result`: the bytes of all nodes, in the order of their ranks, put together.
unfoldable pub gather : (fuel total_nodes : ℕ) (data_blocks : ℕ → Bytes) (global_offset : ℕ) → Bytes
gather fuel n blocks offset =
    let partial_first_block = block_size - offset % block_size in
    let first = offset / block_size % n in
    let first_block_read = min partial_first_block (length (blocks first)) in
    slice (blocks first) 0 first_block_read
    ++ gather_loop fuel n blocks (advance (λ j. 0) first first_block_read) ((first + 1) % n)
