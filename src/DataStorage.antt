-- ===== src/DataStorage.antt =====
-- Where the bytes of a file are, of src/storage/local/data_storage.rs: blocks of 512 bytes, dealt out to
-- the nodes of a group in turn (RAID 0). A node is known by its rank among `total_nodes` nodes.
-- Numbers are `u64`. There is at least one node, this one, so no division is by 0.
pub mod Blocks
pub mod Index
pub mod Stripe
pub mod Scatter
pub mod Gather
pub mod Files
pub mod RoundTrip
pub mod Cluster
mod Tests
use fleetfs.Prelude.{ℕ, ◌+◌, ◌*◌, ◌/◌, ◌%◌, ◌^◌, Bool, ltb, ◌==◌, if◌then◌else◌}

abbrev pub block_size : ℕ
block_size = 512

-- The local index of a byte, or of the next byte that this node stores.
unfoldable pub to_local_index_ceiling : (global_index local_rank total_nodes : ℕ) → ℕ
to_local_index_ceiling global_index local_rank total_nodes =
    let global_block = global_index / block_size in
    let remainder_bytes = global_index % block_size in
    let remainder_blocks = global_block % total_nodes in
    let blocks = global_block / total_nodes * block_size in
    if ltb local_rank remainder_blocks
    then (blocks + block_size) % 2 ^ 64
    else if local_rank == remainder_blocks
    then blocks + remainder_bytes
    else blocks

unfoldable pub stores_index : (global_index local_rank total_nodes : ℕ) → Bool
stores_index global_index local_rank total_nodes =
    local_rank == global_index / block_size % total_nodes

-- Sums and products wrap around, which is the same as the whole wrapping around once.
unfoldable pub to_global_index : (local_index local_rank total_nodes : ℕ) → ℕ
to_global_index local_index local_rank total_nodes =
    (local_index / block_size * block_size * total_nodes
      + local_rank * block_size
      + local_index % block_size)
    % 2 ^ 64
