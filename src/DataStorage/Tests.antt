-- ===== src/DataStorage/Tests.antt =====
-- The index functions at the values of the unit tests of src/storage/local/data_storage.rs.
use fleetfs.Prelude.{ℕ, ◌*◌, ◌-◌, ◌≡◌, refl, true, arith, [], ◌∷◌}
use fleetfs.Prelude.HashMap
use fleetfs.Base.Outcome.{ok}
use fleetfs.Base.Types.{Bytes}
use fleetfs.DataStorage.Files.{DataStorage, read}
use fleetfs.DataStorage.Cluster.{read-write_local_blocks, others, answer, written}
use fleetfs.DataStorage.{block_size, to_local_index_ceiling, stores_index, to_global_index}
use fleetfs.DataStorage.Index.{
  stored_below, to_local_index_ceiling-stored_below, to_global_index-to_local_index_ceiling,
  to_local_index_ceiling-to_global_index,
}

ceiling_test : to_local_index_ceiling (block_size * 2 - 1) 1 2 ≡ block_size - 1
unfolding to_local_index_ceiling
ceiling_test = refl

to_local_index_ceiling-stored_below_example :
    to_local_index_ceiling 1300 1 2 ≡ stored_below 1300 1 2
to_local_index_ceiling-stored_below_example =
    to_local_index_ceiling-stored_below 1300 1 2 (omega arith) (omega arith)

to_global_index-to_local_index_ceiling_example :
    to_global_index (to_local_index_ceiling 600 1 2) 1 2 ≡ 600
unfolding stores_index
to_global_index-to_local_index_ceiling_example =
    to_global_index-to_local_index_ceiling 600 1 2 (omega arith) (omega arith) refl

to_local_index_ceiling-to_global_index_example :
    (stores_index (to_global_index 600 1 2) 1 2 ≡ true)
    × (to_local_index_ceiling (to_global_index 600 1 2) 1 2 ≡ 600)
to_local_index_ceiling-to_global_index_example =
    to_local_index_ceiling-to_global_index 600 1 2 (omega arith) (omega arith)

-- Five bytes across the border of two blocks, on two nodes.
abbrev five : Bytes
five = 1 ∷ 2 ∷ 3 ∷ 4 ∷ 5 ∷ []

abbrev nodes : ℕ → DataStorage
nodes j = record {
  node_ids = 10 ∷ 20 ∷ [];
  local_rank = j;
  local_node_id = 10;
  files = HashMap.empty;
}

read-write_local_blocks_example :
    read 4 510 5 (others (answer 4 510 five nodes) 1 2) (written 4 510 five nodes 1) ≡ ok five
read-write_local_blocks_example =
    read-write_local_blocks 4 510 five 2 nodes (λ j h. refl) (λ j h. refl) refl (omega arith) 1
      (omega arith)
