-- ===== src/Fsck.antt =====
-- src/storage/message_handlers/fsck_handler.rs: the checksums of the groups of all nodes are compared.
-- What the groups of this node and the peers answer are arguments: a local group is asked for a read
-- barrier and then for the checksum of its files. A map of checksums that a peer sends is a list.
pub mod Agreement
mod Tests
use fleetfs.Prelude.{ℕ, Bool, true, false, ◌==◌, ◌&&◌, Option, none, some, List, [], ◌∷◌}
use fleetfs.Prelude.HashMap
use fleetfs.Prelude.HashMap.{HashMap}
use fleetfs.Base.Outcome.{Outcome, ok, err, guard, corrupted, ◌>>=◌, ◌>>◌}
use fleetfs.Base.Types.{Bytes}
use fleetfs.Base.Response.{Response}

abbrev pub Checksums : Type 0
Checksums = HashMap Bytes

unfoldable pub same_bytes : Bytes → Bytes → Bool
same_bytes [] [] = true
same_bytes [] (y ∷ ys) = false
same_bytes (x ∷ xs) [] = false
same_bytes (x ∷ xs) (y ∷ ys) = (x == y) && same_bytes xs ys

-- The group, the answer to the barrier, the checksum.
abbrev pub LocalGroup : Type 0
LocalGroup = ℕ × Outcome (Unit {0}) × Outcome Bytes

-- The loop over `raft.all_groups()`.
unfoldable pub local_checksums : List LocalGroup → Checksums → Outcome Checksums
local_checksums [] checksums = ok checksums
local_checksums ((group, barrier, answer) ∷ groups) checksums = do
  _ ← barrier
  checksum ← answer
  local_checksums groups (HashMap.insert checksums group checksum)

-- `*all_checksums.entry(rgroup_id).or_insert_with(|| checksum.clone())`: the entry, and the map.
abbrev pub or_insert : Option Bytes → Checksums → ℕ → Bytes → Bytes × Checksums
or_insert none checksums group checksum = (checksum, HashMap.insert checksums group checksum)
or_insert (some entry) checksums group checksum = (entry, checksums)

-- The loop over the checksums of one peer.
unfoldable pub compare_peer : List (ℕ × Bytes) → Checksums → Outcome Checksums
compare_peer [] all = ok all
compare_peer ((group, checksum) ∷ rest) all = do
  let (entry, all') = or_insert (all group) all group checksum
  guard (same_bytes entry checksum) corrupted
  compare_peer rest all'

unfoldable pub compare_peers : List (Outcome (List (ℕ × Bytes))) → Checksums → Outcome Checksums
compare_peers [] all = ok all
compare_peers (answer ∷ answers) all = do
  checksums ← answer
  all' ← compare_peer checksums all
  compare_peers answers all'

unfoldable pub fsck : List LocalGroup → List (Outcome (List (ℕ × Bytes))) → Outcome Response
fsck groups peers = do
  local ← local_checksums groups HashMap.empty
  _ ← compare_peers peers local
  ok Response.empty

-- The answer to `FilesystemChecksum`: the map, from which the response is made.
unfoldable pub checksum_request : List LocalGroup → Outcome Checksums
checksum_request groups = local_checksums groups HashMap.empty
