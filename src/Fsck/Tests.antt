-- ===== src/Fsck/Tests.antt =====
-- Two nodes that agree on the checksum of a group, and two that do not.
use fleetfs.Prelude.{ℕ, List, [], ◌∷◌, ◌≡◌, refl}
use fleetfs.Prelude.HashMap
use fleetfs.Base.Outcome.{Outcome, ok, err, corrupted}
use fleetfs.Base.Types.{Bytes}
use fleetfs.Fsck.{
  Checksums, LocalGroup, same_bytes, local_checksums, compare_peer, compare_peers, fsck,
}
use fleetfs.Fsck.Agreement.{Extends, AllAgree, fsck-AllAgree}

abbrev local_group : LocalGroup
local_group = (3, ok tt, ok (1 ∷ 2 ∷ []))

abbrev peer : Bytes → Outcome (List (ℕ × Bytes))
peer checksum = ok ((3, checksum) ∷ (5, 7 ∷ []) ∷ [])

fsck_test : fsck (local_group ∷ []) (peer (1 ∷ 9 ∷ []) ∷ []) ≡ err corrupted
unfolding fsck local_checksums compare_peers compare_peer same_bytes
fsck_test = refl

fsck-AllAgree_example :
    (local : Checksums) × (all : Checksums) × (local_checksums (local_group ∷ []) HashMap.empty
      ≡ ok local)
    × Extends all local
    × AllAgree all (peer (1 ∷ 2 ∷ []) ∷ [])
unfolding fsck local_checksums compare_peers compare_peer same_bytes
fsck-AllAgree_example = fsck-AllAgree (local_group ∷ []) (peer (1 ∷ 2 ∷ []) ∷ []) refl
