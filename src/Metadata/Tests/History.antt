-- ===== src/Metadata/Tests/History.antt =====
-- A history of operations, and a transaction that fails.
use fleetfs.Prelude.{◌+◌, ◌%◌, ◌<◌, ◌≤◌, ◌≡◌, refl, arith}
use fleetfs.Base.Types.{file}
use fleetfs.Base.Access.{check_access, clear}
use fleetfs.Redb.Model.{model, program}
use fleetfs.Metadata.{root_inode, write_txn, read_txn, durability_tick}
use fleetfs.Metadata.Read.{lookup}
use fleetfs.Metadata.Links.{create_link, link_txn}
use fleetfs.Metadata.Inodes.{new, first_inode, create_inode}
use fleetfs.Metadata.Invariant.{IsWellFormed}
use fleetfs.Metadata.Start.{first_inode_lem}
use fleetfs.Metadata.Reachable.{Reachable, Step, Reachable-IsWellFormed, Reachable-disjoint}
use fleetfs.Metadata.Tests.{clock, user, group, other_group, with_link}

first_inode_test : first_inode 3 3 1 2 ≡ 4
unfolding first_inode
first_inode_test = refl

first_inode_lem_example :
    (2 ≤ first_inode 3 3 1 2) × (first_inode 3 3 1 2 < 2 + 3) × (first_inode 3 3 1 2 % 3 ≡ 1)
first_inode_lem_example = first_inode_lem 3 1 2 (omega arith)

-- A history of three operations.
history : Reachable model group with_link
unfolding new first_inode
history =
    Reachable.next clock
      (Reachable.next clock (Reachable.start clock)
        (Step.step_create_inode root_inode 7 7 0o644 file (omega arith)))
      (Step.step_create_link 4 root_inode "a" user file)

Reachable-IsWellFormed_example : IsWellFormed group with_link
Reachable-IsWellFormed_example = Reachable-IsWellFormed model group with_link (omega arith) history

Reachable-disjoint_example : root_inode ≡ root_inode
unfolding program new first_inode create_inode create_link lookup link_txn write_txn read_txn
    check_access clear durability_tick
Reachable-disjoint_example =
    Reachable-disjoint model group other_group with_link (new model 2 3 clock) refl (omega arith)
      (omega arith) (λ e. omega (arith, e)) history (Reachable.start clock) root_inode _ _ refl refl
