-- ===== src/Consensus/Tests.antt =====
-- The lock table and the replicas on a small wire format: the theorems at work, and tests.
use fleetfs.Prelude.{
  ℕ, zero, suc, ◌≡◌, refl, ◌⊎◌, Option, none, some, List, [], ◌∷◌, ◌++◌, map, All, ◌≤◌, ◌<◌, arith,
}
use fleetfs.Prelude.HashMap
use fleetfs.Base.Outcome.{Outcome, ok}
use fleetfs.Base.Types.{Bytes}
use fleetfs.Base.Request.{Request, meta_info, no_access}
use fleetfs.Base.Response.{Response}
use fleetfs.LockTable.{
  LockTable, PendingRequest, exclusive_metadata_write_concurrent_reads_allowed, new, scan, grant,
  release, unlock, lock, wait_for_lock, is_locked,
}
use fleetfs.LockTable.Unlock.{Unlocked, unlock_lem, unlock_total}
use fleetfs.LockTable.Invariant.{IsWellFormed, new-IsWellFormed}
use fleetfs.Consensus.{Processed, ConsensusNode, process_lock_table, admit, apply_delivery, wake}
use fleetfs.Consensus.Process.{
  IsQueued, process_lock_table-IsWellFormed, process_lock_table_exclusive,
}
use fleetfs.Consensus.Sync.{StartsAfter, wake_lem, wake_ordered}
use fleetfs.Consensus.Replicas.{then_ok}
use fleetfs.Consensus.Agreement.{common_end, apply_delivery_agrees}

-- A wire format: a kind, an inode, a lock id.
abbrev decode_request : Bytes → Option Request
decode_request (zero ∷ i ∷ []) = some (Request.lock i)
decode_request (suc zero ∷ i ∷ id ∷ []) = some (Request.unlock i id)
decode_request (suc (suc zero) ∷ i ∷ []) = some (Request.update_metadata_changed_time i none)
decode_request (suc (suc (suc zero)) ∷ i ∷ id ∷ []) =
    some (Request.update_metadata_changed_time i (some id))
decode_request _ = none

-- Somebody has locked inode 5, and three requests wait for it, the second of them for the lock.
abbrev queue : List PendingRequest
queue = (2 ∷ 5 ∷ [], some 10) ∷ (0 ∷ 5 ∷ [], none) ∷ (2 ∷ 5 ∷ [], some 12) ∷ []

abbrev locked : LockTable
locked = record {
  pending_requests = HashMap.insert HashMap.empty 5 queue;
  lock_ids = HashMap.insert HashMap.empty 5 (0, exclusive_metadata_write_concurrent_reads_allowed);
  next_id = 1;
}

-- The first two requests are handed out, and the second has the lock.
abbrev unlocked : LockTable × List PendingRequest × Option ℕ
unlocked = (
  record {
    pending_requests = HashMap.insert locked.pending_requests 5 ((2 ∷ 5 ∷ [], some 12) ∷ []);
    lock_ids =
        HashMap.insert (HashMap.remove locked.lock_ids 5) 5
          (1, exclusive_metadata_write_concurrent_reads_allowed);
    next_id = 2;
  },
  (2 ∷ 5 ∷ [], some 10) ∷ (0 ∷ 5 ∷ [], none) ∷ [],
  some 1,
)

unlock_test : unlock decode_request locked 5 0 ≡ ok unlocked
unfolding unlock release scan grant lock
unlock_test = refl

unlock_lem_example : Unlocked decode_request locked 5 0 unlocked
unlock_lem_example = unlock_lem decode_request locked 5 0 unlocked unlock_test

unlock_total_example :
    (r : LockTable × List PendingRequest × Option ℕ) × (unlock decode_request locked 5 0 ≡ ok r)
unlock_total_example =
    unlock_total decode_request locked 5 0 exclusive_metadata_write_concurrent_reads_allowed refl
      (refl, (refl, (refl, tt)))

-- A lock request on an empty table.
abbrev taken : Processed
taken = (
  record {
    pending_requests = HashMap.empty;
    lock_ids =
        HashMap.insert HashMap.empty 5 (0, exclusive_metadata_write_concurrent_reads_allowed);
    next_id = 1;
  },
  [],
  [],
)

process_lock_table-IsWellFormed_example : IsWellFormed taken.0
unfolding process_lock_table admit lock is_locked meta_info
process_lock_table-IsWellFormed_example =
    process_lock_table-IsWellFormed decode_request new new-IsWellFormed (omega arith) (0 ∷ 5 ∷ [])
      none taken refl

-- A write to the locked inode joins the queue.
abbrev queued : Processed
queued = (
  record {
    pending_requests = HashMap.insert locked.pending_requests 5 (queue ++ (2 ∷ 5 ∷ [], none) ∷ []);
    lock_ids = locked.lock_ids;
    next_id = 1;
  },
  [],
  [],
)

process_lock_table_exclusive_example :
    IsQueued locked 5 (2 ∷ 5 ∷ [], none) queued
    ⊎ ((meta_info (Request.update_metadata_changed_time 5 none)).lock_id ≡ some 0)
    ⊎ ((meta_info (Request.update_metadata_changed_time 5 none)).access_type ≡ no_access)
unfolding process_lock_table admit wait_for_lock is_locked meta_info
process_lock_table_exclusive_example =
    process_lock_table_exclusive decode_request locked (2 ∷ 5 ∷ []) none queued
      (Request.update_metadata_changed_time 5 none) 5 0
      exclusive_metadata_write_concurrent_reads_allowed refl refl refl refl

wake_lem_example :
    (front : List (ℕ × ℕ)) × (((3, 30) ∷ (9, 90) ∷ [])
      ≡ front ++ (wake 5 ((3, 30) ∷ (9, 90) ∷ [])).1)
    × ((wake 5 ((3, 30) ∷ (9, 90) ∷ [])).0 ≡ map (λ (p : ℕ × ℕ). p.1) front)
    × All (λ (p : ℕ × ℕ). p.0 ≤ 5) front
    × StartsAfter 5 (wake 5 ((3, 30) ∷ (9, 90) ∷ [])).1
wake_lem_example = wake_lem 5 ((3, 30) ∷ (9, 90) ∷ [])

wake_ordered_example : All (λ (p : ℕ × ℕ). 5 < p.0) (wake 5 ((3, 30) ∷ (9, 90) ∷ [])).1
wake_ordered_example = wake_ordered 5 ((3, 30) ∷ (9, 90) ∷ []) ((omega arith, tt), (tt, tt))

-- A store that counts the requests applied, and refuses those of inode 6.
abbrev commit_write : Request → ℕ → Outcome Response × ℕ
commit_write request s = (ok Response.empty, suc s)

-- The replica that proposed command 100, and another one, on which somebody waits.
abbrev proposer : ConsensusNode ℕ
proposer = record {
  pending_responses = HashMap.insert HashMap.empty 100 7;
  sync_requests = [];
  applied_index = 1;
  lock_table = new;
  file_storage = 0;
}

abbrev follower : ConsensusNode ℕ
follower = record {
  pending_responses = HashMap.empty;
  sync_requests = (2, 8) ∷ [];
  applied_index = 1;
  lock_table = new;
  file_storage = 0;
}

abbrev commands : List (ℕ × Bytes)
commands = (100, 2 ∷ 5 ∷ []) ∷ (101, 0 ∷ 5 ∷ []) ∷ []

apply_delivery_agrees_example :
    then_ok common_end (apply_delivery decode_request commit_write proposer 2 commands)
    ≡ then_ok common_end (apply_delivery decode_request commit_write follower 2 commands)
apply_delivery_agrees_example =
    apply_delivery_agrees decode_request commit_write proposer follower 2 commands refl
