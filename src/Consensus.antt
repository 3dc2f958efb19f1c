-- ===== src/Consensus.antt =====
-- src/storage/raft_node.rs: what a replication group does with a decided slot. The consensus
-- replica itself (the crate raxos) decides the slots; a decided slot is an argument here. Sending on
-- a reply channel is an entry of the list of replies; a receiver is taken to be alive.
pub mod Process
pub mod Sync
mod Replicas
pub mod Agreement
mod Tests
use fleetfs.Prelude.{
  ℕ, ◌+◌, ◌%◌, ◌^◌, Bool, true, false, Option, none, some, List, [], ◌∷◌, ◌++◌, ◌==◌, leb,
  if◌then◌else◌,
}
use fleetfs.Prelude.HashMap
use fleetfs.Prelude.HashMap.{HashMap}
use fleetfs.Base.Outcome.{ErrorCode, Outcome, ok, err, panic, assert, unwrap, ◌>>=◌, ◌>>◌}
use fleetfs.Base.Types.{Bytes}
use fleetfs.Base.Request.{Request, RequestMetaInfo, meta_info}
use fleetfs.Base.Response.{Response}
use fleetfs.LockTable.{
  LockTable, PendingRequest, is_lock_request, is_locked, wait_for_lock, lock, unlock,
}

-- `Result<Response, ErrorCode>`, as sent to the proposer.
pub data Reply : Type 0 where
  answer : Response → Reply
  failure : ErrorCode → Reply

-- The replies of a step: the channel, what is sent.
abbrev pub Replies : Type 0
Replies = List (ℕ × Reply)

-- `if let Some(sender) = pending_response { sender.send(reply) }`
abbrev pub send : Option ℕ → Reply → Replies
send none reply = []
send (some channel) reply = (channel, reply) ∷ []

-- The lock table, the replies sent, the requests to process.
abbrev pub Processed : Type 0
Processed = LockTable × Replies × List PendingRequest

-- `Vec::pop`: the last item and those before it.
unfoldable pub pop {ℓ} : {A : Type ℓ} → List A → Option (List A × A)
pop [] = none
pop (x ∷ xs) = elim (pop xs) [ none ↦ some ([], x) | some (ys, y) ↦ some (x ∷ ys, y) ]

module _ (decode_request : Bytes → Option Request) where
  -- The grant to a queued lock request, which is the last request handed out.
  unfoldable pub hand_over :
      List PendingRequest → Option ℕ → Outcome (Replies × List PendingRequest)
  hand_over requests none = ok ([], requests)
  hand_over requests (some id) = do
    (before, (bytes, pending)) ← unwrap (pop requests)
    lock_request ← unwrap (decode_request bytes)
    assert (is_lock_request lock_request)
    ok (send pending (answer (Response.lock id)), before)

  -- The match on a request that is not held up by a lock.
  unfoldable pub admit : LockTable → Request → Bytes → Option ℕ → Outcome Processed
  admit t (Request.lock i) bytes pending = do
    (t', id) ← lock t i
    ok (t', send pending (answer (Response.lock id)), [])
  admit t (Request.unlock i id) bytes pending = do
    (t', requests, new_lock_id) ← unlock decode_request t i id
    (granted, to_process) ← hand_over requests new_lock_id
    ok (t', send pending (answer Response.empty) ++ granted, to_process)
  admit t _ bytes pending = ok (t, [], (bytes, pending) ∷ [])

  abbrev pub queue_or_admit : LockTable → Request → Bytes → Option ℕ → Option ℕ → Outcome Processed
  queue_or_admit t request bytes pending none = ok (t, [], (bytes, pending) ∷ [])
  queue_or_admit t request bytes pending (some i) = do
    blocked ← is_locked t (meta_info request)
    if blocked
        then (do t' ← wait_for_lock t i (bytes, pending); ok (t', [], []))
        else admit t request bytes pending

  unfoldable pub process_lock_table : LockTable → Bytes → Option ℕ → Outcome Processed
  process_lock_table t bytes pending = do
    request ← unwrap (decode_request bytes)
    queue_or_admit t request bytes pending (meta_info request).inode

-- `while !sync_requests.is_empty()`: those woken, those left.
unfoldable pub wake : ℕ → List (ℕ × ℕ) → List ℕ × List (ℕ × ℕ)
wake slot [] = ([], [])
wake slot ((index, channel) ∷ rest) =
    let (woken, left) = wake slot rest in
    if leb index slot then (channel ∷ woken, left) else ([], (index, channel) ∷ rest)

-- A replica: `Store` stands for its file storage.
pub record ConsensusNode (Store : Type 0) : Type 0 where
  pub pending_responses : HashMap ℕ
  pub sync_requests : List (ℕ × ℕ)
  pub applied_index : ℕ
  pub lock_table : LockTable
  pub file_storage : Store

module _ {Store : Type 0} where
  -- `sync`: the channels that are answered at once, and the node.
  unfoldable pub sync : ConsensusNode Store → ℕ → ℕ → List ℕ × ConsensusNode Store
  sync n index channel =
      if leb index n.applied_index
      then (channel ∷ [], n)
      else ([], record n { sync_requests = n.sync_requests ++ (index, channel) ∷ [] })

module _ {Store : Type 0} (decode_request : Bytes → Option Request)
    (commit_write : Request → Store → Outcome Response × Store) where
  -- The reply to a request that was applied; a panic is none.
  abbrev pub applied : Option ℕ → Outcome Response × Store → Outcome (Replies × Store)
  applied pending (ok response, s) = ok (send pending (answer response), s)
  applied pending (err e, s) = ok (send pending (failure e), s)
  applied pending (panic, s) = panic

  -- The loop over the requests that `process_lock_table` lets through.
  unfoldable pub apply_requests : List PendingRequest → Store → Outcome (Replies × Store)
  apply_requests [] s = ok ([], s)
  apply_requests ((bytes, pending) ∷ rest) s = do
    request ← unwrap (decode_request bytes)
    (replies, s') ← applied pending (commit_write request s)
    (more, s'') ← apply_requests rest s'
    ok (replies ++ more, s'')

  -- One command of a slot. An empty one is a read barrier.
  unfoldable pub apply_command :
      ConsensusNode Store → ℕ → Bytes → Outcome (Replies × ConsensusNode Store)
  apply_command n command_id [] = ok (
    send (n.pending_responses command_id) (answer Response.empty),
    record n { pending_responses = HashMap.remove n.pending_responses command_id },
  )
  apply_command n command_id (byte ∷ bytes) = do
    let pending = n.pending_responses command_id
    (t, replies, to_process) ← process_lock_table decode_request n.lock_table (byte ∷ bytes) pending
    (more, s) ← apply_requests to_process n.file_storage
    ok (
      replies ++ more,
      record n {
        pending_responses = HashMap.remove n.pending_responses command_id;
        lock_table = t;
        file_storage = s;
      },
    )

  unfoldable pub apply_commands :
      ConsensusNode Store → List (ℕ × Bytes) → Outcome (Replies × ConsensusNode Store)
  apply_commands n [] = ok ([], n)
  apply_commands n ((command_id, bytes) ∷ rest) = do
    (replies, n') ← apply_command n command_id bytes
    (more, n'') ← apply_commands n' rest
    ok (replies ++ more, n'')

  -- The replies, the `sync` callers woken, and the node.
  unfoldable pub apply_delivery :
      ConsensusNode Store → ℕ → List (ℕ × Bytes) → Outcome (Replies × List ℕ × ConsensusNode Store)
  apply_delivery n slot commands = do
    (replies, n') ← apply_commands n commands
    let (woken, left) = wake slot n'.sync_requests
    ok (replies, woken, record n' { applied_index = slot; sync_requests = left })
