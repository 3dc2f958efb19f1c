-- ===== src/Consensus/Agreement.antt =====
-- Replicas that are given the same slots agree, whichever of them proposed the commands.
use fleetfs.Prelude.{
  ℕ, ◌≡◌, refl, sym, ap, ◌∙◌, Option, none, some, List, [], ◌∷◌, map, ◌==◌, Bool, true, false,
  if◌then◌else◌,
}
use mathlib.Core.Path.{fun_ext}
use fleetfs.Prelude.HashMap
use fleetfs.Prelude.HashMap.{HashMap}
use fleetfs.Base.Outcome.{Outcome, ok, err, panic, unwrap, ◌>>=◌}
use fleetfs.Base.Types.{Bytes}
use fleetfs.Base.Request.{Request}
use fleetfs.Base.Response.{Response}
use fleetfs.LockTable.{LockTable, PendingRequest}
use fleetfs.Consensus.{
  ConsensusNode, Replies, applied, process_lock_table, apply_requests, apply_command,
  apply_commands, apply_delivery, wake,
}
use fleetfs.Consensus.Replicas.{
  then_ok, then_ok-bind, same_bind, mute, mute_queue, mute_table, process_lock_table-mute,
}

module _ {Store : Type 0} where
  -- What every replica has in common: the lock table with its queues, less the reply channels, the
  -- file storage, and the index that is applied.
  abbrev pub common : ConsensusNode Store → ConsensusNode Store
  common n = record n {
    pending_responses = HashMap.empty;
    sync_requests = [];
    lock_table = mute_table n.lock_table;
  }

  abbrev pub common_end : Replies × List ℕ × ConsensusNode Store → ConsensusNode Store
  common_end r = common r.2

map-mute_again : (l : List PendingRequest) → map mute (map mute l) ≡ map mute l
map-mute_again [] = refl
map-mute_again (p ∷ l) = ap (λ k. mute p ∷ k) (map-mute_again l)

mute_queue_again : (o : Option (List PendingRequest)) → mute_queue (mute_queue o) ≡ mute_queue o
mute_queue_again none = refl
mute_queue_again (some l) = ap (λ k. some k) (map-mute_again l)

mute_table_again : (t : LockTable) → mute_table (mute_table t) ≡ mute_table t
mute_table_again t =
    ap (λ (m : HashMap (List PendingRequest)). record t { pending_requests = m })
      (fun_ext λ j. mute_queue_again (t.pending_requests j))

remove-empty : (k : ℕ) → ◌≡◌ {A = HashMap ℕ} (HashMap.remove HashMap.empty k) HashMap.empty
remove-empty k = fun_ext λ j. at (j == k)
  where
    at : (b : Bool) → ◌≡◌ {A = Option ℕ} (if b then none else none) none
    at true = refl
    at false = refl

module _ {Store : Type 0} (decode_request : Bytes → Option Request)
    (commit_write : Request → Store → Outcome Response × Store) where
  applied-mute :
      (pending : Option ℕ) (x : Outcome Response × Store)
      → applied decode_request commit_write none x
        ≡ then_ok
            (λ (r : Replies × Store). ([], r.1))
            (applied decode_request commit_write pending x)
  applied-mute pending (ok response, s) = refl
  applied-mute pending (err e, s) = refl
  applied-mute pending (panic, s) = refl

  apply_requests-mute :
      (l : List PendingRequest) (s : Store)
      → apply_requests decode_request commit_write (map mute l) s
        ≡ then_ok
            (λ (r : Replies × Store). ([], r.1))
            (apply_requests decode_request commit_write l s)
  unfolding apply_requests
  apply_requests-mute [] s = refl
  apply_requests-mute ((bytes, pending) ∷ l) s =
      same_bind _ (unwrap (decode_request bytes)) _ _ λ request.
        then_ok-bind _ _ (applied decode_request commit_write pending (commit_write request s)) _ _
          _ (applied-mute pending (commit_write request s))
          λ r.
            then_ok-bind _ _ (apply_requests decode_request commit_write l r.1) _ _ _
              (apply_requests-mute l r.1) λ _. refl

  abbrev common_step : Replies × ConsensusNode Store → Replies × ConsensusNode Store
  common_step (replies, n) = ([], common n)

  apply_command-common :
      (n : ConsensusNode Store) (id : ℕ) (bytes : Bytes)
      → apply_command decode_request commit_write (common n) id bytes
        ≡ then_ok common_step (apply_command decode_request commit_write n id bytes)
  unfolding apply_command
  apply_command-common n id [] =
      ap (λ (m : HashMap ℕ). ok ([], record (common n) { pending_responses = m })) (remove-empty id)
  apply_command-common n id (byte ∷ bytes) =
      then_ok-bind _ _
        (process_lock_table decode_request n.lock_table (byte ∷ bytes) (n.pending_responses id)) _ _
        _
        (process_lock_table-mute decode_request n.lock_table (byte ∷ bytes)
          (n.pending_responses id))
        λ q.
          then_ok-bind _ _ (apply_requests decode_request commit_write q.2 n.file_storage) _ _ _
            (apply_requests-mute q.2 n.file_storage)
            λ r.
              ap
                (λ (m : HashMap ℕ). ok (
                  [],
                  record (common n) {
                    pending_responses = m;
                    lock_table = mute_table q.0;
                    file_storage = r.1;
                  },
                ))
                (remove-empty id)

  apply_commands-common :
      (n : ConsensusNode Store) (commands : List (ℕ × Bytes))
      → apply_commands decode_request commit_write (common n) commands
        ≡ then_ok common_step (apply_commands decode_request commit_write n commands)
  unfolding apply_commands
  apply_commands-common n [] = refl
  apply_commands-common n ((id, bytes) ∷ commands) =
      then_ok-bind _ _ (apply_command decode_request commit_write n id bytes) _ _ _
        (apply_command-common n id bytes)
        λ q.
          then_ok-bind _ _ (apply_commands decode_request commit_write q.1 commands) _ _ _
            (apply_commands-common q.1 commands) λ _. refl

  apply_delivery-common :
      (n : ConsensusNode Store) (slot : ℕ) (commands : List (ℕ × Bytes))
      → then_ok common_end (apply_delivery decode_request commit_write (common n) slot commands)
        ≡ then_ok common_end (apply_delivery decode_request commit_write n slot commands)
  unfolding apply_delivery wake
  apply_delivery-common n slot commands =
      rw (apply_commands-common n commands)
        (at (apply_commands decode_request commit_write n commands))
    where
      at :
          (m : Outcome (Replies × ConsensusNode Store))
          → then_ok common_end (
              then_ok common_step m >>= λ r. ok (
                r.0,
                (wake slot r.1.sync_requests).0,
                record r.1 {
                  applied_index = slot;
                  sync_requests = (wake slot r.1.sync_requests).1;
                },
              ))
            ≡ then_ok common_end (
                m >>= λ r. ok (
                  r.0,
                  (wake slot r.1.sync_requests).0,
                  record r.1 {
                    applied_index = slot;
                    sync_requests = (wake slot r.1.sync_requests).1;
                  },
                ))
      at (ok (replies, k)) =
          ap (λ (t : LockTable). ok (record (common k) { applied_index = slot; lock_table = t }))
            (mute_table_again k.lock_table)
      at (err e) = refl
      at panic = refl

  -- Two replicas that agree on lock table and file storage, and differ in the requests that they
  -- proposed and in who waits on them, agree again after a slot, if `commit_write` does the same on both:
  -- both panic, or both end in the same lock table, queues (less the channels), file storage and applied
  -- index.
  pub apply_delivery_agrees :
      (n m : ConsensusNode Store) (slot : ℕ) (commands : List (ℕ × Bytes))
      → common n ≡ common m
      → then_ok common_end (apply_delivery decode_request commit_write n slot commands)
        ≡ then_ok common_end (apply_delivery decode_request commit_write m slot commands)
  apply_delivery_agrees n m slot commands e =
      sym (apply_delivery-common n slot commands)
      ∙ ap
          (λ (k : ConsensusNode Store).
            then_ok common_end (apply_delivery decode_request commit_write k slot commands))
          e
      ∙ apply_delivery-common m slot commands
