-- ===== src/Coordinator/Exchanges.antt =====
-- The proposals that a transaction of src/storage/message_handlers/transaction_coordinator.rs made, and
-- what was answered, without the places where they were decided.
use fleetfs.Prelude.{Bool, true, false, List, [], ◌∷◌}
use fleetfs.Base.Outcome.{ErrorCode, Outcome, ok, err, panic, uncategorized}
use fleetfs.Base.Request.{Request}
use fleetfs.Base.Response.{Response}
use fleetfs.Coordinator.{Call, Event}

abbrev pub Exchanges : Type 0
Exchanges = List (Request × Outcome Response)

unfoldable pub exchange : Call → Outcome Response → Exchanges → Exchanges
exchange (Call.local_proposal inode request) answer before = (request, answer) ∷ before
exchange (Call.remote_proposal inode request) answer before = (request, answer) ∷ before
exchange (Call.group_proposal group request) answer before = (request, answer) ∷ before
exchange call answer before = before

unfoldable pub exchanges : List Event → Exchanges
unfolding exchange
exchanges [] = []
exchanges (e ∷ events) = exchange e.call e.answer (exchanges events)

-- An answer without a result: the call failed, or the group answered with an error.
unfoldable pub is_refusal : Outcome Response → Bool
is_refusal (ok (Response.error_occurred e)) = true
is_refusal (ok response) = false
is_refusal (err e) = true
is_refusal panic = false

unfoldable pub is_ok : {A : Type 0} → Outcome A → Bool
is_ok (ok a) = true
is_ok (err e) = false
is_ok panic = false

-- The error that a refused proposal returns: the group's, or that of the call, which is hidden if it went
-- to another node.
pub data ErrorOf : ErrorCode → Outcome Response → Type 0 where
  answered_error : (e : ErrorCode) → ErrorOf e (ok (Response.error_occurred e))
  local_failure : (e : ErrorCode) → ErrorOf e (err e)
  remote_failure : (e : ErrorCode) → ErrorOf uncategorized (err e)
