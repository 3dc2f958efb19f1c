-- ===== src/Coordinator/Calls.antt =====
-- The single calls of src/storage/message_handlers/transaction_coordinator.rs.
use fleetfs.Prelude.{ℕ, Bool, Option, none, some, String, if◌then◌else◌}
use fleetfs.Base.Outcome.{Outcome, ok, panic, bad_response, unwrap, ok_or}
use fleetfs.Base.Types.{EntryMetadata, FileKind, InodeUidPair, UserContext}
use fleetfs.Base.Request.{Request}
use fleetfs.Base.Response.{Response}
use fleetfs.Coordinator.{
  Cluster, Call, Action, ◌>>=◌, lift, catch, expect, ask, hide_error, response_or_error,
  as_inode_response, as_empty_response, as_attr_response,
}

-- `remote_rafts.call(..).await.map_err(|_| ErrorCode::Uncategorized)`
abbrev pub ask_remote : {C : Cluster} → Call → Action C Response
ask_remote call = do answer ← catch (ask call); lift (hide_error answer)

unfoldable pub propose : {C : Cluster} → ℕ → Request → Action C Response
propose {C = C} inode request =
    if C.inode_stored_locally inode
    then (do response ← ask (Call.local_proposal inode request); lift (response_or_error response))
    else (do
      response ← ask_remote (Call.remote_proposal inode request)
      lift (response_or_error response))

abbrev pub to_inode_uid_pair : Option (ℕ × ℕ) → Option InodeUidPair
to_inode_uid_pair none = none
to_inode_uid_pair (some (inode, uid)) = some (record { inode = inode; uid = uid })

abbrev pub removed_inode : Response → Outcome (ℕ × Bool)
removed_inode (Response.removed_inode id complete) = ok (id, complete)
removed_inode _ = panic

abbrev pub lock_response : Response → Outcome ℕ
lock_response (Response.lock lock_id) = ok lock_id
lock_response _ = panic

unfoldable pub replace_link :
    {C : Cluster}
    → (parent : ℕ) (name : String) (new_inode : ℕ) (kind : FileKind) (lock_id : ℕ) → UserContext
    → Action C ℕ
replace_link parent name new_inode kind lock_id context = do
  response_data ←
      propose parent (Request.replace_link parent name new_inode kind (some lock_id) context)
  response ← lift (response_or_error response_data)
  lift (unwrap (as_inode_response response))

unfoldable pub remove_link :
    {C : Cluster}
    → (parent : ℕ) (name : String) (link_inode_and_uid : Option (ℕ × ℕ)) (lock_id : Option ℕ)
    → UserContext
    → Action C (ℕ × Bool)
remove_link parent name link_inode_and_uid lock_id context = do
  response_data ←
      propose parent
        (Request.remove_link parent name (to_inode_uid_pair link_inode_and_uid) lock_id context)
  response ← lift (response_or_error response_data)
  lift (removed_inode response)

unfoldable pub lock_inode : {C : Cluster} → ℕ → Action C ℕ
lock_inode inode = do
  response_data ← propose inode (Request.lock inode)
  response ← lift (response_or_error response_data)
  lift (lock_response response)

abbrev pub propose_empty : {C : Cluster} → ℕ → Request → Action C (Unit {0})
propose_empty inode request = do
  response_data ← propose inode request
  response ← lift (response_or_error response_data)
  lift (unwrap (as_empty_response response))

unfoldable pub update_parent :
    {C : Cluster} → (inode new_parent : ℕ) → Option ℕ → Action C (Unit {0})
update_parent inode new_parent lock_id =
    propose_empty inode (Request.update_parent inode new_parent lock_id)

unfoldable pub update_metadata_changed_time : {C : Cluster} → ℕ → Option ℕ → Action C (Unit {0})
update_metadata_changed_time inode lock_id =
    propose_empty inode (Request.update_metadata_changed_time inode lock_id)

unfoldable pub unlock_inode : {C : Cluster} → (inode lock_id : ℕ) → Action C (Unit {0})
unlock_inode inode lock_id = propose_empty inode (Request.unlock inode lock_id)

pub record FileOrDirAttrs : Type 0 where
  pub inode : ℕ
  pub kind : FileKind
  pub mode : ℕ
  pub hardlinks : ℕ
  pub uid : ℕ
  pub gid : ℕ
  pub directory_entries : ℕ

abbrev pub unwrap_or_default : Option ℕ → ℕ
unwrap_or_default none = 0
unwrap_or_default (some n) = n

abbrev pub to_attrs : EntryMetadata → FileOrDirAttrs
to_attrs response = record {
  inode = response.inode;
  kind = response.kind;
  mode = response.mode;
  hardlinks = response.hard_links;
  uid = response.user_id;
  gid = response.group_id;
  directory_entries = unwrap_or_default response.directory_entries;
}

-- The files of this node, after its group has caught up.
abbrev pub read_local : {C : Cluster} → ℕ → Request → Action C Response
read_local inode request = do _ ← ask (Call.read_barrier inode); ask (Call.local_read request)

unfoldable pub getattrs : {C : Cluster} → ℕ → Action C FileOrDirAttrs
getattrs {C = C} inode =
    if C.inode_stored_locally inode
    then (do
      response ← read_local inode (Request.get_attr inode)
      metadata ← lift (ok_or (as_attr_response response) bad_response)
      lift (ok (to_attrs metadata)))
    else (do
      response_data ← ask_remote (Call.forwarded (Request.get_attr inode))
      response ← lift (response_or_error response_data)
      metadata ← lift (ok_or (as_attr_response response) bad_response)
      lift (ok (to_attrs metadata)))

unfoldable pub lookup : {C : Cluster} → (parent : ℕ) (name : String) → UserContext → Action C ℕ
lookup {C = C} parent name context =
    if C.inode_stored_locally parent
    then (do
      response ← read_local parent (Request.lookup parent name context)
      lift (ok_or (as_inode_response response) bad_response))
    else (do
      response_data ← ask_remote (Call.forwarded (Request.lookup parent name context))
      response ← lift (response_or_error response_data)
      lift (ok_or (as_inode_response response) bad_response))

unfoldable pub decrement_inode : {C : Cluster} → (inode count : ℕ) → Option ℕ → Action C (Unit {0})
decrement_inode inode count lock_id = do
  answer ← catch (propose inode (Request.decrement_inode inode count lock_id))
  response_data ← expect answer
  response ← expect (response_or_error response_data)
  lift (unwrap (as_empty_response response))
