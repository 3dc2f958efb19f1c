-- ===== src/Coordinator/Rename.antt =====
-- `rename_transaction` of src/storage/message_handlers/transaction_coordinator.rs. The order in which
-- the set of locks is drained is a parameter. The mode of an inode is a `u16`.
use fleetfs.Prelude.{
  ℕ, Bool, false, Option, none, some, String, List, [], ◌∷◌, not, ltb, bit_and, ◌==◌, ◌&&◌,
  if◌then◌else◌,
}
use fleetfs.Base.Outcome.{
  Outcome, ok, err, panic, access_denied, not_empty, does_not_exist, assert, unwrap,
}
use fleetfs.Base.Access.{check_access, w_ok}
use fleetfs.Base.Types.{FileKind, UserContext, is_directory}
use fleetfs.Base.Request.{Request}
use fleetfs.Base.Response.{Response}
use fleetfs.Coordinator.{
  Cluster, Action, ◌>>=◌, ◌>>◌, lift, catch, expect, response_or_error, remember, forget_locks,
  locks_taken,
}
use fleetfs.Coordinator.Calls.{
  FileOrDirAttrs, propose, replace_link, remove_link, lock_inode, unlock_inode, update_parent,
  update_metadata_changed_time, getattrs, lookup, decrement_inode,
}

-- `libc::S_ISVTX`
abbrev pub s_isvtx : ℕ
s_isvtx = 0o1000

abbrev pub may_write : FileOrDirAttrs → UserContext → Bool
may_write a context = check_access a.uid a.gid a.mode context.uid context.gid w_ok

-- The "sticky bit" of a directory, for the removal of one of its entries.
abbrev pub sticky_refused : FileOrDirAttrs → FileOrDirAttrs → UserContext → Bool
sticky_refused dir a context =
    not (bit_and dir.mode s_isvtx == 0)
    && (not (context.uid == 0) && (not (context.uid == dir.uid) && not (context.uid == a.uid)))

-- `&& let Some(attrs) = existing`
abbrev pub if_some : Option FileOrDirAttrs → (FileOrDirAttrs → Bool) → Bool
if_some none test = false
if_some (some a) test = test a

unfoldable pub rename_check_access :
    (parent_attrs new_parent_attrs inode_attrs : FileOrDirAttrs)
    → Option FileOrDirAttrs
    → UserContext
    → Outcome (Unit {0})
rename_check_access parent_attrs new_parent_attrs inode_attrs existing_dest_inode_attrs context =
    if not (may_write parent_attrs context)
    then err access_denied
    else if sticky_refused parent_attrs inode_attrs context
    then err access_denied
    else if not (may_write new_parent_attrs context)
    then err access_denied
    else if if_some existing_dest_inode_attrs (λ a. sticky_refused new_parent_attrs a context)
    then err access_denied
    else if if_some existing_dest_inode_attrs
        (λ a. is_directory a.kind && ltb 0 a.directory_entries)
    then err not_empty
    else if is_directory inode_attrs.kind
        && (not (parent_attrs.inode == new_parent_attrs.inode)
            && not (may_write inode_attrs context))
    then err access_denied
    else ok tt

-- No such entry is no error here.
abbrev pub existing : Outcome ℕ → Outcome (Option ℕ)
existing (ok inode) = ok (some inode)
existing (err does_not_exist) = ok none
existing (err e) = err e
existing panic = panic

module _ {C : Cluster} where
  -- A lock, kept in the set of locks to release.
  unfoldable pub lock_guarded : ℕ → Action C ℕ
  lock_guarded inode = do
    lock_id ← lock_inode inode
    _ ← remember (inode, lock_id)
    lift (ok lock_id)

  unfoldable pub if_present : {A : Type 0} → (ℕ → Action C A) → Option ℕ → Action C (Option A)
  if_present action none = lift (ok none)
  if_present action (some inode) = do a ← action inode; lift (ok (some a))

  -- The inode that loses its name: a directory has two links to it then.
  unfoldable pub drop_replaced : ℕ → Option ℕ → FileOrDirAttrs → Action C (Unit {0})
  drop_replaced old_inode lock_id attrs =
      if is_directory attrs.kind
      then lift (assert (attrs.hardlinks == 2)) >> decrement_inode old_inode 2 lock_id
      else decrement_inode old_inode 1 lock_id

  -- The new name: an entry that is there is replaced.
  unfoldable pub put_link :
      (new_parent : ℕ) (new_name : String) (inode : ℕ) (kind : FileKind) (new_parent_lock_id : ℕ)
      → UserContext
      → Option ℕ
      → Option ℕ
      → Option FileOrDirAttrs
      → Action C (Unit {0})
  put_link new_parent new_name inode kind new_parent_lock_id context none lock_id attrs = do
    response_data ←
        propose new_parent
          (Request.create_link new_parent new_name inode kind (some new_parent_lock_id) context)
    _ ← lift (response_or_error response_data)
    lift (ok tt)
  put_link new_parent new_name inode kind new_parent_lock_id context (some existing_inode) lock_id
        attrs =
      do
        old_inode ← replace_link new_parent new_name inode kind new_parent_lock_id context
        _ ← lift (assert (old_inode == existing_inode))
        existing_attrs ← lift (unwrap attrs)
        drop_replaced old_inode lock_id existing_attrs

  unfoldable pub rename_transaction_lock_context :
      (parent : ℕ) (name : String) (new_parent : ℕ) (new_name : String)
      → UserContext
      → Action C Response
  rename_transaction_lock_context parent name new_parent new_name context = do
    parent_lock_id ← lock_guarded parent
    new_parent_lock_id ←
        if parent == new_parent then lift (ok parent_lock_id) else lock_guarded new_parent
    inode ← lookup parent name context
    inode_lock_id ← lock_guarded inode
    found ← catch (lookup new_parent new_name context)
    existing_dest_inode ← lift (existing found)
    existing_inode_lock_id ← if_present lock_guarded existing_dest_inode
    parent_attrs ← getattrs parent
    new_parent_attrs ← getattrs new_parent
    inode_attrs ← getattrs inode
    existing_inode_attrs ← if_present getattrs existing_dest_inode
    _ ←
        lift (
          rename_check_access parent_attrs new_parent_attrs inode_attrs existing_inode_attrs
            context)
    _ ←
        put_link new_parent new_name inode inode_attrs.kind new_parent_lock_id context
          existing_dest_inode existing_inode_lock_id existing_inode_attrs
    _ ← remove_link parent name (some (inode, inode_attrs.uid)) (some parent_lock_id) context
    _ ←
        if is_directory inode_attrs.kind
        then update_parent inode new_parent (some inode_lock_id)
        else lift (ok tt)
    _ ← update_metadata_changed_time inode (some inode_lock_id)
    lift (ok Response.empty)

  unfoldable pub unlock_all : List (ℕ × ℕ) → Action C (Unit {0})
  unlock_all [] = lift (ok tt)
  unlock_all ((inode, lock_id) ∷ to_unlock) = do
    answer ← catch (unlock_inode inode lock_id)
    _ ← expect answer
    unlock_all to_unlock

  unfoldable pub rename_transaction :
      (drain : List (ℕ × ℕ) → List (ℕ × ℕ)) (parent : ℕ) (name : String) (new_parent : ℕ)
      (new_name : String)
      → UserContext
      → Action C Response
  rename_transaction drain parent name new_parent new_name context = do
    _ ← forget_locks
    result ← catch (rename_transaction_lock_context parent name new_parent new_name context)
    locks ← locks_taken
    _ ← unlock_all (drain locks)
    lift result
