-- ===== src/Metadata/Kinds/Links.antt =====
-- The operations on directory entries keep the kinds of the inodes.
use fleetfs.Prelude.{ℕ, ◌≡◌, refl, Bool, Option, none, some, inl, inr, Bool-cases, String}
use fleetfs.Base.Outcome.{
  Outcome, ok, err, panic, ok_or, unwrap, assert, access_denied, does_not_exist, already_exists,
}
use fleetfs.Base.Outcome.Laws.{>>=-eq-ok}
use fleetfs.Base.Types.{UserContext, FileKind, is_directory}
use fleetfs.Redb.{Redb}
use fleetfs.Metadata.{MetadataStorage, InodeAttributes, Clock, durability_tick}
use fleetfs.Metadata.Read.{lookup}
use fleetfs.Metadata.Links.{
  may_write, link_txn, create_link, replace_link, remove_link, update_parent, is_stale,
  sticky_verdict, remove_entry, Verdict, refused, allowed, undecided,
}
use fleetfs.Metadata.Keep.{past_guard}
use fleetfs.Metadata.Kinds.{
  SameKinds, unchanged, stored, stored-SameKinds, txn-SameKinds, edit-SameKinds,
}

module _ {db : Redb} (s : MetadataStorage db) where
  link_txn-SameKinds :
      (i parent : ℕ) (name : String) (context : UserContext) (kind : FileKind) (now : Clock)
      → SameKinds s (link_txn i parent name context kind now s).1
  unfolding link_txn durability_tick
  link_txn-SameKinds i parent name context kind now = edit-SameKinds s parent _ _ _ λ a r e h.
      let last = past_guard (may_write a context) access_denied _ r h in
      stored-SameKinds s parent a _ r.1 e refl (stored s last)

  pub create_link-SameKinds :
      (i parent : ℕ) (name : String) (context : UserContext) (kind : FileKind) (now : Clock)
      → SameKinds s (create_link i parent name context kind now s).1
  unfolding create_link
  create_link-SameKinds i parent name context kind now = after (lookup parent name context s)
    where
      after :
          (m : Outcome (Option ℕ))
          → SameKinds s
              (let r : Outcome (Unit {0}) × MetadataStorage db = elim m [
                | ok none ↦ link_txn i parent name context kind now s
                | ok (some _) ↦ (err already_exists, s)
                | err e ↦ (err e, s)
                | panic ↦ (panic, s)
              ] in
                r).1
      after (ok none) = link_txn-SameKinds i parent name context kind now
      after (ok (some j)) = unchanged s s refl
      after (err e) = unchanged s s refl
      after panic = unchanged s s refl

  pub replace_link-SameKinds :
      (parent : ℕ) (name : String) (new_inode : ℕ) (kind : FileKind) (context : UserContext)
      (now : Clock)
      → SameKinds s (replace_link parent name new_inode kind context now s).1
  unfolding replace_link durability_tick
  replace_link-SameKinds parent name new_inode kind context now =
      edit-SameKinds s parent _ _ _ λ a r e h.
        let rest = past_guard (may_write a context) access_denied _ r h in
        let (old, _, last) = >>=-eq-ok (unwrap (db.get s.directory (parent, name))) _ rest in
        stored-SameKinds s parent a _ r.1 e refl (stored s last)

  remove_entry-SameKinds :
      (parent : ℕ) (name : String) (inode : ℕ) (a : InodeAttributes) (now : Clock) (v : Verdict)
      (r : (ℕ × Bool) × MetadataStorage db)
      → db.get s.attrs parent ≡ some a
      → remove_entry (durability_tick s).1 parent name inode a now v ≡ ok r
      → SameKinds s r.1
  unfolding durability_tick
  remove_entry-SameKinds parent name inode a now refused r e h = absurd (cc h)
  remove_entry-SameKinds parent name inode a now undecided r e h = unchanged s r.1 (stored s h)
  remove_entry-SameKinds parent name inode a now allowed r e h =
      stored-SameKinds s parent a _ r.1 e refl (stored s h)

  pub remove_link-SameKinds :
      (parent : ℕ) (name : String) (link : Option (ℕ × ℕ)) (context : UserContext) (now : Clock)
      → SameKinds s (remove_link parent name link context now s).1
  unfolding remove_link durability_tick
  remove_link-SameKinds parent name link context now = edit-SameKinds s parent _ _ _ λ a r e h.
      let (entry, _, rest) =
        >>=-eq-ok (ok_or (db.get s.directory (parent, name)) does_not_exist) _ h in
      elim (Bool-cases (is_stale link entry.0)) [
        | inl b ↦ unchanged s r.1 (stored s (rw b at rest))
        | inr b ↦
            remove_entry-SameKinds parent name entry.0 a now (sticky_verdict a context.uid link) r e
              (past_guard (may_write a context) access_denied _ r (rw b at rest))
      ]

  pub update_parent-SameKinds : (i new_parent : ℕ) → SameKinds s (update_parent i new_parent s).1
  unfolding update_parent durability_tick
  update_parent-SameKinds i new_parent = txn-SameKinds s _ _ λ x t h.
      let (a, _, rest) = >>=-eq-ok (unwrap (db.get s.attrs i)) _ h in
      let (_, _, last) = >>=-eq-ok (assert (is_directory a.kind)) _ rest in
      unchanged s t (stored s last)
