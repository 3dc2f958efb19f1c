-- ===== src/Metadata/Values.antt =====
-- What is read back of what was stored: extended attributes and sizes.
use fleetfs.Prelude.{
  ℕ, ◌+◌, ◌%◌, ◌^◌, ◌<◌, ◌≤◌, ◌≡◌, ◌≢◌, refl, ap, subst, ◌∙◌, max, String, true, false, some, inl,
  inr, Bool-cases, arith, ltb, is_some,
}
use fleetfs.Base.Outcome.{
  Outcome, ok, err, ok_or, corrupted, inode_does_not_exist, missing_xattr_key, access_denied,
}
use fleetfs.Base.Outcome.Laws.{>>=-eq-ok, ok-injective}
use fleetfs.Base.Types.{Bytes, UserContext}
use fleetfs.Base.Access.{w_ok, r_ok}
use fleetfs.Redb.{Redb}
use fleetfs.Metadata.{
  MetadataStorage, InodeAttributes, Clock, durability_tick, read_txn, max_file_size,
}
use fleetfs.Metadata.Access.{xattr_access_check}
use fleetfs.Metadata.Read.{get_xattr}
use fleetfs.Metadata.Xattrs.{set_xattr, remove_xattr}
use fleetfs.Metadata.Attributes.{truncate, write, may_resize}
use fleetfs.Metadata.Txn.{edit_known-eq-ok, edit-eq-ok, no_value, through}
use fleetfs.Metadata.Owners.{Rewritten, rewritten}

module _ {db : Redb} (i : ℕ) (key : String) (s t : MetadataStorage db) where
  abbrev changed : InodeAttributes → Clock → InodeAttributes
  changed a now = record a { last_metadata_changed = now 0 }

  get_xattr_reads :
      (r : MetadataStorage db) (a : InodeAttributes) (context : UserContext) (now : Clock)
      → r.poisoned ≡ false
      → db.get r.attrs i ≡ some (changed a now)
      → xattr_access_check key r_ok a context ≡ ok tt
      → get_xattr i key context r ≡ ok_or (db.get r.xattrs (i, key)) missing_xattr_key
  unfolding get_xattr read_txn xattr_access_check
  get_xattr_reads r a context now live found granted = rw live (rw found (rw granted refl))

  -- After a `set_xattr` that returns, every user who may read the attribute reads the value that was
  -- set, and no other value has changed.
  pub get_xattr-set_xattr :
      (value : Bytes) (context reader : UserContext) (now : Clock) (a : InodeAttributes)
      → db.get s.attrs i ≡ some a
      → xattr_access_check key r_ok a reader ≡ ok tt
      → set_xattr i key value context now s ≡ (ok tt, t)
      → (get_xattr i key reader t ≡ ok value)
        × ((k : ℕ × String)
            → ◌≢◌ {A = ℕ × String} (i, key) k
            → db.get t.xattrs k ≡ db.get s.xattrs k)
  unfolding set_xattr durability_tick
  get_xattr-set_xattr value context reader now a e granted h =
      let (live, _, _, _) =
        edit-eq-ok i (err corrupted) inode_does_not_exist _ s t tt (no_value corrupted) h in
      let result =
        edit_known-eq-ok i (err corrupted) inode_does_not_exist _ s t tt a e (no_value corrupted)
          h in
      let (_, _, last) = >>=-eq-ok (xattr_access_check key w_ok a context) _ result in
      subst
        (λ (r : MetadataStorage db).
          (get_xattr i key reader r ≡ ok value)
          × ((k : ℕ × String)
              → ◌≢◌ {A = ℕ × String} (i, key) k
              → db.get r.xattrs k ≡ db.get s.xattrs k))
        (ap (λ (r : Unit {0} × MetadataStorage db). r.1) (ok-injective last))
        (
          get_xattr_reads _ a reader now live (db.get-insert_self s.attrs i (changed a now)) granted
              ∙ ap (λ o. ok_or o missing_xattr_key) (db.get-insert_self s.xattrs (i, key) value),
          λ k other. db.get-insert_ne s.xattrs (i, key) k value other,
        )

  -- After a `remove_xattr` that returns, a user who may read the attribute is told that it is missing,
  -- and no other value has changed.
  pub get_xattr-remove_xattr :
      (context reader : UserContext) (now : Clock) (a : InodeAttributes)
      → db.get s.attrs i ≡ some a
      → xattr_access_check key r_ok a reader ≡ ok tt
      → remove_xattr i key context now s ≡ (ok tt, t)
      → (get_xattr i key reader t ≡ err missing_xattr_key)
        × ((k : ℕ × String)
            → ◌≢◌ {A = ℕ × String} (i, key) k
            → db.get t.xattrs k ≡ db.get s.xattrs k)
  unfolding remove_xattr durability_tick
  get_xattr-remove_xattr context reader now a e granted h =
      let (live, _, _, _) =
        edit-eq-ok i (err corrupted) inode_does_not_exist _ s t tt (no_value corrupted) h in
      let result =
        edit_known-eq-ok i (err corrupted) inode_does_not_exist _ s t tt a e (no_value corrupted)
          h in
      let (_, _, rest) = >>=-eq-ok (xattr_access_check key w_ok a context) _ result in
      let (_, last) =
        through (is_some (db.get s.xattrs (i, key))) missing_xattr_key _ (tt, t) rest in
      subst
        (λ (r : MetadataStorage db).
          (get_xattr i key reader r ≡ err missing_xattr_key)
          × ((k : ℕ × String)
              → ◌≢◌ {A = ℕ × String} (i, key) k
              → db.get r.xattrs k ≡ db.get s.xattrs k))
        (ap (λ (r : Unit {0} × MetadataStorage db). r.1) (ok-injective last))
        (
          get_xattr_reads _ a reader now live (db.get-insert_self s.attrs i (changed a now)) granted
              ∙ ap (λ o. ok_or o missing_xattr_key) (db.get-remove_self s.xattrs (i, key)),
          λ k other. db.get-remove_ne s.xattrs (i, key) k other,
        )

module _ {db : Redb} (i : ℕ) (s t : MetadataStorage db) where
  -- A `truncate` that returns leaves the size asked for, which is at most the largest file size.
  pub truncate-size :
      (length : ℕ) (context : UserContext) (now : Clock)
      → truncate i length context now s ≡ (ok tt, t)
      → (length ≤ max_file_size)
        × (a a' : InodeAttributes) × (may_resize a context ≡ true)
        × (a'.size ≡ length)
        × Rewritten i a a' s t
  unfolding truncate
  truncate-size length context now h = elim (Bool-cases (ltb max_file_size length)) [
    | inl large ↦
        absurd (cc (ap (λ (r : Outcome (Unit {0}) × MetadataStorage db). r.0) (rw large at h)))
    | inr small ↦
        let (live, a, found, rest) =
          edit-eq-ok i (err corrupted) inode_does_not_exist _ s t tt (no_value corrupted)
            (rw small at h) in
        let (granted, last) = through (may_resize a context) access_denied _ (tt, t) rest in
        let a' : InodeAttributes = record a {
          size = length;
          last_metadata_changed = now 0;
          last_modified = now 1;
        } in
        (
          ground (arith, small),
          a,
          a',
          granted,
          refl,
          subst (Rewritten i a a' s)
              (ap (λ (r : Unit {0} × MetadataStorage db). r.1) (ok-injective last))
              (rewritten i a a' s found),
        )
  ]

  -- A `write` that returns never makes a file smaller, and afterwards the file reaches to the end of
  -- the written bytes, if offset and length do not overflow.
  pub write-size :
      (offset length : ℕ) (now : Clock)
      → offset + length < 2 ^ 64
      → write i offset length now s ≡ (ok tt, t)
      → (a a' : InodeAttributes) × (a.size ≤ a'.size)
        × (offset + length ≤ a'.size)
        × (a'.size ≤ max a.size (offset + length))
        × Rewritten i a a' s t
  unfolding write
  write-size offset length now bound h =
      let (live, a, found, last) =
        edit-eq-ok i (err corrupted) inode_does_not_exist _ s t tt (no_value corrupted) h in
      let a' : InodeAttributes = record a {
        size = max a.size ((length + offset) % 2 ^ 64);
        last_metadata_changed = now 0;
        last_modified = now 1;
      } in
      (
        a,
        a',
        omega arith,
        omega arith,
        omega arith,
        subst (Rewritten i a a' s)
            (ap (λ (r : Unit {0} × MetadataStorage db). r.1) (ok-injective last))
            (rewritten i a a' s found),
      )
