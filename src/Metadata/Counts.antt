-- ===== src/Metadata/Counts.antt =====
-- The link count of an inode: a hard link that is rolled back, and an inode that loses links.
use fleetfs.Prelude.{
  ℕ, ◌+◌, ◌-◌, ◌%◌, ◌^◌, ◌<◌, ◌≤◌, ◌≡◌, ◌≢◌, refl, sym, ap, subst, ◌∙◌, String, Bool, true, false,
  Option, none, some, ◌⊎◌, inl, inr, Bool-cases, ◌==◌, ==_iff, arith, if◌then◌else◌,
}
use fleetfs.Base.Outcome.{ok, err, assert, corrupted, inode_does_not_exist}
use fleetfs.Base.Outcome.Laws.{>>=-eq-ok, ok-injective}
use fleetfs.Base.Types.{is_directory, Timestamp}
use fleetfs.Redb.{Redb, in_range}
use fleetfs.Metadata.{MetadataStorage, InodeAttributes, Clock, durability_tick}
use fleetfs.Metadata.Read.{next_key}
use fleetfs.Metadata.Attributes.{hardlink_stage0_link_increment, hardlink_rollback}
use fleetfs.Metadata.Inodes.{decrement_inode_link_count, delete_inode, links_left, is_empty}
use fleetfs.Metadata.Txn.{edit_known-eq-ok, no_value}
use fleetfs.Metadata.Owners.{Rewritten, rewritten}

module _ {db : Redb} (i : ℕ) (s t u : MetadataStorage db) (a : InodeAttributes) where
  incremented :
      (now : Clock) (time : Timestamp)
      → db.get s.attrs i ≡ some a
      → hardlink_stage0_link_increment i now s ≡ (ok time, t)
      → (time ≡ a.last_metadata_changed)
        × Rewritten i a
            (record a { hardlinks = (a.hardlinks + 1) % 2 ^ 32; last_metadata_changed = now 0 })
            s
            t
  unfolding hardlink_stage0_link_increment
  incremented now time e h =
      let result =
        edit_known-eq-ok i (err corrupted) inode_does_not_exist _ s t time a e (no_value corrupted)
          h in
      (
        sym (ap (λ (r : Timestamp × MetadataStorage db). r.0) (ok-injective result)),
        subst
            (Rewritten i a
              (record a { hardlinks = (a.hardlinks + 1) % 2 ^ 32; last_metadata_changed = now 0 })
              s)
            (ap (λ (r : Timestamp × MetadataStorage db). r.1) (ok-injective result))
            (rewritten i a _ s e),
      )

  rolled_back :
      (time : Timestamp)
      → db.get t.attrs i ≡ some a
      → hardlink_rollback i time t ≡ (ok tt, u)
      → Rewritten i a
          (record a {
            hardlinks = (a.hardlinks + 2 ^ 32 - 1) % 2 ^ 32;
            last_metadata_changed = time;
          })
          t
          u
  unfolding hardlink_rollback
  rolled_back time e h =
      let result =
        edit_known-eq-ok i (err corrupted) inode_does_not_exist _ t u tt a e (no_value corrupted)
          h in
      subst
        (Rewritten i a
          (record a {
            hardlinks = (a.hardlinks + 2 ^ 32 - 1) % 2 ^ 32;
            last_metadata_changed = time;
          })
          t)
        (ap (λ (r : Unit {0} × MetadataStorage db). r.1) (ok-injective result))
        (rewritten i a _ t e)

module _ {db : Redb} (i : ℕ) (s t u : MetadataStorage db) where
  -- A hard link that is counted and then rolled back with the time that the first step returned leaves
  -- the attributes of every inode as they were.
  pub hardlink_rollback-hardlink_stage0_link_increment :
      (a : InodeAttributes) (now : Clock) (time : Timestamp)
      → db.get s.attrs i ≡ some a
      → a.hardlinks < 2 ^ 32
      → hardlink_stage0_link_increment i now s ≡ (ok time, t)
      → hardlink_rollback i time t ≡ (ok tt, u)
      → (j : ℕ) → db.get u.attrs j ≡ db.get s.attrs j
  hardlink_rollback-hardlink_stage0_link_increment a now time e bound up down j =
      let (old_time, forth) = incremented i s t u a now time e up in
      let back = rolled_back i s t u _ time forth.after down in
      elim (Bool-cases (i == j)) [
        | inl same ↦
            let p : i ≡ j = (==_iff i j).0 same in
            let count : ((a.hardlinks + 1) % 2 ^ 32 + 2 ^ 32 - 1) % 2 ^ 32 ≡ a.hardlinks =
              omega arith in
            subst (λ k. db.get u.attrs k ≡ db.get s.attrs k) p
              (back.after
                ∙ ap
                    (λ (c : ℕ × Timestamp).
                      some (record a { hardlinks = c.0; last_metadata_changed = c.1 }))
                    (ap (λ n. (n, time)) count ∙ ap (λ c. (a.hardlinks, c)) old_time)
                ∙ sym e)
        | inr other ↦
            let differs : i ≢ j = λ p. ground (arith, p, other) in
            back.elsewhere j differs ∙ forth.elsewhere j differs
      ]

module _ {db : Redb} (i : ℕ) (s t : MetadataStorage db) where
  -- The inode and its extended attributes are gone; other inodes and all entries are as they were.
  pub record Deleted : Type 0 where
    pub attributes : db.get t.attrs i ≡ none
    pub xattrs : (key : String) → db.get t.xattrs (i, key) ≡ none
    pub elsewhere : (j : ℕ) → i ≢ j → db.get t.attrs j ≡ db.get s.attrs j
    pub other_xattrs :
        (j : ℕ) (key : String) → i ≢ j → db.get t.xattrs (j, key) ≡ db.get s.xattrs (j, key)
    pub directory : t.directory ≡ s.directory

module _ {db : Redb} (i : ℕ) (s : MetadataStorage db) (bound : i + 1 < 2 ^ 64) where
  in_own_range : (key : String) → in_range i (next_key i) (i, key) ≡ true
  in_own_range key = let e : (i + 1) % 2 ^ 64 ≡ i + 1 = omega arith in ground (arith, e)

  in_other_range : (j : ℕ) (key : String) → i ≢ j → in_range i (next_key i) (j, key) ≡ false
  in_other_range j key h = let e : (i + 1) % 2 ^ 64 ≡ i + 1 = omega arith in ground (arith, e, h)

  swept :
      (b : Bool) (r : Option ℕ × MetadataStorage db)
      → delete_inode (durability_tick s).1 i b ≡ ok r
      → (r.0 ≡ (if b then none else some i)) × Deleted i s r.1
  unfolding durability_tick
  swept false r h =
      subst (λ (r : Option ℕ × MetadataStorage db). (r.0 ≡ some i) × Deleted i s r.1)
        (ok-injective h)
        (
          refl,
          record {
            attributes = db.get-remove_self s.attrs i;
            xattrs = λ key.
                rw (db.get-remove_range s.xattrs i (next_key i) (i, key), in_own_range key) refl;
            elsewhere = λ j other. db.get-remove_ne s.attrs i j other;
            other_xattrs = λ j key other.
                rw
                  (db.get-remove_range s.xattrs i (next_key i) (j, key), in_other_range j key other)
                  refl;
            directory = refl;
          },
        )
  swept true r h =
      let (_, _, last) = >>=-eq-ok (assert (is_empty (db.range s.directory i (next_key i)))) _ h in
      subst (λ (r : Option ℕ × MetadataStorage db). (r.0 ≡ none) × Deleted i s r.1)
        (ok-injective last)
        (
          refl,
          record {
            attributes = db.get-remove_self s.attrs i;
            xattrs = λ key.
                rw (db.get-remove_range s.xattrs i (next_key i) (i, key), in_own_range key) refl;
            elsewhere = λ j other. db.get-remove_ne s.attrs i j other;
            other_xattrs = λ j key other.
                rw
                  (db.get-remove_range s.xattrs i (next_key i) (j, key), in_other_range j key other)
                  refl;
            directory = refl;
          },
        )

  -- If `decrement_inode_link_count` returns for an inode below `2^64 - 1` that has at least `count` and
  -- fewer than `2^32` links, either some links are left and only the link count and the time of the last
  -- metadata change are new, or none is left: the inode and its extended attributes are gone, and the
  -- inode is returned, for its data to be deleted, exactly if it was not a directory.
  pub decrement_inode_link_count_lem :
      (t : MetadataStorage db) (a : InodeAttributes) (count : ℕ) (now : Clock) (r : Option ℕ)
      → db.get s.attrs i ≡ some a
      → a.hardlinks < 2 ^ 32
      → count ≤ a.hardlinks
      → decrement_inode_link_count i count now s ≡ (ok r, t)
      → ((count < a.hardlinks)
          × (r ≡ none)
          × Rewritten i a
              (record a { hardlinks = a.hardlinks - count; last_metadata_changed = now 0 })
              s
              t)
        ⊎ ((a.hardlinks ≡ count)
            × (r ≡ (if is_directory a.kind then none else some i))
            × Deleted i s t)
  unfolding decrement_inode_link_count
  decrement_inode_link_count_lem t a count now r e small enough h =
      let result =
        edit_known-eq-ok i (err corrupted) inode_does_not_exist _ s t r a e (no_value corrupted)
          h in
      let left : links_left a count ≡ a.hardlinks - count = omega arith in
      elim (Bool-cases (links_left a count == 0)) [
        | inl b ↦
            let (answer, deleted) = swept (is_directory a.kind) (r, t) (rw b at result) in
            inr (ground (arith, b), answer, deleted)
        | inr b ↦
            let done = ok-injective (rw b at result) in
            inl (
              ground (arith, b),
              sym (ap (λ (r : Option ℕ × MetadataStorage db). r.0) done),
              subst
                  (λ n.
                    Rewritten i a (record a { hardlinks = n; last_metadata_changed = now 0 }) s t)
                  left
                  (subst
                    (Rewritten i a
                      (record a { hardlinks = links_left a count; last_metadata_changed = now 0 })
                      s)
                    (ap (λ (r : Option ℕ × MetadataStorage db). r.1) done) (rewritten i a _ s e)),
            )
      ]
