-- ===== src/Metadata/Owners.antt =====
-- Who may change the attributes of an inode, and what `chmod` and `chown` change.
use fleetfs.Prelude.{
  ℕ, ◌-◌, ◌%◌, ◌/◌, ◌^◌, ◌≡◌, ◌≢◌, refl, ap, subst, bit_and, true, ◌||◌, Option, none, some, ◌⊎◌,
  arith, is_some, if◌then◌else◌,
}
use fleetfs.Prelude.Bits.{bit_and_step}
use fleetfs.Base.Outcome.{ok, err, corrupted, operation_not_permitted, inode_does_not_exist}
use fleetfs.Base.Outcome.Laws.{ok-injective}
use fleetfs.Base.Types.{UserContext}
use fleetfs.Redb.{Redb}
use fleetfs.Metadata.{MetadataStorage, InodeAttributes, Clock, durability_tick, put_attrs}
use fleetfs.Metadata.Attributes.{
  suid_sgid, chmod, chown, may_chmod, may_give, may_regroup, get_or_old,
}
use fleetfs.Metadata.Txn.{edit-eq-ok, no_value, through}

module _ {db : Redb} where
  -- Only the attributes of one inode differ: they were `a` and are `a'`.
  pub record Rewritten (i : ℕ) (a a' : InodeAttributes) (s t : MetadataStorage db) : Type 0 where
    pub before : db.get s.attrs i ≡ some a
    pub after : db.get t.attrs i ≡ some a'
    pub elsewhere : (j : ℕ) → i ≢ j → db.get t.attrs j ≡ db.get s.attrs j
    pub directory : t.directory ≡ s.directory
    pub parents : t.parents ≡ s.parents

  pub rewritten :
      (i : ℕ) (a a' : InodeAttributes) (s : MetadataStorage db)
      → db.get s.attrs i ≡ some a
      → Rewritten i a a' s (put_attrs (durability_tick s).1 i a')
  unfolding durability_tick
  rewritten i a a' s e = record {
    before = e;
    after = db.get-insert_self s.attrs i a';
    elsewhere = λ j other. db.get-insert_ne s.attrs i j a' other;
    directory = refl;
    parents = refl;
  }

-- Five digits at a time.
masked_five :
    (m b : ℕ)
    → b % 32 ≡ 31
    → (bit_and m b % 32 ≡ m % 32) × (bit_and m b / 32 ≡ bit_and (m / 32) (b / 32))
masked_five m b h =
    let x : m / 32 ≡ m / 2 / 2 / 2 / 2 / 2 = omega arith in
    let y : b / 32 ≡ b / 2 / 2 / 2 / 2 / 2 = omega arith in
    rw (x, y)
      (
        omega (
          arith,
          bit_and_step m b,
          bit_and_step (m / 2) (b / 2),
          bit_and_step (m / 2 / 2) (b / 2 / 2),
          bit_and_step (m / 2 / 2 / 2) (b / 2 / 2 / 2),
          bit_and_step (m / 2 / 2 / 2 / 2) (b / 2 / 2 / 2 / 2),
        ),
        omega (
          arith,
          bit_and_step m b,
          bit_and_step (m / 2) (b / 2),
          bit_and_step (m / 2 / 2) (b / 2 / 2),
          bit_and_step (m / 2 / 2 / 2) (b / 2 / 2 / 2),
          bit_and_step (m / 2 / 2 / 2 / 2) (b / 2 / 2 / 2 / 2),
        ),
      )

masked_low : (m : ℕ) → bit_and m (2 ^ 32 - 1 - suid_sgid) % 1024 ≡ m % 1024
masked_low m =
    omega (arith, masked_five m 4294964223 refl, masked_five (m / 32) (4294964223 / 32) refl)

giver :
    (uid : Option ℕ) (caller owner : ℕ)
    → may_give uid caller owner ≡ true
    → get_or_old uid owner ≢ owner
    → caller ≡ 0
unfolding may_give
giver none caller owner h differs = absurd (differs refl)
giver (some u) caller owner h differs = ground (arith, h, differs)

regrouper :
    (gid : Option ℕ) (caller owner group : ℕ)
    → may_regroup gid caller owner ≡ true
    → get_or_old gid group ≢ group
    → (caller ≡ 0) ⊎ (caller ≡ owner)
unfolding may_regroup
regrouper none caller owner group h differs = absurd (differs refl)
regrouper (some u) caller owner group h differs = ground (arith, h)

module _ {db : Redb} (i : ℕ) (context : UserContext) (now : Clock) (s t : MetadataStorage db) where
  -- `chmod` returns only for root and the owner. It stores the permission bits and the sticky bit that
  -- it is given, keeps the owner and the group, and changes no other inode.
  pub chmod_authority :
      (mode : ℕ)
      → chmod i mode context now s ≡ (ok tt, t)
      → (a a' : InodeAttributes) × ((context.uid ≡ 0) ⊎ (context.uid ≡ a.uid))
        × (a'.mode % 1024 ≡ mode % 1024)
        × (a'.uid ≡ a.uid)
        × (a'.gid ≡ a.gid)
        × Rewritten i a a' s t
  unfolding chmod
  chmod_authority mode h =
      let (live, a, found, rest) =
        edit-eq-ok i (err corrupted) inode_does_not_exist _ s t tt (no_value corrupted) h in
      let (granted, last) = through (may_chmod a context) operation_not_permitted _ (tt, t) rest in
      let a' : InodeAttributes = record a {
        mode = bit_and mode (2 ^ 32 - 1 - suid_sgid) % 2 ^ 16;
        last_metadata_changed = now 0;
      } in
      (
        a,
        a',
        ground (arith, granted),
        omega (arith, masked_low mode),
        refl,
        refl,
        subst (Rewritten i a a' s)
            (ap (λ (r : Unit {0} × MetadataStorage db). r.1) (ok-injective last))
            (rewritten i a a' s found),
      )

  -- `chown` gives an inode to another owner only for root, and to another group only for root and
  -- the owner. It stores the owner and the group that it is given, keeps the mode, and changes no other
  -- inode.
  pub chown_authority :
      (uid gid : Option ℕ)
      → chown i uid gid context now s ≡ (ok tt, t)
      → (a a' : InodeAttributes) × (a'.uid ≢ a.uid → context.uid ≡ 0)
        × (a'.gid ≢ a.gid → (context.uid ≡ 0) ⊎ (context.uid ≡ a.uid))
        × (a'.uid ≡ get_or_old uid a.uid)
        × (a'.gid ≡ get_or_old gid a.gid)
        × (a'.mode ≡ a.mode)
        × Rewritten i a a' s t
  unfolding chown
  chown_authority uid gid h =
      let (live, a, found, rest) =
        edit-eq-ok i (err corrupted) inode_does_not_exist _ s t tt (no_value corrupted) h in
      let (given, rest') =
        through (may_give uid context.uid a.uid) operation_not_permitted _ (tt, t) rest in
      let (regrouped, last) =
        through (may_regroup gid context.uid a.uid) operation_not_permitted _ (tt, t) rest' in
      let a' : InodeAttributes = record a {
        uid = get_or_old uid a.uid;
        gid = get_or_old gid a.gid;
        last_metadata_changed =
            if is_some uid || is_some gid then now 0 else a.last_metadata_changed;
      } in
      (
        a,
        a',
        giver uid context.uid a.uid given,
        regrouper gid context.uid a.uid a.gid regrouped,
        refl,
        refl,
        refl,
        subst (Rewritten i a a' s)
            (ap (λ (r : Unit {0} × MetadataStorage db). r.1) (ok-injective last))
            (rewritten i a a' s found),
      )
