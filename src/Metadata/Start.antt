-- ===== src/Metadata/Start.antt =====
-- Where the inodes of a group start: the loop of `MetadataStorage::new` and the state it leaves.
use native.Mathlib.Nat.{add-mod_right, mod-add-mod, mod-lt, mod-eq_of_lt}
use mathlib.Core.Option.{some-injective}
use mathlib.Core.Path.{subst₂}
use fleetfs.Prelude.{
  ℕ, zero, suc, ◌+◌, ◌-◌, ◌%◌, ◌≤◌, ◌<◌, ◌≡◌, refl, sym, ap, ◌∙◌, arith, ◌==◌, leb, ==_iff,
  Bool-cases, inl, inr, if◌then◌else◌, true, some,
}
use fleetfs.Prelude.Bits.{testbit}
use fleetfs.Redb.{Redb, by_inode}
use fleetfs.Redb.Laws.{get-insert}
use fleetfs.Metadata.{InodeAttributes, Clock, root_inode}
use fleetfs.Metadata.Inodes.{first_inode, new, root_attributes}
use fleetfs.Metadata.Invariant.{RaftGroup, IsSound, IsWellFormed}

-- The loop meets a number of the class that is at most `d` away, if the fuel allows `d` steps.
first_inode_within :
    (fuel n g start d : ℕ)
    → d ≤ fuel
    → (start + d) % n ≡ g
    → (start ≤ first_inode fuel n g start)
      × (first_inode fuel n g start ≤ start + d)
      × (first_inode fuel n g start % n ≡ g)
unfolding first_inode
first_inode_within zero n g start d h e =
    (omega arith, omega arith, ap (λ k. k % n) (omega arith) ∙ e)
first_inode_within (suc fuel) n g start zero h e =
    let here : (start % n == g) ≡ true =
      (==_iff (start % n) g).1 (ap (λ k. k % n) (omega arith) ∙ e) in
    ground (arith, here)
first_inode_within (suc fuel) n g start (suc d) h e =
    let next =
      first_inode_within fuel n g (start + 1) d (omega arith) (ap (λ k. k % n) (omega arith) ∙ e) in
    ground (arith, next)

-- How far the next number of class `g` is.
distance : (n g start : ℕ) → ℕ
distance n g start = if leb (start % n) g then g - start % n else g + n - start % n

distance_lem :
    (n g start : ℕ) → g < n → (distance n g start < n) × ((start + distance n g start) % n ≡ g)
unfolding distance
distance_lem n g start h =
    let k : start % n < n = mod-lt start (omega arith) in
    let small : g % n ≡ g = mod-eq_of_lt h in
    elim (Bool-cases (leb (start % n) g)) [
      | inl e ↦
          let reach : start % n + (g - start % n) ≡ g = ground (arith, e) in
          rw e
            (omega arith, sym (mod-add-mod start n (g - start % n)) ∙ ap (λ m. m % n) reach ∙ small)
      | inr e ↦
          let reach : start % n + (g + n - start % n) ≡ g + n = ground (arith, e) in
          rw e (
            ground (arith, e),
            sym (mod-add-mod start n (g + n - start % n))
                ∙ ap (λ m. m % n) reach
                ∙ add-mod_right g n
                ∙ small,
          )
    ]

-- For a group `raft_group` of `num_raft_groups` the loop that looks for the first inode ends within
-- `num_raft_groups` steps: it returns the first number from `start` on that is of the group's class.
pub first_inode_lem :
    (num_raft_groups raft_group start : ℕ)
    → raft_group < num_raft_groups
    → (start ≤ first_inode num_raft_groups num_raft_groups raft_group start)
      × (first_inode num_raft_groups num_raft_groups raft_group start < start + num_raft_groups)
      × (first_inode num_raft_groups num_raft_groups raft_group start % num_raft_groups
          ≡ raft_group)
first_inode_lem n g start h =
    let (near, class) = distance_lem n g start h in
    let (from, upto, found) =
      first_inode_within n n g start (distance n g start) (omega arith) class in
    (from, omega arith, found)

module _ (db : Redb) (g : RaftGroup) (now : Clock) (h : g.id < g.num_raft_groups) where
  new_entries :
      (i : ℕ) (a : InodeAttributes)
      → db.get (new db g.id g.num_raft_groups now).attrs i ≡ some a
      → IsSound g
          (new db g.id g.num_raft_groups now).next_inode
          g.num_raft_groups
          (db.get (new db g.id g.num_raft_groups now).parents)
          i
          a
  unfolding new
  new_entries i a e = elim (Bool-cases (root_inode == i)) [
    | inl p ↦
        let stored : root_attributes now ≡ a =
          some-injective (root_attributes now) a
            (rw (get-insert db db.empty root_inode i (root_attributes now), p) at e) in
        let root : root_inode ≡ i = (==_iff root_inode i).0 p in
        subst₂
          (IsSound g (new db g.id g.num_raft_groups now).next_inode g.num_raft_groups
            (db.get (new db g.id g.num_raft_groups now).parents))
          root stored
          (record {
            keyed = refl;
            below = omega (arith, first_inode_lem g.num_raft_groups g.id (root_inode + 1) h);
            group = inl refl;
            parent = λ d. (root_inode, db.get-insert_self db.empty root_inode root_inode);
            no_sgid = unfold testbit in refl;
            no_suid = unfold testbit in refl;
          })
    | inr p ↦ absurd (
        cc (
          db.get-empty by_inode InodeAttributes i,
          rw (get-insert db db.empty root_inode i (root_attributes now), p) at e,
        ))
  ]

  pub new-IsWellFormed : IsWellFormed g (new db g.id g.num_raft_groups now)
  unfolding new
  new-IsWellFormed =
      let (_, _, found) = first_inode_lem g.num_raft_groups g.id (root_inode + 1) h in
      record { some_groups = omega arith; number = refl; counter = found; entries = new_entries }
