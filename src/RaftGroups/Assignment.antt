-- ===== src/RaftGroups/Assignment.antt =====
-- The assignment of groups to nodes: `node_contains_raft_group` of src/base/utils.rs.
use fleetfs.Prelude.{
  ℕ, zero, suc, ◌+◌, ◌*◌, ◌/◌, ◌%◌, ◌^◌, ◌<◌, ◌≤◌, true, false, ◌&&◌, ◌==◌, ltb, leb, ◌≡◌, ◌∙◌, ap,
  arith,
}
use native.Mathlib.Nat.{
  le-div_iff_mul-le, div-lt_iff_lt-mul, mod-lt, mod-eq_of_lt, div-add-mod', add-mul, one-mul,
  mul-le-mul_right,
}
use fleetfs.Base.Outcome.{ok}
use fleetfs.RaftGroups.{node_contains_raft_group}

-- A division is a place among the multiples.
quotient_test : (i r a : ℕ) → 0 < r → (i / r == a) ≡ (leb (a * r) i && ltb i (a * r + r))
quotient_test i r a h =
    let lower = le-div_iff_mul-le {k = r} {x = a} {y = i} h in
    let upper = div-lt_iff_lt-mul {k = r} {x = i} {y = a + 1} h in
    let edge : (a + 1) * r ≡ a * r + r = add-mul a 1 r ∙ ap (λ x. a * r + x) (one-mul r) in
    ground (arith, lower, upper, edge)

module _ (total replicas : ℕ) (some_replicas : 0 < replicas) (whole : total % replicas ≡ 0)
    (some_nodes : 0 < total) (bounded : total / replicas < 2 ^ 16) where
  -- The group of nodes that a raft group is assigned to.
  abbrev first_node : ℕ → ℕ
  first_node raft_group_id = raft_group_id % (total / replicas) * replicas

  total_lem : total ≡ total / replicas * replicas
  total_lem = omega (arith, div-add-mod' total replicas)

  some_quotient : (k : ℕ) → total ≡ k * replicas → 0 < k
  some_quotient zero e = absurd (omega (arith, e))
  some_quotient (suc k) e = omega arith

  groups_pos : 0 < total / replicas
  groups_pos = some_quotient (total / replicas) total_lem

  last_node : (raft_group_id : ℕ) → first_node raft_group_id + replicas ≤ total
  last_node raft_group_id =
      let assigned = raft_group_id % (total / replicas) in
      let next : (1 + assigned) * replicas ≤ total / replicas * replicas =
        mul-le-mul_right replicas (omega (arith, mod-lt raft_group_id groups_pos)) in
      let edge : (1 + assigned) * replicas ≡ replicas + assigned * replicas =
        add-mul 1 assigned replicas ∙ ap (λ x. x + assigned * replicas) (one-mul replicas) in
      omega (arith, next, edge, total_lem)

  -- Where the number of nodes is a positive multiple of the number of replicas, and less than 2^16 times
  -- it, a raft group is stored
  -- on exactly so many nodes: on those of one block of consecutive nodes, all of them in the cluster.
  pub node_contains_raft_group_lem :
      (node_index raft_group_id : ℕ)
      → (first_node raft_group_id + replicas ≤ total)
        × (node_contains_raft_group node_index total raft_group_id replicas
            ≡ ok (
                leb (first_node raft_group_id) node_index
                && ltb node_index (first_node raft_group_id + replicas)))
  unfolding node_contains_raft_group
  node_contains_raft_group_lem node_index raft_group_id = (
    last_node raft_group_id,
    let r : (replicas == 0) ≡ false = ground arith in
        let w : (total % replicas == 0) ≡ true = ground arith in
        let m : total / replicas % 2 ^ 16 ≡ total / replicas = mod-eq_of_lt bounded in
        let n : (total / replicas == 0) ≡ false = ground (arith, groups_pos) in
        rw (r, w, m, n) (ap ok (quotient_test node_index replicas _ some_replicas)),
  )
