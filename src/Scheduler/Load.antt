-- ===== src/Scheduler/Load.antt =====
-- How the load on a node (internal/scheduler/scheduler.go: `allocCPU`, `usedCPU`) changes when an
-- assignment is made, refreshed or deleted.
use smith.Prelude.Assoc.{
  lookup-insert, lookup_or-insert, delete, lookup_or, lookup-delete, lookup_or-insert_self, lookup,
  insert, delete_absent, Distinct,
}
use smith.Prelude.Int.{+ℤ_assoc, +ℤ_comm}
use smith.Prelude.Text.{◌==◌, eq_iff}
use smith.Prelude.{
  String, ◌≡◌, refl, sym, ap, ◌∙◌, inl, inr, none, some, List, [], ◌∷◌, arith, if◌then◌else◌,
  Bool-cases,
}
use smith.Scheduler.{committed, committed_except, request_of, add_resources}
use smith.Types.{Resources, no_resources}

add_resources_assoc :
    (a b c : Resources) → add_resources a (add_resources b c) ≡ add_resources (add_resources a b) c
add_resources_assoc a b c = ground (
  arith,
  +ℤ_assoc a.cpu_millicores b.cpu_millicores c.cpu_millicores,
  +ℤ_assoc a.memory_mb b.memory_mb c.memory_mb,
)

add_resources_comm : (a b : Resources) → add_resources a b ≡ add_resources b a
add_resources_comm a b =
    ground (arith, +ℤ_comm a.cpu_millicores b.cpu_millicores, +ℤ_comm a.memory_mb b.memory_mb)

module _ (reqs : List (String × Resources)) (id : String) where
  -- A change of the request of a replica without a node does not show.
  pub committed-insert_absent :
      (req : Resources) (m : List (String × String)) (n : String)
      → lookup id m ≡ none
      → committed (insert id req reqs) m n ≡ committed reqs m n
  unfolding committed lookup lookup_or
  committed-insert_absent req [] n h = refl
  committed-insert_absent req ((j, at) ∷ m) n h = ground (
    arith,
    committed-insert_absent req m n,
    lookup-insert id j req reqs,
    eq_iff id j,
    eq_iff j id,
  )

  pub committed-delete_absent :
      (m : List (String × String)) (n : String)
      → lookup id m ≡ none
      → committed (delete id reqs) m n ≡ committed reqs m n
  unfolding committed lookup lookup_or
  committed-delete_absent [] n h = refl
  committed-delete_absent ((j, at) ∷ m) n h =
      ground (arith, committed-delete_absent m n, lookup-delete id j reqs, eq_iff id j, eq_iff j id)

  -- What `fitsOnNode` counts is the load once the replica is gone.
  pub committed-delete :
      (m : List (String × String)) (n : String)
      → committed reqs (delete id m) n ≡ committed_except reqs id m n
  unfolding committed committed_except delete
  committed-delete [] n = refl
  committed-delete ((j, at) ∷ m) n = ground (arith, committed-delete m n)

  committed_except_absent :
      (m : List (String × String)) (n : String)
      → lookup id m ≡ none
      → committed_except reqs id m n ≡ committed reqs m n
  committed_except_absent m n h =
      sym (committed-delete m n) ∙ ap (λ x. committed reqs x n) (delete_absent id m h)

  -- A new assignment adds its request to its node, and to no other.
  pub committed-insert_new :
      (req : Resources) (node : String) (m : List (String × String)) (n : String)
      → lookup id m ≡ none
      → committed (insert id req reqs) (insert id node m) n
        ≡ (if node == n then add_resources (committed reqs m n) req else committed reqs m n)
  unfolding committed insert lookup
  committed-insert_new req node [] n h =
      rw lookup_or-insert_self (ground (arith, add_resources_comm req no_resources))
  committed-insert_new req node ((j, at) ∷ m) n h = ground (
    arith,
    committed-insert_new req node m n,
    lookup_or-insert no_resources id j req reqs,
    eq_iff id j,
    eq_iff j id,
    add_resources_assoc (request_of reqs j) (committed reqs m n) req,
  )

  -- A refreshed request counts once on its node.
  pub committed-refresh :
      (req : Resources) (node : String) (m : List (String × String))
      → Distinct m
      → lookup id m ≡ some node
      → committed (insert id req reqs) m node ≡ add_resources (committed_except reqs id m node) req
  unfolding committed committed_except lookup
  committed-refresh req node [] d h = cc
  committed-refresh req node ((j, at) ∷ m) d h = elim (Bool-cases (j == id)) [
    | inl e ↦
        let gone : lookup id m ≡ none = rw ((eq_iff j id).0 e) at d.0 in
        ground (
          arith,
          e,
          lookup_or-insert no_resources id j req reqs,
          eq_iff id j,
          eq_iff at node,
          eq_iff j id,
          committed-insert_absent req m node gone,
          committed_except_absent m node gone,
          add_resources_comm req (committed reqs m node),
        )
    | inr e ↦ ground (
      arith,
      e,
      committed-refresh req node m d.1,
      lookup_or-insert no_resources id j req reqs,
      eq_iff id j,
      eq_iff j id,
      add_resources_assoc (request_of reqs j) (committed_except reqs id m node) req,
    )
  ]
