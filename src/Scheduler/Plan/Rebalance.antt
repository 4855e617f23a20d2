-- ===== src/Scheduler/Plan/Rebalance.antt =====
-- `Rebalance` and `RebalancePlan` (internal/scheduler/scheduler.go): what a move is, and that a plan
-- made after a rebalance is empty.
use smith.Prelude.Assoc.{
  insert, lookup, lookup-insert, has, lookup_or_found, lookup-insert_self, lookup_or,
}
use smith.Prelude.Text.{◌==◌, eq_iff, eq_refl}
use smith.Prelude.{
  String, ◌≡◌, refl, inl, inr, true, false, some, List, [], ◌∷◌, arith, All, Elem, Bool-cases,
  Option-cases,
}
use smith.Scheduler.Plan.{commit_moves, Replica, moves_to}
use smith.Types.{Move}

-- A move takes a replica from the node that it has to another one, which the target names.
pub record IsMove (target assignments : List (String × String)) (m : Move) : Type 0 where
  pub from_held : lookup m.replica_id assignments ≡ some m.from_node
  pub to_target : lookup m.replica_id target ≡ some m.to_node
  pub elsewhere : m.to_node == m.from_node ≡ false

pub lookup_of_has :
    (k : String) (m : List (String × String))
    → has k m ≡ true
    → lookup k m ≡ some (lookup_or "" k m)
unfolding lookup_or
lookup_of_has k m h = ground arith

module _ (target assignments : List (String × String)) where
  pub moves_to-IsMove :
      (rs : List Replica)
      → All (λ r. has r.id assignments ≡ true) rs
      → All (IsMove target assignments) (moves_to target assignments rs)
  unfolding moves_to
  moves_to-IsMove [] h = tt
  moves_to-IsMove (r ∷ rs) h = elim (Option-cases (lookup r.id target)) [
    | inl no_target ↦ rw (no_target, moves_to) (moves_to-IsMove rs h.1)
    | inr (to, found) ↦ elim (Bool-cases (to == lookup_or "" r.id assignments)) [
      | inl stays ↦ rw (found, moves_to) (rw stays (moves_to-IsMove rs h.1))
      | inr leaves ↦
          rw (found, moves_to)
            (rw leaves (
              record {
                from_held = lookup_of_has r.id assignments h.0;
                to_target = found;
                elsewhere = leaves;
              },
              moves_to-IsMove rs h.1,
            ))
    ]
  ]

  -- A replica whose target is another node has its move in the plan.
  pub moves_to_member :
      (rs : List Replica) (r : Replica) (to : String)
      → Elem r rs
      → lookup r.id target ≡ some to
      → to == lookup_or "" r.id assignments ≡ false
      → Elem
          (record { replica_id = r.id; from_node = lookup_or "" r.id assignments; to_node = to })
          (moves_to target assignments rs)
  unfolding moves_to
  moves_to_member [] r to i found leaves = absurd i
  moves_to_member (q ∷ rs) r to (inl e) found leaves =
      rw (← e) (rw (found, moves_to) (rw leaves (inl refl)))
  moves_to_member (q ∷ rs) r to (inr i) found leaves =
      let rest = moves_to_member rs r to i found leaves in
      elim (Option-cases (lookup q.id target)) [
        | inl no_target ↦ rw (no_target, moves_to) rest
        | inr (x, f) ↦ elim (Bool-cases (x == lookup_or "" q.id assignments)) [
          | inl stays ↦ rw (f, moves_to) (rw stays rest)
          | inr moved ↦ rw (f, moves_to) (rw moved (inr rest))
        ]
      ]

-- Commits to a target do not undo one another.
module _ (target : List (String × String)) where
  abbrev pub Agrees : Move → Type 0
  Agrees m = lookup m.replica_id target ≡ some m.to_node

  pub commit_moves_settled :
      (ms : List Move) (assignments : List (String × String)) (id to : String)
      → All Agrees ms
      → lookup id target ≡ some to
      → lookup id assignments ≡ some to
      → lookup id (commit_moves ms assignments) ≡ some to
  unfolding commit_moves
  commit_moves_settled [] assignments id to h t a = a
  commit_moves_settled (m ∷ ms) assignments id to h t a = commit_moves_settled ms _ id to h.1 t (
      ground
        (arith, h.0, lookup-insert m.replica_id id m.to_node assignments, eq_iff m.replica_id id))

  pub commit_moves_member :
      (ms : List Move) (assignments : List (String × String)) (m : Move)
      → All Agrees ms
      → Elem m ms
      → lookup m.replica_id (commit_moves ms assignments) ≡ some m.to_node
  unfolding commit_moves
  commit_moves_member [] assignments m h i = absurd i
  commit_moves_member (x ∷ ms) assignments m h (inl e) = rw e (
      commit_moves_settled ms (insert x.replica_id x.to_node assignments) x.replica_id x.to_node h.1
        h.0 (lookup-insert_self x.replica_id x.to_node assignments))
  commit_moves_member (x ∷ ms) assignments m h (inr i) = commit_moves_member ms _ m h.1 i

  -- Where every replica that has a target has its node, there is nothing to move.
  pub moves_to_settled :
      (assignments : List (String × String)) (rs : List Replica)
      → ((r : Replica)
          → Elem r rs
          → (to : String) → lookup r.id target ≡ some to
          → lookup r.id assignments ≡ some to)
      → moves_to target assignments rs ≡ []
  unfolding moves_to
  moves_to_settled assignments [] h = refl
  moves_to_settled assignments (r ∷ rs) h = elim (Option-cases (lookup r.id target)) [
    | inl no_target ↦
        ground (arith, no_target, moves_to_settled assignments rs (λ q i. h q (inr i)))
    | inr (to, found) ↦ ground (
      arith,
      found,
      h r (inl refl) to found,
      lookup_or_found "" r.id to assignments,
      eq_refl to,
      moves_to_settled assignments rs (λ q i. h q (inr i)),
    )
  ]
