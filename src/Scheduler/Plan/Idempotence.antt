-- ===== src/Scheduler/Plan/Idempotence.antt =====
-- The plans of internal/scheduler/scheduler.go: each move is a real one, onto an alive node, and a
-- second rebalance has nothing to do.
use mathlib.Core.Path.{subst}
use smith.Floats.{Floats}
use smith.Prelude.Assoc.{
  has-insert, has_of_key, lookup, keys, insert, keys-insert_held, lookup-insert, lookup_or, has,
  is_some,
}
use smith.Prelude.Sort.{Elem-sort, sort}
use smith.Prelude.Text.{str_lt, ◌==◌, eq_iff}
use smith.Prelude.{
  ℕ, String, ◌≡◌, refl, sym, ap, ◌∙◌, ◌≢◌, ◌⊎◌, inl, inr, true, false, some, List, [], ◌∷◌, arith,
  All, All-Elem, Elem-map_inv, Elem, All-intro, Bool-cases,
}
use smith.Registry
use smith.Registry.{alive, Registry}
use smith.Scheduler.Placement.{place-IsBest}
use smith.Scheduler.Plan.Rebalance.{
  commit_moves_settled, moves_to_member, commit_moves_member, moves_to_settled, moves_to-IsMove,
  IsMove, lookup_of_has,
}
use smith.Scheduler.Plan.{
  simulate, Replica, replicas_of, rebalance_plan, rebalance, plan_for, Layout, larger, no_layout,
  commit_moves, put, moves_to, sorted_replicas,
}
use smith.Scheduler.{siblings_on, Scheduler, place}
use smith.Types.{Node, Move}

commit_moves-keys :
    (ms : List Move) (assignments : List (String × String))
    → All (λ m. has m.replica_id assignments ≡ true) ms
    → keys (commit_moves ms assignments) ≡ keys assignments
unfolding commit_moves
commit_moves-keys [] assignments h = refl
commit_moves-keys (m ∷ ms) assignments h =
    commit_moves-keys ms (insert m.replica_id m.to_node assignments) (
      All-intro ms (λ x i.
        has-insert m.replica_id x.replica_id m.to_node assignments
        ∙ ground (arith, All-Elem (λ x. has x.replica_id assignments ≡ true) x ms h.1 i)))
    ∙ keys-insert_held m.replica_id m.to_node assignments h.0

-- A target is a node of the list.
module _ (fl : Floats) (nodes : List Node) (parents : List (String × String)) where
  abbrev IsNode : String → Type 0
  IsNode id = (n : Node) × Elem n nodes × (id ≡ n.id)

  put-target :
      (best : String) (r : Replica) (l : Layout) (id to : String)
      → (best ≢ "" → IsNode best)
      → lookup id (put best r l).target ≡ some to
      → (lookup id l.target ≡ some to) ⊎ IsNode to
  unfolding put
  put-target best r l id to named h = elim (Bool-cases (best == "")) [
    | inl nowhere ↦ inl (rw (nowhere, put) at h)
    | inr somewhere ↦
        let stored : lookup id (insert r.id best l.target) ≡ some to = rw (somewhere, put) at h in
        elim (Bool-cases (r.id == id)) [
          | inl here ↦
              let best_to : best ≡ to = ground (arith, lookup-insert r.id id best l.target) in
              inr (subst IsNode best_to (named (λ e. ground (arith, eq_iff best ""))))
          | inr other ↦ inl (ground (arith, lookup-insert r.id id best l.target))
        ]
  ]

  simulate-target :
      (rs : List Replica) (l : Layout) (id to : String)
      → lookup id (simulate fl nodes parents rs l).target ≡ some to
      → (lookup id l.target ≡ some to) ⊎ IsNode to
  unfolding simulate
  simulate-target [] l id to h = inl h
  simulate-target (r ∷ rs) l id to h =
      let best = place fl nodes l.alloc (siblings_on parents r.parent l.target) r.req in
      elim (simulate-target rs (put best r l) id to h) [
        | inl before ↦
            put-target best r l id to
              (λ ne.
                let (m, e, b) =
                  place-IsBest fl l.alloc (siblings_on parents r.parent l.target) r.req nodes ne in
                (m, b.member, e))
              before
        | inr found ↦ inr found
      ]

module _ (fl : Floats) (n : Node) (nodes : List Node) (s : Scheduler) where
  abbrev target_of : List (String × String)
  target_of = (simulate fl (n ∷ nodes) s.parents (sorted_replicas s) no_layout).target

  replica_has : (r : Replica) → Elem r (sorted_replicas s) → has r.id s.assignments ≡ true
  unfolding sorted_replicas replicas_of
  replica_has r i =
      let (id, key, e) =
        Elem-map_inv _ r (keys s.assignments)
          ((Elem-sort larger r (replicas_of s (keys s.assignments))).0 i) in
      rw e (has_of_key id s.assignments key)

  plan_for-IsMove : All (IsMove target_of s.assignments) (plan_for fl (n ∷ nodes) s)
  unfolding plan_for
  plan_for-IsMove = All-intro _ (λ m i.
      All-Elem (IsMove target_of s.assignments) m _
        (moves_to-IsMove target_of s.assignments (sorted_replicas s)
          (All-intro (sorted_replicas s) replica_has))
        ((Elem-sort _ m (moves_to target_of s.assignments (sorted_replicas s))).0 i))

  in_plan :
      (m : Move)
      → Elem m (moves_to target_of s.assignments (sorted_replicas s))
      → Elem m (plan_for fl (n ∷ nodes) s)
  unfolding plan_for
  in_plan m i = (Elem-sort _ m (moves_to target_of s.assignments (sorted_replicas s))).1 i

  -- the commit of the plan brings each replica that has a target to it
  settled :
      (r : Replica)
      → Elem r (sorted_replicas s)
      → (to : String) → lookup r.id target_of ≡ some to
      → lookup r.id (commit_moves (plan_for fl (n ∷ nodes) s) s.assignments) ≡ some to
  settled r i to found =
      let agrees =
        All-intro (plan_for fl (n ∷ nodes) s)
          (λ m k. (All-Elem (IsMove target_of s.assignments) m _ plan_for-IsMove k).to_target) in
      elim (Bool-cases (to == lookup_or "" r.id s.assignments)) [
        | inl at_home ↦ commit_moves_settled target_of _ s.assignments r.id to agrees found (
            lookup_of_has r.id s.assignments (replica_has r i)
            ∙ ap some (sym ((eq_iff to (lookup_or "" r.id s.assignments)).0 at_home)))
        | inr leaves ↦ commit_moves_member target_of _ s.assignments _ agrees (
            in_plan _
              (moves_to_member target_of s.assignments (sorted_replicas s) r to i found leaves))
      ]

  committed_replicas :
      (ms : List Move)
      → All (λ m. has m.replica_id s.assignments ≡ true) ms
      → sorted_replicas (record s { assignments = commit_moves ms s.assignments })
        ≡ sorted_replicas s
  unfolding sorted_replicas replicas_of
  committed_replicas ms h =
      ap (λ ids. sort larger (replicas_of s ids)) (commit_moves-keys ms s.assignments h)

  plan_after_commit :
      plan_for fl
        (n ∷ nodes)
        (record s { assignments = commit_moves (plan_for fl (n ∷ nodes) s) s.assignments })
      ≡ []
  unfolding plan_for
  plan_after_commit =
      let ms = plan_for fl (n ∷ nodes) s in
      let after = commit_moves ms s.assignments in
      let held = All-intro ms (λ m k.
        ap is_some (All-Elem (IsMove target_of s.assignments) m ms plan_for-IsMove k).from_held) in
      ap
        (λ rs.
          sort (λ a b. str_lt a.replica_id b.replica_id)
            (moves_to (simulate fl (n ∷ nodes) s.parents rs no_layout).target after rs))
        (committed_replicas ms held)
      ∙ ap (sort (λ a b. str_lt a.replica_id b.replica_id))
          (moves_to_settled target_of after (sorted_replicas s) settled)

module _ (fl : Floats) (now : ℕ) (reg : Registry) (s : Scheduler) where
  plan_for-settled :
      (nodes : List Node)
      → plan_for fl nodes
          (record s { assignments = commit_moves (plan_for fl nodes s) s.assignments })
        ≡ []
  unfolding plan_for
  plan_for-settled [] = refl
  plan_for-settled (n ∷ nodes) = plan_after_commit fl n nodes s

  -- A plan made right after a rebalance, with the same nodes alive, has no move, whatever the state was.
  pub rebalance-idempotent : rebalance_plan fl now reg (rebalance fl now reg s).0 ≡ []
  unfolding rebalance rebalance_plan
  rebalance-idempotent = plan_for-settled (Registry.alive now reg)

  plan_for-moves :
      (nodes : List Node) (m : Move)
      → Elem m (plan_for fl nodes s)
      → (lookup m.replica_id s.assignments ≡ some m.from_node)
        × (m.to_node == m.from_node ≡ false)
        × IsNode fl nodes s.parents m.to_node
  unfolding plan_for lookup
  plan_for-moves [] m i = absurd i
  plan_for-moves (n ∷ nodes) m i =
      let move =
        All-Elem (IsMove (target_of fl n nodes s) s.assignments) m _ (plan_for-IsMove fl n nodes s)
          i in
      (
        move.from_held,
        move.elsewhere,
        from_target (
            simulate-target fl (n ∷ nodes) s.parents (sorted_replicas s) no_layout m.replica_id
              m.to_node move.to_target),
      )
    where
      from_target :
          (lookup m.replica_id no_layout.target ≡ some m.to_node)
            ⊎ IsNode fl (n ∷ nodes) s.parents m.to_node
          → IsNode fl (n ∷ nodes) s.parents m.to_node
      from_target (inl e) = cc
      from_target (inr found) = found

  -- Each move of a plan takes a replica off the node that it has, onto another one, which is alive.
  pub rebalance_plan-moves :
      (m : Move)
      → Elem m (rebalance_plan fl now reg s)
      → (lookup m.replica_id s.assignments ≡ some m.from_node)
        × (m.to_node ≢ m.from_node)
        × ((n : Node) × Elem n (Registry.alive now reg) × (m.to_node ≡ n.id))
  unfolding rebalance_plan
  rebalance_plan-moves m i =
      let (held, elsewhere, alive) = plan_for-moves (Registry.alive now reg) m i in
      (held, (λ e. ground (arith, elsewhere, eq_iff m.to_node m.from_node)), alive)
