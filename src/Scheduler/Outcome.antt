-- ===== src/Scheduler/Outcome.antt =====
-- The possible results of `Assign` (internal/scheduler/scheduler.go), with what each tells.
use mathlib.Core.Path.{subst}
use smith.Floats.{Floats}
use smith.Prelude.Assoc.{insert, lookup_or, lookup}
use smith.Prelude.Text.{◌==◌, eq_iff}
use smith.Prelude.{
  ℕ, String, ◌≡◌, refl, sym, ap, ◌∙◌, ◌≢◌, ◌⊎◌, inl, inr, true, false, none, some, List, [], ◌∷◌,
  arith, Elem, Option-cases, ok, Bool-cases, err,
}
use smith.Registry
use smith.Registry.{Registry}
use smith.Scheduler.Consistency.{unassign_absent, IsConsistent}
use smith.Scheduler.Placement.{place_unnamed, IsBest, place-IsBest, fits}
use smith.Scheduler.{
  Assigned, schedulable, committed_except, add_resources, fits_on_node, assign_new, place,
  record_placement, committed, assign, AssignError, no_alive_nodes, within, siblings_on, unassign,
  Scheduler, insufficient_capacity,
}
use smith.Types.{Node, Resources}

-- the state and the answer after a placement
abbrev pub placed : String → String → Resources → Scheduler → String → Assigned
placed replica parent req s node = (
  record {
    assignments = insert replica node s.assignments;
    parents = insert replica parent s.parents;
    requests = insert replica req s.requests;
  },
  ok (record { workload_id = replica; node_id = node; parent_id = parent }),
)

-- The node that the replica holds is not registered, or has no room for the request beside the others.
abbrev pub HasNoRoom : Registry → String → Resources → Scheduler → Type 0
HasNoRoom reg replica req s =
    (node : String) (n : Node)
    → lookup replica s.assignments ≡ some node
    → Registry.get node reg ≡ some n
    → within (add_resources (committed_except s.requests replica s.assignments node) req)
        (schedulable n)
      ≡ false

-- Sticky while the request fits; else placed from the state without the replica, on a node that has
-- room there; else, if no node has room or if a node has no ID, an error, and the replica has no node.
pub data Outcome (nodes : List Node) (reg : Registry) (replica parent : String) (req : Resources)
    (s : Scheduler) (r : Assigned) : Type 0 where
  sticky :
      (node : String) (n : Node)
      → lookup replica s.assignments ≡ some node
      → Registry.get node reg ≡ some n
      → within
          (add_resources (committed_except s.requests replica s.assignments node) req)
          (schedulable n)
        ≡ true
      → r ≡ (
        record s { requests = insert replica req s.requests },
        ok (record {
          workload_id = replica;
          node_id = node;
          parent_id = lookup_or "" replica s.parents;
        }),
      )
      → Outcome nodes reg replica parent req s r
  relocated :
      (n : Node)
      → HasNoRoom reg replica req s
      → Elem n nodes
      → fits (committed (unassign replica s).requests (unassign replica s).assignments) req n ≡ true
      → r ≡ placed replica parent req (unassign replica s) n.id
      → Outcome nodes reg replica parent req s r
  rejected :
      (e : AssignError)
      → HasNoRoom reg replica req s
      → ((n : Node)
          → Elem n nodes
          → fits (committed (unassign replica s).requests (unassign replica s).assignments) req n
            ≡ false)
        ⊎ ((n : Node) × Elem n nodes × (n.id ≡ ""))
      → r ≡ (unassign replica s, err e)
      → Outcome nodes reg replica parent req s r

clash : false ≡ true → ⊥
clash h = cc

-- A replica that fits on its node: the node is registered and has the room.
room_on_node :
    (reg : Registry) (s : Scheduler) (node replica : String) (req : Resources)
    → fits_on_node reg s node replica req ≡ true
    → (n : Node) × (Registry.get node reg ≡ some n)
      × (within
            (add_resources (committed_except s.requests replica s.assignments node) req)
            (schedulable n)
          ≡ true)
unfolding fits_on_node
room_on_node reg s node replica req h = elim (Option-cases (Registry.get node reg)) [
  | inl missing ↦ absurd (clash (rw (missing, fits_on_node) at h))
  | inr (n, found) ↦ (n, found, rw (found, fits_on_node) at h)
]

module _ (fl : Floats) (reg : Registry) (replica parent : String) (req : Resources)
    (s : Scheduler) where
  record_placement-Outcome :
      (nodes : List Node) (best : String)
      → HasNoRoom reg replica req s
      → (best ≡ ""
          → ((n : Node)
              → Elem n nodes
              → fits
                  (committed (unassign replica s).requests (unassign replica s).assignments)
                  req
                  n
                ≡ false)
            ⊎ ((n : Node) × Elem n nodes × (n.id ≡ "")))
      → (best ≢ ""
          → (n : Node) × (best ≡ n.id)
            × IsBest fl
                (committed (unassign replica s).requests (unassign replica s).assignments)
                (siblings_on (unassign replica s).parents parent (unassign replica s).assignments)
                req
                nodes
                n)
      → Outcome nodes reg replica parent req s
          (record_placement replica parent req (unassign replica s) best)
  record_placement-Outcome nodes best unfit unnamed found = elim (Bool-cases (best == "")) [
    | inl none_fits ↦
        rejected (insufficient_capacity replica req) unfit
          (unnamed (ground (arith, none_fits, eq_iff best "")))
          (unfold record_placement in rw none_fits)
    | inr named ↦
        let (n, same_id, is_best) = found (λ e. ground (arith, eq_iff best "")) in
        relocated n unfit is_best.member is_best.room (
          unfold record_placement in
          rw named (ap (placed replica parent req (unassign replica s)) same_id))
  ]

  assign_new-Outcome :
      (nodes : List Node)
      → HasNoRoom reg replica req s
      → Outcome nodes reg replica parent req s
          (assign_new fl nodes replica parent req (unassign replica s))
  unfolding assign_new
  assign_new-Outcome [] unfit = rejected no_alive_nodes unfit (inl (λ n m. absurd m)) refl
  assign_new-Outcome (n ∷ nodes) unfit =
      let alloc = committed (unassign replica s).requests (unassign replica s).assignments in
      let siblings =
        siblings_on (unassign replica s).parents parent (unassign replica s).assignments in
      record_placement-Outcome (n ∷ nodes) (place fl (n ∷ nodes) alloc siblings req) unfit
        (place_unnamed fl alloc siblings req (n ∷ nodes))
        (place-IsBest fl alloc siblings req (n ∷ nodes))

  -- what the check of a replica that has a node tells
  unassigned-HasNoRoom : lookup replica s.assignments ≡ none → HasNoRoom reg replica req s
  unassigned-HasNoRoom free node n held registered = cc

  full-HasNoRoom :
      (node : String)
      → lookup replica s.assignments ≡ some node
      → fits_on_node reg s node replica req ≡ false
      → HasNoRoom reg replica req s
  unfolding fits_on_node
  full-HasNoRoom node held full other n also registered =
      let same : node ≡ other = some_inj (sym held ∙ also) in
      rw (registered, fits_on_node) at (rw same at full)
    where
      some_inj : {x y : String} → some x ≡ some y → x ≡ y
      some_inj e = cc

  pub assign-Outcome :
      (now : ℕ)
      → IsConsistent s
      → Outcome
          (Registry.alive now reg)
          reg
          replica
          parent
          req
          s
          (assign fl now reg replica parent req s)
  unfolding assign
  assign-Outcome now h = elim (Option-cases (lookup replica s.assignments)) [
    | inl free ↦
        rw (free, assign)
          (subst
            (λ b.
              Outcome (Registry.alive now reg) reg replica parent req s
                (assign_new fl (Registry.alive now reg) replica parent req b))
            (unassign_absent replica s h free)
            (assign_new-Outcome (Registry.alive now reg) (unassigned-HasNoRoom free)))
    | inr (node, held) ↦ elim (Bool-cases (fits_on_node reg s node replica req)) [
      | inl room ↦
          let (n, registered, fit) = room_on_node reg s node replica req room in
          sticky node n held registered fit (rw (held, assign) (rw room))
      | inr full ↦
          rw (held, assign)
            (rw full (assign_new-Outcome (Registry.alive now reg) (full-HasNoRoom node held full)))
    ]
  ]
