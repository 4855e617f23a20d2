-- ===== src/Scheduler/Invariant.antt =====
-- No node is filled beyond what can be scheduled on it, whatever the scheduler does
-- (internal/scheduler/scheduler.go).
use smith.Floats.{Floats}
use smith.Prelude.Assoc.{delete, lookup_or-insert, insert, Distinct, lookup-delete_self, lookup}
use smith.Prelude.Int.{int_laws, ℤ, ◌≤ℤ◌, pos}
use smith.Prelude.Text.{◌==◌, eq_iff}
use smith.Prelude.{
  ℕ, String, ◌≡◌, refl, sym, ◌∙◌, ◌≢◌, inl, inr, Bool, true, false, not, ◌||◌, some, List, [], ◌∷◌,
  arith, Bool-cases, if◌then◌else◌,
}
use smith.Registry
use smith.Registry.Liveness.{alive-get, IsKeyed}
use smith.Registry.{Registry}
use smith.Scheduler.Capacity.{Holds, relocated-Holds, sticky-Holds}
use smith.Scheduler.Consistency.{IsConsistent}
use smith.Scheduler.Load.{
  committed-insert_new, committed-delete_absent, committed-delete, committed-insert_absent,
}
use smith.Scheduler.Outcome.{relocated, assign-Outcome, sticky, Outcome, rejected}
use smith.Scheduler.Placement.{fits}
use smith.Scheduler.{
  Assigned, schedulable, committed_except, add_resources, request_of, committed, assign, within,
  unassign, Scheduler,
}
use smith.Types.{Node, no_resources, Resources}

-- `Overcommitted` would be empty: each registered node holds its load.
pub record AllFit (reg : Registry) (s : Scheduler) : Type 0 where
  pub at_node :
      (id : String) (n : Node)
      → Registry.get id reg ≡ some n
      → within (committed s.requests s.assignments id) (schedulable n) ≡ true

-- No replica asks for less than nothing.
pub record NonNegative (reqs : List (String × Resources)) : Type 0 where
  pub cpu : (id : String) → pos 0 ≤ℤ (request_of reqs id).cpu_millicores
  pub memory : (id : String) → pos 0 ≤ℤ (request_of reqs id).memory_mb

abbrev pub LessLoad : Resources → Resources → Type 0
LessLoad a b = (a.cpu_millicores ≤ℤ b.cpu_millicores) × (a.memory_mb ≤ℤ b.memory_mb)

within-LessLoad :
    (a b : Resources) (cap : ℤ × ℤ) → LessLoad a b → within b cap ≡ true → within a cap ≡ true
within-LessLoad a b cap h w = ground arith

LessLoad-add :
    (a b r : Resources)
    → pos 0 ≤ℤ r.cpu_millicores
    → pos 0 ≤ℤ r.memory_mb
    → LessLoad a b
    → LessLoad a (add_resources r b) × LessLoad (add_resources r a) (add_resources r b)
LessLoad-add a b r hc hm h = ((omega int_laws, omega int_laws), (omega int_laws, omega int_laws))

module _ (reqs : List (String × Resources)) (id : String) where
  -- Without the replica the load is not larger.
  pub committed_except-LessLoad :
      (m : List (String × String)) (n : String)
      → NonNegative reqs
      → LessLoad (committed_except reqs id m n) (committed reqs m n)
  unfolding committed_except committed
  committed_except-LessLoad [] n h = omega arith
  committed_except-LessLoad ((j, at) ∷ m) n h =
      let grows =
        LessLoad-add (committed_except reqs id m n) (committed reqs m n) (request_of reqs j)
          (h.cpu j) (h.memory j) (committed_except-LessLoad m n h) in
      by_tests (at == n) (j == id) grows (committed_except-LessLoad m n h)
    where
      by_tests :
          (b c : Bool)
          → LessLoad
              (committed_except reqs id m n)
              (add_resources (request_of reqs j) (committed reqs m n))
            × LessLoad
                (add_resources (request_of reqs j) (committed_except reqs id m n))
                (add_resources (request_of reqs j) (committed reqs m n))
          → LessLoad (committed_except reqs id m n) (committed reqs m n)
          → LessLoad
              (if not b || c
                then committed_except reqs id m n
                else add_resources (request_of reqs j) (committed_except reqs id m n))
              (if b
                then add_resources (request_of reqs j) (committed reqs m n)
                else committed reqs m n)
      by_tests true true g k = g.0
      by_tests true false g k = g.1
      by_tests false c g k = k

  -- A refreshed request does not show on another node.
  committed-refresh_ne :
      (req : Resources) (node : String) (m : List (String × String)) (n : String)
      → Distinct m
      → lookup id m ≡ some node
      → node ≢ n
      → committed (insert id req reqs) m n ≡ committed reqs m n
  unfolding committed lookup
  committed-refresh_ne req node [] n d h ne = refl
  committed-refresh_ne req node ((j, at) ∷ m) n d h ne = elim (Bool-cases (j == id)) [
    | inl e ↦ ground (
      arith,
      e,
      eq_iff at n,
      committed-insert_absent reqs id req m n (rw ((eq_iff j id).0 e) at d.0),
    )
    | inr e ↦ ground (
      arith,
      e,
      lookup_or-insert no_resources id j req reqs,
      eq_iff j id,
      eq_iff id j,
      committed-refresh_ne req node m n d.1,
    )
  ]

module _ (reg : Registry) (replica : String) (s : Scheduler) (clean : NonNegative s.requests)
    (all : AllFit reg s) where
  -- the load of a node once the replica is gone
  unassigned_load :
      (n : String)
      → committed (delete replica s.requests) (delete replica s.assignments) n
        ≡ committed_except s.requests replica s.assignments n
  unassigned_load n =
      committed-delete_absent s.requests replica (delete replica s.assignments) n
        (lookup-delete_self replica s.assignments)
      ∙ committed-delete s.requests replica s.assignments n

  -- the load of any other node once the replica is placed
  placed_load_ne :
      (req : Resources) (node id : String)
      → node ≢ id
      → committed
          (insert replica req (delete replica s.requests))
          (insert replica node (delete replica s.assignments))
          id
        ≡ committed_except s.requests replica s.assignments id
  placed_load_ne req node id ne = ground (
    arith,
    eq_iff node id,
    unassigned_load id,
    committed-insert_new (delete replica s.requests) replica req node (delete replica s.assignments)
        id (lookup-delete_self replica s.assignments),
  )

  less_fits :
      (id : String) (n : Node) {load : Resources}
      → load ≡ committed_except s.requests replica s.assignments id
      → within (committed s.requests s.assignments id) (schedulable n) ≡ true
      → within load (schedulable n) ≡ true
  less_fits id n e fit = rw e (
      within-LessLoad _ (committed s.requests s.assignments id) (schedulable n)
        (committed_except-LessLoad s.requests replica s.assignments id clean) fit)

  pub unassign-AllFit : AllFit reg (unassign replica s)
  unfolding unassign
  unassign-AllFit = record {
    at_node = λ id n found. less_fits id n (unassigned_load id) (all.at_node id n found);
  }

  module _ (parent : String) (req : Resources) where
    -- The node that the replica holds is within its capacity, and the others are as before.
    Holds-AllFit :
        (after : Scheduler) (node : String)
        → Holds reg replica parent req s after node
        → ((id : String)
            → node ≢ id
            → (n : Node) → within (committed s.requests s.assignments id) (schedulable n) ≡ true
            → within (committed after.requests after.assignments id) (schedulable n) ≡ true)
        → AllFit reg after
    Holds-AllFit after node h others = record {
      at_node = λ id n found. elim (Bool-cases (node == id)) [
        | inl here ↦
            let same_node : node ≡ id = (eq_iff node id).0 here in
            let same_host : n ≡ h.host = some_inj (sym found ∙ rw same_node at h.registered) in
            rw (same_host, ← same_node) h.fit
        | inr there ↦ others id (λ e. ground (arith, eq_iff node id)) n (all.at_node id n found)
      ];
    }
      where
        some_inj : {x y : Node} → some x ≡ some y → x ≡ y
        some_inj e = cc

    Outcome-AllFit :
        (now : ℕ) {r : Assigned}
        → IsConsistent s
        → IsKeyed reg
        → Outcome (Registry.alive now reg) reg replica parent req s r
        → AllFit reg r.0
    unfolding fits unassign
    Outcome-AllFit now {r} h k (sticky node n held found room e) = rw e (
        Holds-AllFit _ node (sticky-Holds reg replica parent req s node n h held found room)
          (λ id ne m fit.
            rw
              (committed-refresh_ne s.requests replica req node s.assignments id h.distinct held ne)
              fit))
    Outcome-AllFit now {r} h k (relocated n unfit member room e) = rw e (
        Holds-AllFit _ n.id
          (relocated-Holds reg replica parent req s n.id n (alive-get now reg n k member) room)
          (λ id ne m fit. less_fits id m (placed_load_ne req n.id id ne) fit))
    Outcome-AllFit now {r} h k (rejected x unfit why e) = rw e unassign-AllFit

    -- `Assign`, whatever it answers, leaves no registered node beyond what can be scheduled on it.
    pub assign-AllFit :
        (fl : Floats) (now : ℕ)
        → IsConsistent s
        → IsKeyed reg
        → AllFit reg (assign fl now reg replica parent req s).0
    assign-AllFit fl now h k =
        Outcome-AllFit now h k (assign-Outcome fl reg replica parent req s now h)
