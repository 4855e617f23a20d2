-- ===== src/Scheduler/Consistency.antt =====
-- The three maps of the scheduler (internal/scheduler/scheduler.go) stay in step: the replicas that
-- have a node are those that have a parent and a request.
use smith.Floats.{Floats}
use smith.Prelude.Assoc.{
  has-insert, has-delete, delete-Distinct, has, delete_absent, Distinct, is_some, none_of_has,
  lookup, insert, insert-Distinct,
}
use smith.Prelude.Text.{◌==◌, eq_iff}
use smith.Prelude.{
  ℕ, String, ◌≡◌, refl, ap, ◌∙◌, inl, inr, true, none, List, [], ◌∷◌, arith, Bool-cases,
  Option-cases,
}
use smith.Registry.{Registry}
use smith.Scheduler
use smith.Scheduler.Placement.{fits}
use smith.Scheduler.{
  unassign_all, assign_new, unassign, fits_on_node, Scheduler, assign, record_placement,
}
use smith.Types.{Node, Resources}

pub record IsConsistent (s : Scheduler) : Type 0 where
  pub distinct : Distinct s.assignments
  pub parented : (id : String) → has id s.parents ≡ has id s.assignments
  pub requested : (id : String) → has id s.requests ≡ has id s.assignments

pub empty-IsConsistent : IsConsistent Scheduler.empty
unfolding lookup
empty-IsConsistent = record { distinct = tt; parented = λ id. refl; requested = λ id. refl }

pub unassign-IsConsistent :
    (id : String) (s : Scheduler) → IsConsistent s → IsConsistent (unassign id s)
unfolding unassign
unassign-IsConsistent id s h = record {
  distinct = delete-Distinct id s.assignments h.distinct;
  parented = λ j. simp has-delete ((ground (arith, h.parented j)));
  requested = λ j. simp has-delete ((ground (arith, h.requested j)));
}

-- Without an assignment there is nothing to delete.
pub unassign_absent :
    (id : String) (s : Scheduler)
    → IsConsistent s
    → lookup id s.assignments ≡ none
    → unassign id s ≡ s
unfolding unassign
unassign_absent id s h free = rw (
  delete_absent id s.assignments free,
  delete_absent id s.parents (none_of_has id s.parents (h.parented id ∙ ap is_some free)),
  delete_absent id s.requests (none_of_has id s.requests (h.requested id ∙ ap is_some free)),
)

pub unassign_all-IsConsistent :
    (ids : List String) (s : Scheduler) → IsConsistent s → IsConsistent (unassign_all ids s)
unfolding unassign_all
unassign_all-IsConsistent [] s h = h
unassign_all-IsConsistent (id ∷ ids) s h =
    unassign_all-IsConsistent ids (unassign id s) (unassign-IsConsistent id s h)

record_placement-IsConsistent :
    (replica parent : String) (req : Resources) (s : Scheduler) (best : String)
    → IsConsistent s
    → IsConsistent (record_placement replica parent req s best).0
unfolding record_placement
record_placement-IsConsistent replica parent req s best h = elim (Bool-cases (best == "")) [
  | inl none_fits ↦ rw (none_fits, record_placement) h
  | inr fits ↦
      rw (fits, record_placement)
        (record {
          distinct = insert-Distinct replica best s.assignments h.distinct;
          parented = λ j. simp has-insert ((ground (arith, h.parented j)));
          requested = λ j. simp has-insert ((ground (arith, h.requested j)));
        })
]

assign_new-IsConsistent :
    (fl : Floats) (nodes : List Node) (replica parent : String) (req : Resources) (s : Scheduler)
    → IsConsistent s
    → IsConsistent (assign_new fl nodes replica parent req s).0
unfolding assign_new
assign_new-IsConsistent fl [] replica parent req s h = h
assign_new-IsConsistent fl (n ∷ nodes) replica parent req s h =
    record_placement-IsConsistent replica parent req s _ h

-- a refreshed request of a replica that has a node
refresh-IsConsistent :
    (replica : String) (req : Resources) (s : Scheduler)
    → has replica s.assignments ≡ true
    → IsConsistent s
    → IsConsistent (record s { requests = insert replica req s.requests })
refresh-IsConsistent replica req s held h = record {
  distinct = h.distinct;
  parented = h.parented;
  requested = λ j. rw has-insert (ground (arith, h.requested j, eq_iff replica j));
}

pub assign-IsConsistent :
    (fl : Floats) (now : ℕ) (reg : Registry) (replica parent : String) (req : Resources)
    (s : Scheduler)
    → IsConsistent s
    → IsConsistent (assign fl now reg replica parent req s).0
unfolding assign
assign-IsConsistent fl now reg replica parent req s h =
    elim (Option-cases (lookup replica s.assignments)) [
      | inl free ↦ rw (free, assign) (assign_new-IsConsistent fl _ replica parent req s h)
      | inr (node, held) ↦
          rw (held, assign)
            (elim (Bool-cases (fits_on_node reg s node replica req)) [
              | inl room ↦ rw room (refresh-IsConsistent replica req s (rw held) h)
              | inr outgrown ↦ rw outgrown (
                  assign_new-IsConsistent fl _ replica parent req (unassign replica s)
                    (unassign-IsConsistent replica s h))
            ])
    ]
