-- ===== src/Scheduler/Reach.antt =====
-- Runs of the scheduler (internal/scheduler/scheduler.go) against a registry that stays as it is: any
-- sequence of `Assign`, `Unassign` and `ReassignNode`.
use smith.Floats.{Floats}
use smith.Prelude.Assoc.{delete, insert, lookup_or-delete, lookup_or-insert}
use smith.Prelude.Sort.{sort}
use smith.Prelude.Text.{str_lt}
use smith.Prelude.{ℕ, String, ◌≡◌, refl, ap, inl, inr, List, [], ◌∷◌, arith, Option-cases}
use smith.Registry
use smith.Registry.Liveness.{IsKeyed}
use smith.Registry.{Registry}
use smith.Scheduler.Consistency.{assign-IsConsistent, unassign-IsConsistent, IsConsistent}
use smith.Scheduler.Invariant.{AllFit, assign-AllFit, NonNegative, unassign-AllFit}
use smith.Scheduler.Machine.{IsSmall, IsNonNegative, HasSmallNodes, AllFit-NoWrap, NoWrap}
use smith.Scheduler.Outcome.{Outcome, assign-Outcome, sticky, rejected, relocated}
use smith.Scheduler.Overcommit.{overloads, used_nodes, overcommitted, over_capacity}
use smith.Scheduler.{
  Scheduler, unassign_all, unassign, replicas_on, Assigned, reassign_node, assign,
}
use smith.Types.{Node, Resources}

-- One call, on a request from 0 to below 2 ^ 62.
pub data Step (fl : Floats) (reg : Registry) (s t : Scheduler) : Type 0 where
  assigns :
      (now : ℕ) (replica parent : String) (req : Resources)
      → IsSmall req
      → t ≡ (assign fl now reg replica parent req s).0
      → Step fl reg s t
  unassigns : (replica : String) → t ≡ unassign replica s → Step fl reg s t
  reassigns : (node : String) → t ≡ (reassign_node node s).0 → Step fl reg s t

pub data Reach (fl : Floats) (reg : Registry) (s : Scheduler) : Scheduler → Type 0 where
  start : Reach fl reg s s
  next : {t u : Scheduler} → Reach fl reg s t → Step fl reg t u → Reach fl reg s u

pub record IsSafe (reg : Registry) (s : Scheduler) : Type 0 where
  pub consistent : IsConsistent s
  pub clean : NonNegative s.requests
  pub all : AllFit reg s

insert-NonNegative :
    (id : String) (req : Resources) (reqs : List (String × Resources))
    → IsNonNegative req
    → NonNegative reqs
    → NonNegative (insert id req reqs)
insert-NonNegative id req reqs h c = record {
  cpu = λ j. rw lookup_or-insert (ground (arith, h.0, c.cpu j));
  memory = λ j. rw lookup_or-insert (ground (arith, h.1, c.memory j));
}

delete-NonNegative :
    (id : String) (reqs : List (String × Resources))
    → NonNegative reqs
    → NonNegative (delete id reqs)
delete-NonNegative id reqs c = record {
  cpu = λ j. rw lookup_or-delete (ground (arith, c.cpu j));
  memory = λ j. rw lookup_or-delete (ground (arith, c.memory j));
}

unassign-IsSafe :
    (reg : Registry) (id : String) (s : Scheduler) → IsSafe reg s → IsSafe reg (unassign id s)
unassign-IsSafe reg id s h = record {
  consistent = unassign-IsConsistent id s h.consistent;
  clean = unfold unassign in delete-NonNegative id s.requests h.clean;
  all = unassign-AllFit reg id s h.clean h.all;
}

unassign_all-IsSafe :
    (reg : Registry) (ids : List String) (s : Scheduler)
    → IsSafe reg s
    → IsSafe reg (unassign_all ids s)
unfolding unassign_all
unassign_all-IsSafe reg [] s h = h
unassign_all-IsSafe reg (id ∷ ids) s h =
    unassign_all-IsSafe reg ids (unassign id s) (unassign-IsSafe reg id s h)

Outcome-NonNegative :
    {nodes : List Node} (reg : Registry) (replica parent : String) (req : Resources) (s : Scheduler)
    {r : Assigned}
    → IsNonNegative req
    → NonNegative s.requests
    → Outcome nodes reg replica parent req s r
    → NonNegative r.0.requests
unfolding unassign
Outcome-NonNegative reg replica parent req s h c (sticky node n held found room e) =
    rw e (insert-NonNegative replica req s.requests h c)
Outcome-NonNegative reg replica parent req s h c (relocated n unfit member room e) =
    rw e (insert-NonNegative replica req _ h (delete-NonNegative replica s.requests c))
Outcome-NonNegative reg replica parent req s h c (rejected x unfit why e) =
    rw e (delete-NonNegative replica s.requests c)

pub Step-IsSafe :
    {fl : Floats} {reg : Registry} {s t : Scheduler}
    → IsKeyed reg
    → Step fl reg s t
    → IsSafe reg s
    → IsSafe reg t
Step-IsSafe {fl} {reg} {s} k (assigns now replica parent req small e) h = rw e (record {
  consistent = assign-IsConsistent fl now reg replica parent req s h.consistent;
  clean =
      Outcome-NonNegative reg replica parent req s small.0 h.clean
        (assign-Outcome fl reg replica parent req s now h.consistent);
  all = assign-AllFit reg replica s h.clean h.all parent req fl now h.consistent k;
})
Step-IsSafe {reg = reg} {s = s} k (unassigns replica e) h = rw e (unassign-IsSafe reg replica s h)
Step-IsSafe {reg = reg} {s = s} k (reassigns node e) h =
    rw e (unfold reassign_node in unassign_all-IsSafe reg (replicas_on node s.assignments) s h)

pub Reach-IsSafe :
    {fl : Floats} {reg : Registry} {s t : Scheduler}
    → IsKeyed reg
    → IsSafe reg s
    → Reach fl reg s t
    → IsSafe reg t
Reach-IsSafe k h start = h
Reach-IsSafe k h (next r step) = Step-IsSafe k step (Reach-IsSafe k h r)

-- A node within its capacity is not reported.
overloads-AllFit :
    (reg : Registry) (s : Scheduler) (ids : List String) → AllFit reg s → overloads reg s ids ≡ []
unfolding overloads over_capacity
overloads-AllFit reg s [] h = refl
overloads-AllFit reg s (id ∷ ids) h = elim (Option-cases (Registry.get id reg)) [
  | inl missing ↦ ground (arith, missing, overloads-AllFit reg s ids h)
  | inr (n, found) ↦ ground (arith, found, h.at_node id n found, overloads-AllFit reg s ids h)
]

-- From a state with no node beyond its capacity, as long as the registered nodes stay as they are, each
-- with less than 2 ^ 40 millicores and megabytes, and every request is from 0 to below 2 ^ 62: no sequence of `Assign`,
-- `Unassign` and `ReassignNode` makes `Overcommitted` report a node, and in each state that is reached no sum
-- that the code makes of a registered node's load and of a request as small wraps around in 64 bits.
pub Reach-overcommitted :
    {fl : Floats} {reg : Registry} {s t : Scheduler}
    → IsKeyed reg
    → HasSmallNodes reg
    → IsSafe reg s
    → Reach fl reg s t
    → (overcommitted reg t ≡ []) × NoWrap reg t
unfolding overcommitted
Reach-overcommitted {reg = reg} {t = t} k nodes h r =
    let safe = Reach-IsSafe k h r in
    (
      ap (sort (λ a b. str_lt a.node_id b.node_id))
          (overloads-AllFit reg t (used_nodes t.assignments) safe.all),
      AllFit-NoWrap reg t nodes safe.clean safe.all,
    )
