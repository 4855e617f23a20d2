-- ===== src/Reconciler/Pass/Rolling/Paced.antt =====
-- The pace of a rollout over the whole loop of a pass of internal/reconciler/reconciler.go.
use smith.Desired.Expand.{expand-IsReplica}
use smith.Desired.{Instance, rollout_budget, expand}
use smith.Floats.{Floats}
use smith.Prelude.Assoc.{lookup, lookup_or}
use smith.Prelude.Names.{contains}
use smith.Prelude.Text.{◌==◌}
use smith.Prelude.{
  ℕ, ◌+◌, ◌≤◌, String, ◌≡◌, ap, ◌⊎◌, Bool, false, ◌&&◌, Option, none, some, List, [], ◌∷◌,
  if◌then◌else◌,
}
use smith.Reconciler.Pass.Rolling.{changed}
use smith.Reconciler.Pass.{Pass}
use smith.Reconciler.{PushRecord}
use smith.Types.{Workload, no_workload}

-- each replica is the one of its ID
abbrev pub AreNamed : List (String × Instance) → Type 0
AreNamed desired = (id : String) (inst : Instance) → lookup id desired ≡ some inst → inst.wl.id ≡ id

abbrev belongs : String → Option Instance → Bool
belongs q none = false
belongs q (some inst) = inst.parent == q

-- how many of the replicas of a workload have been pushed again to their nodes with another spec
abbrev pub rolled :
    List (String × Instance)
    → String
    → List (String × PushRecord)
    → List (String × PushRecord)
    → List String
    → ℕ
rolled desired q before after [] = 0
rolled desired q before after (id ∷ ids) =
    (if belongs q (lookup id desired) && changed (lookup id before) (lookup id after) then 1 else 0)
    + rolled desired q before after ids

-- no ID twice
abbrev pub Once : List String → Type 0
Once [] = Unit
Once (id ∷ ids) = (contains ids id ≡ false) × Once ids

-- The count of the unavailable replicas has grown by the number of those that were rolled; and if any was,
-- it is within the budget.
abbrev pub IsPaced :
    List (String × Workload)
    → List (String × Instance)
    → String
    → List String
    → Pass
    → Pass
    → Type 0
IsPaced stored desired q ids p after =
    (after.unavailable q ≡ p.unavailable q + rolled desired q p.world.pushed after.world.pushed ids)
    × ((rolled desired q p.world.pushed after.world.pushed ids ≡ 0)
        ⊎ (p.unavailable q + rolled desired q p.world.pushed after.world.pushed ids
            ≤ rollout_budget (lookup_or no_workload q stored)))

-- the replicas of the stored workloads stand under their IDs
pub expand-AreNamed : (stored : List (String × Workload)) → AreNamed (expand stored)
expand-AreNamed stored id inst found =
    ap (λ (w : Workload). w.id) ((expand-IsReplica stored).0 id inst found).built
