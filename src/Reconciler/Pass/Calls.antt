-- ===== src/Reconciler/Pass/Calls.antt =====
-- The calls that a round of internal/reconciler/reconciler.go makes for one replica.
use smith.Desired.{rollout_budget, Instance, spec_hash, Canonical}
use smith.Prelude.Assoc.{lookup_or, lookup}
use smith.Prelude.Names.{contains}
use smith.Prelude.{◌≤◌, ◌<◌, String, ◌≡◌, ◌≢◌, ◌⊎◌, true, false, none, some, List, ◌∷◌, arith}
use smith.Reconciler.Pass.{may_roll, Pass}
use smith.Reconciler.{Call, PushRecord, Network, post_assign, delete_assign}
use smith.Registry
use smith.Registry.{Registry}
use smith.Types.{Workload, Node, no_workload}

module _ (running : List String) (stored : List (String × Workload)) (node : Node)
    (node_id : String) (inst : Instance) (p : Pass) where
  -- What the round does, with the reason: nothing for a replica on its node that is up to date or may
  -- not be rolled, a first placement, a move with or without the
  -- old node, or a roll.
  pub data Calls (digest : Canonical → String) (after : List Call) : Type 0 where
    stays_put :
        (last : PushRecord)
        → lookup inst.wl.id p.world.pushed ≡ some last
        → last.node_id ≡ node_id
        → (last.hash ≡ spec_hash digest inst.wl)
          ⊎ (contains running inst.wl.id ≡ false)
          ⊎ (rollout_budget (lookup_or no_workload inst.parent stored) ≤ p.unavailable inst.parent)
        → after ≡ p.world.calls
        → Calls digest after
    newly_placed :
        lookup inst.wl.id p.world.pushed ≡ none
        → after ≡ post_assign node.addr inst.wl ∷ p.world.calls
        → Calls digest after
    moved_over :
        (last : PushRecord) (old : Node)
        → lookup inst.wl.id p.world.pushed ≡ some last
        → last.node_id ≢ node_id
        → Registry.get last.node_id p.world.registry ≡ some old
        → after ≡ post_assign node.addr inst.wl ∷ delete_assign old.addr inst.wl.id ∷ p.world.calls
        → Calls digest after
    left_behind :
        (last : PushRecord)
        → lookup inst.wl.id p.world.pushed ≡ some last
        → last.node_id ≢ node_id
        → Registry.get last.node_id p.world.registry ≡ none
        → after ≡ post_assign node.addr inst.wl ∷ p.world.calls
        → Calls digest after
    rolled_over :
        (last : PushRecord)
        → lookup inst.wl.id p.world.pushed ≡ some last
        → last.node_id ≡ node_id
        → last.hash ≢ spec_hash digest inst.wl
        → contains running inst.wl.id ≡ true
        → p.unavailable inst.parent < rollout_budget (lookup_or no_workload inst.parent stored)
        → (after ≡ delete_assign node.addr inst.wl.id ∷ p.world.calls)
          ⊎ (after
              ≡ post_assign node.addr inst.wl ∷ delete_assign node.addr inst.wl.id ∷ p.world.calls)
        → Calls digest after

module _ (net : Network) (digest : Canonical → String) where
  pub may_roll_passed :
      (running : List String) (stored : List (String × Workload)) (inst : Instance) (p : Pass)
      → may_roll net digest running stored inst p ≡ true
      → (contains running inst.wl.id ≡ true)
        × (p.unavailable inst.parent < rollout_budget (lookup_or no_workload inst.parent stored))
  unfolding may_roll
  may_roll_passed running stored inst p h = (ground arith, ground arith)
