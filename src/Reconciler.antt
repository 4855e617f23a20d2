-- ===== src/Reconciler.antt =====
-- internal/reconciler/reconciler.go: one pass of the reconciler against the agents of the nodes.
-- The HTTP calls to the agents are a trace, the newest first; what an agent answers, and the time,
-- may depend on the calls so far. A call that could not be built or sent counts as failed. Logging is
-- not modelled, nor the ticker, which runs one pass at a time. Reconciler/Pass has the pass itself.
pub mod Pass
pub mod Eviction
use smith.Desired.{Instance, request_of_workload, spec_hash, Canonical, rollout_budget}
use smith.Floats.{Floats}
use smith.Prelude.Assoc
use smith.Prelude.Names.{contains}
use smith.Prelude.Text.{◌==◌}
use smith.Prelude.{
  ℕ, suc, String, Bool, true, false, not, ◌&&◌, Option, none, some, List, [], ◌∷◌, ◌++◌, ltb, err,
  ok, if◌then◌else◌,
}
use smith.Registry
use smith.Registry.{Registry}
use smith.Scheduler.{assign, unassign, Scheduler, reassign_node}
use smith.Types.{Workload, no_workload, Node}

-- a call to the agent at an address: POST /assign, DELETE /assign/<id>, GET /status
pub data Call : Type 0 where
  post_assign : String → Workload → Call
  delete_assign : String → String → Call
  get_status : String → Call

-- The agents and the clock.
pub record Network : Type 0 where
  pub accepts : List Call → Call → Bool
  pub statuses : List Call → String → Option (List (String × String))
  pub clock : List Call → ℕ

pub record PushRecord : Type 0 where
  pub node_id : String
  pub pushed_at : ℕ
  pub hash : String

-- The reconciler, the scheduler and the registry that it points to, and the calls.
pub record World : Type 0 where
  pub scheduler : Scheduler
  pub registry : Registry
  pub pushed : List (String × PushRecord)
  pub calls : List Call

-- `delete(r.pushed, id)` for each of the IDs
unfoldable pub forget_all : List String → List (String × PushRecord) → List (String × PushRecord)
forget_all [] pushed = pushed
forget_all (id ∷ ids) pushed = forget_all ids (Assoc.delete id pushed)

-- the loop over the dead nodes
unfoldable pub evict_node : Node → World → World
unfolding forget_all
evict_node n w =
    let (after, evicted) = reassign_node n.id w.scheduler in
    record w {
      scheduler = after;
      registry = Registry.remove n.id w.registry;
      pushed = forget_all evicted w.pushed;
    }

unfoldable pub evict_nodes : List Node → World → World
unfolding evict_node
evict_nodes [] w = w
evict_nodes (n ∷ nodes) w = evict_nodes nodes (evict_node n w)

-- the replicas that one status answer reports as Running
unfoldable pub running_in : List (String × String) → List String
running_in [] = []
running_in ((id, status) ∷ rest) =
    let more = running_in rest in if status == "running" then id ∷ more else more

-- how many replicas of a workload are not Running
unfoldable pub unavailable_in : List String → List (String × Instance) → String → ℕ
unavailable_in running [] parent = 0
unavailable_in running ((id, inst) ∷ rest) parent =
    let more = unavailable_in running rest parent in
    if not (contains running inst.wl.id) && inst.parent == parent then suc more else more

module _ (net : Network) where
  unfoldable pub send : Call → World → World × Bool
  send c w = (record w { calls = c ∷ w.calls }, net.accepts w.calls c)

  unfoldable pub push_assignment : Node → Workload → World → World × Bool
  unfolding send
  push_assignment node wl w = send (post_assign node.addr wl) w

  unfoldable pub push_unassign : Node → String → World → World × Bool
  unfolding send
  push_unassign node id w = send (delete_assign node.addr id) w

  unfoldable pub fetch_agent_status : Node → World → World × Option (List (String × String))
  fetch_agent_status node w =
      (record w { calls = get_status node.addr ∷ w.calls }, net.statuses w.calls node.addr)

  -- the loop of `clusterRunning`
  unfoldable pub running_on : List Node → World → World × List String
  unfolding fetch_agent_status running_in
  running_on [] w = (w, [])
  running_on (n ∷ nodes) w =
      let (fetched, status) = fetch_agent_status n w in
      let (after, more) = running_on nodes fetched in
      elim status [ none ↦ (after, more) | some s ↦ (after, running_in s ++ more) ]

  unfoldable pub cluster_running : World → World × List String
  unfolding running_on
  cluster_running w = running_on (Registry.alive (net.clock w.calls) w.registry) w

  unfoldable pub record_push : String → String → String → World → World
  record_push id node_id hash w = record w {
    pushed =
        Assoc.insert id (record { node_id = node_id; pushed_at = net.clock w.calls; hash = hash })
          w.pushed;
  }

  -- the old container first; an error there is only logged
  unfoldable pub relocate : String → Node → Workload → World → World × Bool
  unfolding push_assignment push_unassign
  relocate old_id new_node wl w = elim (Registry.get old_id w.registry) [
    | none ↦ push_assignment new_node wl w
    | some old_node ↦ push_assignment new_node wl (push_unassign old_node wl.id w).0
  ]
