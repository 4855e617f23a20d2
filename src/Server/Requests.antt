-- ===== src/Server/Requests.antt =====
-- Every handler of internal/api/server.go keeps the state sound.
use smith.Floats.{Floats}
use smith.Prelude.Text.{◌==◌}
use smith.Prelude.{ℕ, String, inl, inr, Option, none, some, Bool-cases, Option-cases, Result-cases}
use smith.Registry
use smith.Registry.Liveness.{remove-IsKeyed, register-IsKeyed}
use smith.Registry.{register, Registry}
use smith.Scheduler.Consistency.{unassign_all-IsConsistent}
use smith.Scheduler.Plan.Kept.{rebalance-IsConsistent}
use smith.Scheduler.Plan.{rebalance}
use smith.Scheduler.{replicas_on, reassign_node}
use smith.Server.Invariant.{
  registers, Request, decommissions, node_heartbeat-IsSound, with_services, rebalances,
  adds_ingress, handle_add_service-IsSound, remove_workload-IsSound, add_workload-IsSound,
  removes_service, with_allocator, removes_ingress, IsSound, adds_service, with_registry, beats,
  removes_workload, with_scheduler, with_ingresses, adds_workload,
}
use smith.Server.Tables.{handle_add_ingress, handle_remove_service, handle_remove_ingress}
use smith.Server.{remove_node, evict_removed, Server, register_node, enact_rebalance}
use smith.Stores.Ingresses.{remove_ingress, add_ingress}
use smith.Stores.Services.Addresses.{remove_service-IsAddressed}
use smith.Stores.Services.{remove_service}
use smith.Stores.Subnets
use smith.Stores.Subnets.Unique.{allocate-IsAllocated, release-IsAllocated}
use smith.Stores.Subnets.{release}
use smith.Stores.Workloads.Refinement.{refused}
use smith.Stores.{Faults}
use smith.Types.{Node, Ingress}

module _ (s : Server) (h : IsSound s) where
  handle_remove_service-IsSound :
      (faults : Faults) (name : String) → IsSound (handle_remove_service faults name s).0
  unfolding handle_remove_service
  handle_remove_service-IsSound faults name = elim (Option-cases s.services) [
    | inl unwired ↦ rw (unwired, handle_remove_service) h
    | inr (t, wired) ↦ elim (Bool-cases (name == "")) [
      | inl missing ↦ rw (wired, handle_remove_service) (rw missing h)
      | inr named ↦
          let kept =
            with_services s h (remove_service faults name t).0
              (remove_service-IsAddressed faults name t (rw wired at h.addresses)) in
          elim (Option-cases (remove_service faults name t).1) [
            | inl removed ↦
                rw (wired, handle_remove_service)
                  (rw named (rw (removed, handle_remove_service) kept))
            | inr (e, failed) ↦
                rw (wired, handle_remove_service)
                  (rw named (rw (failed, handle_remove_service) kept))
          ]
    ]
  ]

  handle_add_ingress-IsSound :
      (faults : Faults) (body : Option Ingress) → IsSound (handle_add_ingress faults body s).0
  unfolding handle_add_ingress
  handle_add_ingress-IsSound faults body = elim (Option-cases s.ingresses) [
    | inl unwired ↦ rw (unwired, handle_add_ingress) h
    | inr (t, wired) ↦ elim (Option-cases body) [
      | inl undecoded ↦ rw (wired, handle_add_ingress) (rw (undecoded, handle_add_ingress) h)
      | inr (ing, decoded) ↦
          let kept = with_ingresses s h (add_ingress faults ing t).0 in
          elim (Option-cases (add_ingress faults ing t).1) [
            | inl added ↦
                rw (wired, handle_add_ingress)
                  (rw (decoded, handle_add_ingress) (rw (added, handle_add_ingress) kept))
            | inr (e, refused) ↦
                rw (wired, handle_add_ingress)
                  (rw (decoded, handle_add_ingress) (rw (refused, handle_add_ingress) kept))
          ]
    ]
  ]

  handle_remove_ingress-IsSound :
      (faults : Faults) (host : String) → IsSound (handle_remove_ingress faults host s).0
  unfolding handle_remove_ingress
  handle_remove_ingress-IsSound faults host = elim (Option-cases s.ingresses) [
    | inl unwired ↦ rw (unwired, handle_remove_ingress) h
    | inr (t, wired) ↦ elim (Bool-cases (host == "")) [
      | inl missing ↦ rw (wired, handle_remove_ingress) (rw missing h)
      | inr named ↦
          let kept = with_ingresses s h (remove_ingress faults host t).0 in
          elim (Option-cases (remove_ingress faults host t).1) [
            | inl removed ↦
                rw (wired, handle_remove_ingress)
                  (rw named (rw (removed, handle_remove_ingress) kept))
            | inr (e, failed) ↦
                rw (wired, handle_remove_ingress)
                  (rw named (rw (failed, handle_remove_ingress) kept))
          ]
    ]
  ]

  register_node-IsSound :
      (faults : Faults) (now : ℕ) (body : Option Node) → IsSound (register_node faults now body s).0
  unfolding register_node
  register_node-IsSound faults now none = h
  register_node-IsSound faults now (some node) =
      let seen =
        with_registry s h (register now node s.registry)
          (register-IsKeyed now node s.registry h.nodes) in
      elim (Option-cases s.allocator) [
        | inl unwired ↦ rw (unwired, register_node) seen
        | inr (a, wired) ↦
            let kept =
              with_allocator _ seen (Subnets.allocate faults node.id a).0
                (allocate-IsAllocated faults node.id a (rw wired at h.subnets)) in
            elim (Result-cases (Subnets.allocate faults node.id a).1) [
              | inl (e, failed) ↦ rw (wired, register_node) (rw (failed, register_node) kept)
              | inr (cfg, given) ↦ rw (wired, register_node) (rw (given, register_node) kept)
            ]
      ]

evict_removed-IsSound : (id : String) (s : Server) → IsSound s → IsSound (evict_removed id s).0
unfolding evict_removed reassign_node
evict_removed-IsSound id s h =
    with_scheduler s h (reassign_node id s.scheduler).0
      (unassign_all-IsConsistent (replicas_on id s.scheduler.assignments) s.scheduler h.replicas)

remove_node-IsSound :
    (faults : Faults) (id : String) (s : Server) → IsSound s → IsSound (remove_node faults id s).0
unfolding remove_node
remove_node-IsSound faults id s h = elim (Bool-cases (id == "")) [
  | inl missing ↦ rw (missing, remove_node) h
  | inr named ↦
      let gone =
        with_registry s h (Registry.remove id s.registry) (remove-IsKeyed id s.registry h.nodes) in
      elim (Option-cases s.allocator) [
        | inl unwired ↦
            unfold remove_node in rw named (rw unwired (evict_removed-IsSound id _ gone))
        | inr (a, wired) ↦
            let kept =
              with_allocator _ gone (release faults id a).0
                (release-IsAllocated faults id a (rw wired at h.subnets)) in
            elim (Option-cases (release faults id a).1) [
              | inl released ↦
                  unfold remove_node in
                  rw named (rw wired (rw released (evict_removed-IsSound id _ kept)))
              | inr (e, failed) ↦ unfold remove_node in rw named (rw wired (rw failed kept))
            ]
      ]
]

-- Whatever request a handler gets and whichever statements fail, every node stays under its own ID, the
-- scheduler's maps in step, and subnets, addresses and ports unique and in their ranges.
pub Request-IsSound : {fl : Floats} {s t : Server} → Request fl s t → IsSound s → IsSound t
unfolding enact_rebalance
Request-IsSound {s = s} (adds_workload body) h = add_workload-IsSound s h body
Request-IsSound {s = s} (removes_workload faults id) h = remove_workload-IsSound s h faults id
Request-IsSound {s = s} (registers faults now body) h = register_node-IsSound s h faults now body
Request-IsSound {s = s} (beats now id) h = node_heartbeat-IsSound s h now id
Request-IsSound {fl} {s} (rebalances now) h =
    with_scheduler s h (rebalance fl now s.registry s.scheduler).0
      (rebalance-IsConsistent fl now s.registry s.scheduler h.replicas)
Request-IsSound {s = s} (decommissions faults id) h = remove_node-IsSound faults id s h
Request-IsSound {s = s} (adds_service faults body) h = handle_add_service-IsSound s h faults body
Request-IsSound {s = s} (removes_service faults name) h =
    handle_remove_service-IsSound s h faults name
Request-IsSound {s = s} (adds_ingress faults body) h = handle_add_ingress-IsSound s h faults body
Request-IsSound {s = s} (removes_ingress faults host) h =
    handle_remove_ingress-IsSound s h faults host
