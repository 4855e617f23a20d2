-- ===== src/Server/Invariant.antt =====
-- The state that the handlers of internal/api/server.go keep sound together.
use smith.Desired.{Store, store_remove, store_add}
use smith.Floats.{Floats}
use smith.Prelude.Text.{◌==◌}
use smith.Prelude.{ℕ, String, inl, inr, Option, none, some, Bool-cases, Option-cases, Result-cases}
use smith.Registry.Liveness.{IsKeyed, heartbeat-IsKeyed}
use smith.Registry.{heartbeat, Registry}
use smith.Scheduler.Consistency.{IsConsistent}
use smith.Scheduler.{Scheduler}
use smith.Server.Tables.{
  handle_add_ingress, handle_remove_service, handle_add_service, handle_remove_ingress,
}
use smith.Server.{
  remove_node, remove_workload, Server, register_node, add_workload, enact_rebalance,
  validate_workload, node_heartbeat,
}
use smith.Stores.Ingresses.{IngressStore}
use smith.Stores.Services.Addresses.{add_service-IsAddressed}
use smith.Stores.Services.Allocation.{IsAddressed}
use smith.Stores.Services.{add_service, ServiceStore}
use smith.Stores.Subnets.Unique.{IsAllocated}
use smith.Stores.Subnets.{SubnetAllocator}
use smith.Stores.Workloads.Refinement.{refused}
use smith.Stores.{Faults}
use smith.Types.{Node, Service, Ingress, Workload}

-- a predicate on a store that may not be wired
abbrev pub IfWired {ℓ} : {A : Type ℓ} → (A → Type 0) → Option A → Type 0
IfWired P none = Unit
IfWired P (some a) = P a

pub record IsSound (s : Server) : Type 0 where
  pub nodes : IsKeyed s.registry
  pub replicas : IsConsistent s.scheduler
  pub subnets : IfWired IsAllocated s.allocator
  pub addresses : IfWired IsAddressed s.services

-- One request that may change the state.
pub data Request (fl : Floats) (s : Server) : Server → Type 0 where
  adds_workload : (body : Option Workload) → Request fl s (add_workload body s).0
  removes_workload : (faults : Faults) (id : String) → Request fl s (remove_workload faults id s).0
  registers :
      (faults : Faults) (now : ℕ) (body : Option Node)
      → Request fl s (register_node faults now body s).0
  beats : (now : ℕ) (id : String) → Request fl s (node_heartbeat now id s).0
  rebalances : (now : ℕ) → Request fl s (enact_rebalance fl now s).0
  decommissions : (faults : Faults) (id : String) → Request fl s (remove_node faults id s).0
  adds_service :
      (faults : Faults) (body : Option Service) → Request fl s (handle_add_service faults body s).0
  removes_service :
      (faults : Faults) (name : String) → Request fl s (handle_remove_service faults name s).0
  adds_ingress :
      (faults : Faults) (body : Option Ingress) → Request fl s (handle_add_ingress faults body s).0
  removes_ingress :
      (faults : Faults) (host : String) → Request fl s (handle_remove_ingress faults host s).0

module _ (s : Server) (h : IsSound s) where
  pub with_store : (store : Store) → IsSound (record s { store = store })
  with_store store = record {
    nodes = h.nodes;
    replicas = h.replicas;
    subnets = h.subnets;
    addresses = h.addresses;
  }

  pub with_registry : (reg : Registry) → IsKeyed reg → IsSound (record s { registry = reg })
  with_registry reg k = record {
    nodes = k;
    replicas = h.replicas;
    subnets = h.subnets;
    addresses = h.addresses;
  }

  pub with_scheduler :
      (sched : Scheduler) → IsConsistent sched → IsSound (record s { scheduler = sched })
  with_scheduler sched k = record {
    nodes = h.nodes;
    replicas = k;
    subnets = h.subnets;
    addresses = h.addresses;
  }

  pub with_allocator :
      (a : SubnetAllocator) → IsAllocated a → IsSound (record s { allocator = some a })
  with_allocator a k = record {
    nodes = h.nodes;
    replicas = h.replicas;
    subnets = k;
    addresses = h.addresses;
  }

  pub with_services : (t : ServiceStore) → IsAddressed t → IsSound (record s { services = some t })
  with_services t k = record {
    nodes = h.nodes;
    replicas = h.replicas;
    subnets = h.subnets;
    addresses = k;
  }

  pub with_ingresses : (t : IngressStore) → IsSound (record s { ingresses = some t })
  with_ingresses t = record {
    nodes = h.nodes;
    replicas = h.replicas;
    subnets = h.subnets;
    addresses = h.addresses;
  }

  pub add_workload-IsSound : (body : Option Workload) → IsSound (add_workload body s).0
  unfolding add_workload
  add_workload-IsSound none = h
  add_workload-IsSound (some wl) = elim (Result-cases (validate_workload wl)) [
    | inl (e, invalid) ↦ rw (invalid, add_workload) h
    | inr (u, valid) ↦ elim (Option-cases (store_add wl s.store).1) [
      | inl added ↦
          rw (valid, add_workload) (rw (added, add_workload) (with_store (store_add wl s.store).0))
      | inr (e, refused) ↦
          rw (valid, add_workload)
            (rw (refused, add_workload) (with_store (store_add wl s.store).0))
    ]
  ]

  pub remove_workload-IsSound :
      (faults : Faults) (id : String) → IsSound (remove_workload faults id s).0
  unfolding remove_workload
  remove_workload-IsSound faults id = elim (Bool-cases (id == "")) [
    | inl missing ↦ unfold remove_workload in rw missing h
    | inr named ↦ elim (Bool-cases faults.write) [
      | inl failed ↦ unfold remove_workload in rw named (rw failed h)
      | inr fine ↦
          unfold remove_workload in rw named (rw fine (with_store (store_remove id s.store)))
    ]
  ]

  pub node_heartbeat-IsSound : (now : ℕ) (id : String) → IsSound (node_heartbeat now id s).0
  unfolding node_heartbeat
  node_heartbeat-IsSound now id = elim (Bool-cases (id == "")) [
    | inl missing ↦ rw (missing, node_heartbeat) h
    | inr named ↦
        let kept =
          with_registry (heartbeat now id s.registry).0
            (heartbeat-IsKeyed now id s.registry h.nodes) in
        elim (Option-cases (heartbeat now id s.registry).1) [
          | inl known ↦ rw (named, node_heartbeat) (rw (known, node_heartbeat) kept)
          | inr (e, unknown) ↦ rw (named, node_heartbeat) (rw (unknown, node_heartbeat) kept)
        ]
  ]

  pub handle_add_service-IsSound :
      (faults : Faults) (body : Option Service) → IsSound (handle_add_service faults body s).0
  unfolding handle_add_service
  handle_add_service-IsSound faults body = elim (Option-cases s.services) [
    | inl unwired ↦ rw (unwired, handle_add_service) h
    | inr (t, wired) ↦ elim (Option-cases body) [
      | inl undecoded ↦ rw (wired, handle_add_service) (rw (undecoded, handle_add_service) h)
      | inr (svc, decoded) ↦
          let kept =
            with_services (add_service faults svc t).0
              (add_service-IsAddressed faults svc t (rw wired at h.addresses)) in
          elim (Result-cases (add_service faults svc t).1) [
            | inl (e, refused) ↦
                rw (wired, handle_add_service)
                  (rw (decoded, handle_add_service) (rw (refused, handle_add_service) kept))
            | inr (out, added) ↦
                rw (wired, handle_add_service)
                  (rw (decoded, handle_add_service) (rw (added, handle_add_service) kept))
          ]
    ]
  ]
