-- ===== src/Agent/Pulling/Serving.antt =====
-- A round of syncServices of internal/agent/agent.go against the control plane of
-- internal/api/server.go.
use mathlib.Core.Path.{subst}
use text.Mathlib.Text.{starts_with}
use smith.Agent.Pulling.{sync_services, fetched}
use smith.Agent.Registration.{answered, decoded}
use smith.Network.Services.Chains.{rules_of, chain_rules, DistinctChains}
use smith.Network.Services.Ports.{Proxy, sync_proxy}
use smith.Network.Services.Whole.{sync_proxy-synced}
use smith.Network.Services.{is_desired_chain, Texts, nat_table, service_chain}
use smith.Network.{Iptables, IsIptables}
use smith.Prelude.Assoc
use smith.Prelude.Int.{ℤ}
use smith.Prelude.{
  String, ◌≡◌, refl, sym, ap, ◌∙◌, ◌↔◌, Bool, true, false, not, ◌&&◌, Option, none, some, List, [],
  map, All-Elem, Elem-map, Elem,
}
use smith.Scheduler.{list_assignments}
use smith.Server.Tables.Routes.{collect-IsEndpoint, IsEndpoint}
use smith.Server.Tables.{ContainerStatus, compute_endpoints, endpoints_entry}
use smith.Server.{Server}
use smith.Stores.Services.{list_services, ServiceStore, service_of}
use smith.Stores.{Faults}
use smith.Types.{Service, ServiceEndpoints}

compute_endpoints_listed :
    (statuses : String → String → Option ContainerStatus) (faults : Faults) (s : Server)
    (t : ServiceStore)
    → s.services ≡ some t
    → faults.scan ≡ false
    → compute_endpoints statuses faults s
      ≡ map
          (endpoints_entry statuses (list_assignments s.scheduler))
          (map (λ e. service_of e.0 e.1) t.rows)
unfolding compute_endpoints list_services
compute_endpoints_listed statuses faults s t wired listed = rw wired (rw listed refl)

module _ (ipt : Iptables) (tx : Texts) (statuses : String → String → Option ContainerStatus) where
  -- `nodeServices` answers with what `computeEndpoints` gives
  unfoldable pub services_round : Faults → Server → Proxy ipt → Proxy ipt
  services_round faults s p =
      sync_services ipt tx (answered 200 (decoded (compute_endpoints statuses faults s))) p

  services_round-sync_proxy :
      (faults : Faults) (s : Server) (p : Proxy ipt)
      → services_round faults s p ≡ (sync_proxy ipt tx (compute_endpoints statuses faults s) p).0
  unfolding services_round sync_services fetched
  services_round-sync_proxy faults s p = refl

module _ (ipt : Iptables) (laws : IsIptables ipt) (tx : Texts)
    (statuses : String → String → Option ContainerStatus) where
  -- When the control plane can read its services, no two of which have the same name of a chain, and no
  -- command of iptables fails, a round of an agent leaves for each stored service a chain that marks a
  -- packet and balances it in equal shares over the IPs of the replicas of the service's workload that their
  -- nodes report as running, with the service's protocol, or tcp, and to its target port.
  pub services_round-serves :
      (faults : Faults) (s : Server) (t : ServiceStore) (rules : ipt.State)
      (ports : List (ℤ × String)) (svc : Service)
      → s.services ≡ some t
      → faults.scan ≡ false
      → DistinctChains tx (compute_endpoints statuses faults s)
      → (sync_proxy ipt tx (compute_endpoints statuses faults s) (rules, ports)).1 ≡ false
      → Elem svc (map (λ e. service_of e.0 e.1) t.rows)
      → (endpoints : List String) × (ipt.rules
            (services_round ipt tx statuses faults s (rules, ports)).0
            nat_table
            (service_chain tx svc.name)
          ≡ some (chain_rules tx svc.protocol svc.target_port endpoints))
        × ((ip : String)
            → Elem ip endpoints
              ↔ IsEndpoint statuses svc.workload_id (list_assignments s.scheduler) ip)
  unfolding endpoints_entry
  services_round-serves faults s t rules ports svc wired listed distinct applied member =
      let services = compute_endpoints statuses faults s in
      let entry = endpoints_entry statuses (list_assignments s.scheduler) svc in
      let (filled, dispatched, removed) =
        sync_proxy-synced ipt laws tx services rules ports "" distinct applied in
      let there : Elem entry services =
        subst (Elem entry) (sym (compute_endpoints_listed statuses faults s t wired listed))
          (Elem-map (endpoints_entry statuses (list_assignments s.scheduler)) svc _ member) in
      (
        entry.endpoints,
        ap (λ (q : Proxy ipt). ipt.rules q.0 nat_table (service_chain tx svc.name))
              (services_round-sync_proxy ipt tx statuses faults s (rules, ports))
            ∙ All-Elem
                (λ (v : ServiceEndpoints).
                  ipt.rules (sync_proxy ipt tx services (rules, ports)).0.0 nat_table
                    (service_chain tx v.name)
                  ≡ some (rules_of tx v))
                entry services filled there,
        collect-IsEndpoint statuses svc.workload_id (list_assignments s.scheduler),
      )

  -- When the control plane cannot read its services, a round of an agent in which no command of iptables
  -- fails removes every chain of a service.
  pub services_round-unread :
      (faults : Faults) (s : Server) (t : ServiceStore) (rules : ipt.State)
      (ports : List (ℤ × String)) (c : String)
      → s.services ≡ some t
      → faults.scan ≡ true
      → (sync_proxy ipt tx (compute_endpoints statuses faults s) (rules, ports)).1 ≡ false
      → starts_with c "SMITH-SVC-" ≡ true
      → ipt.rules (services_round ipt tx statuses faults s (rules, ports)).0 nat_table c ≡ none
  unfolding compute_endpoints list_services
  services_round-unread faults s t rules ports c wired failed applied named =
      let none_listed : compute_endpoints statuses faults s ≡ [] = rw wired (rw failed refl) in
      let services = compute_endpoints statuses faults s in
      let distinct = subst (DistinctChains tx) (sym none_listed) tt in
      let (filled, dispatched, removed) =
        sync_proxy-synced ipt laws tx services rules ports c distinct applied in
      ap (λ (q : Proxy ipt). ipt.rules q.0 nat_table c)
        (services_round-sync_proxy ipt tx statuses faults s (rules, ports))
      ∙ gone (ipt.rules (sync_proxy ipt tx services (rules, ports)).0.0 nat_table c)
          (starts_with c "SMITH-SVC-") (is_desired_chain tx services c) named
          (ap (λ l. is_desired_chain tx l c) none_listed) removed
    where
      gone :
          (o : Option (List (List String))) (prefix desired : Bool)
          → prefix ≡ true
          → desired ≡ false
          → (prefix && not desired) && Assoc.is_some o ≡ false
          → o ≡ none
      gone none prefix desired p d e = refl
      gone (some r) true false p d e = cc
      gone (some r) false desired p d e = cc
      gone (some r) prefix true p d e = cc
