-- ===== src/Tests/Pulling.antt =====
-- A round of an agent of internal/agent/agent.go on a node with a chain of a service that is gone.
use smith.Agent.Pulling.Serving.{services_round, services_round-serves, services_round-unread}
use smith.Network.Services.Chains.{chain_rules, DistinctChains}
use smith.Network.Services.Ports.{
  set_port, open_port, unset_port, wanted_ports, close_port, sync_node_ports, open_ports,
  close_ports, sync_proxy,
}
use smith.Network.Services.{
  build_chains, sync_chains, remove_stale, nat_table, populate_service_chain, ensure_base_chains,
  populate_services_chain, ensure_chain, append_backends, service_chain, append_dispatch,
  cleanup_stale_chains,
}
use smith.Prelude.Assoc
use smith.Prelude.Int.{pos}
use smith.Prelude.{String, ◌≡◌, refl, ◌↔◌, inl, true, false, none, some, List, [], Elem}
use smith.Scheduler.{list_assignments}
use smith.Server.Tables.Routes.{IsEndpoint}
use smith.Server.Tables.{compute_endpoints}
use smith.Stores.Services.{service_of}
use smith.Stores.{Faults, no_faults}
use smith.Tests.Chains.{before_sync, chain_texts}
use smith.Tests.Data.{one_replica_on_a}
use smith.Tests.Iptables.{table_rules, table_ipt-IsIptables, table_ipt}
use smith.Tests.Serving.{all_running, routed}
use smith.Tests.Tables.{web_stored, web_row}

abbrev unreadable : Faults
unreadable = record no_faults { scan = true }

round_applied :
    (sync_proxy
      (table_ipt nat_table)
      chain_texts
      (compute_endpoints all_running no_faults routed)
      (before_sync, [])).1
    ≡ false
unfolding compute_endpoints smith.Stores.Services.list_services smith.Prelude.collect
    list_assignments sync_proxy sync_node_ports wanted_ports set_port unset_port open_ports
    open_port close_ports close_port sync_chains ensure_base_chains ensure_chain build_chains
    populate_service_chain append_backends populate_services_chain append_dispatch
    cleanup_stale_chains remove_stale Assoc.lookup Assoc.lookup_or Assoc.insert Assoc.delete
round_applied = refl

routed_distinct : DistinctChains chain_texts (compute_endpoints all_running no_faults routed)
unfolding compute_endpoints smith.Stores.Services.list_services
routed_distinct = (refl, tt)

services_round-serves_example :
    (endpoints : List String) × (table_rules nat_table
        (services_round
          (table_ipt nat_table)
          chain_texts
          all_running
          no_faults
          routed
          (before_sync, [])).0
        nat_table
        (service_chain chain_texts "web")
      ≡ some (chain_rules chain_texts "tcp" (pos 8080) endpoints))
    × ((ip : String)
        → Elem ip endpoints ↔ IsEndpoint all_running "web" (list_assignments one_replica_on_a) ip)
unfolding service_of
services_round-serves_example =
    services_round-serves (table_ipt nat_table) (table_ipt-IsIptables nat_table) chain_texts
      all_running no_faults routed web_stored before_sync [] (service_of "web" web_row) refl refl
      routed_distinct round_applied (inl refl)

unread_applied :
    (sync_proxy
      (table_ipt nat_table)
      chain_texts
      (compute_endpoints all_running unreadable routed)
      (before_sync, [])).1
    ≡ false
unfolding compute_endpoints smith.Stores.Services.list_services smith.Prelude.collect
    list_assignments sync_proxy sync_node_ports wanted_ports set_port unset_port open_ports
    open_port close_ports close_port sync_chains ensure_base_chains ensure_chain build_chains
    populate_service_chain append_backends populate_services_chain append_dispatch
    cleanup_stale_chains remove_stale Assoc.lookup Assoc.lookup_or Assoc.insert Assoc.delete
unread_applied = refl

services_round-unread_example :
    table_rules nat_table
      (services_round
        (table_ipt nat_table)
        chain_texts
        all_running
        unreadable
        routed
        (before_sync, [])).0
      nat_table
      "SMITH-SVC-old"
    ≡ none
services_round-unread_example =
    services_round-unread (table_ipt nat_table) (table_ipt-IsIptables nat_table) chain_texts
      all_running unreadable routed web_stored before_sync [] "SMITH-SVC-old" refl refl
      unread_applied refl
