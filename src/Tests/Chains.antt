-- ===== src/Tests/Chains.antt =====
-- internal/runtime/service_proxy.go on a nat table that holds its chains in a list.
use smith.Network.Services.Chains.{chain_rules}
use smith.Network.Services.Dispatch.{dispatch_rules}
use smith.Network.Services.Ports.{
  unset_port, sync_node_ports, open_port, close_port, wanted_ports, sync_proxy, close_ports,
  set_port, open_ports,
}
use smith.Network.Services.Whole.{sync_proxy-synced}
use smith.Network.Services.{
  service_chain, remove_stale, sync_chains, ensure_chain, populate_services_chain, Texts,
  append_dispatch, cleanup_stale_chains, append_backends, nat_table, populate_service_chain,
  mark_rule, ensure_base_chains, services_chain, build_chains, is_stale,
}
use smith.Prelude.Assoc
use smith.Prelude.Decimal.{decimal}
use smith.Prelude.Int.{ℤ, pos}
use smith.Prelude.Text.{append}
use smith.Prelude.{String, ◌≡◌, refl, false, ◌&&◌, some, List, [], ◌∷◌, All}
use smith.Tests.Iptables.{Table, table_ipt, table_ipt-IsIptables, table_rules}
use smith.Types.{ServiceEndpoints}

-- a hash that keeps the name
abbrev pub chain_texts : Texts
chain_texts = record { digest = λ name. name; probability = λ left. append "1/" (decimal left) }

abbrev proxied : List ServiceEndpoints
proxied =
    record {
      name = "web";
      cluster_ip = "10.0.0.7";
      port = pos 80;
      node_port = pos 30080;
      target_port = pos 8080;
      protocol = "";
      endpoints = "10.1.0.2" ∷ "10.1.0.3" ∷ [];
    }
    ∷ record {
      name = "db";
      cluster_ip = "";
      port = pos 0;
      node_port = pos 30432;
      target_port = pos 5432;
      protocol = "tcp";
      endpoints = "10.1.0.4" ∷ [];
    }
    ∷ []

-- the chain of a service that is gone
abbrev pub before_sync : Table
before_sync = ("SMITH-SVC-old", (mark_rule ∷ [])) ∷ []

-- a port that stays open, and one that no service asks for
abbrev open_before : List (ℤ × String)
open_before = (pos 30080, "udp") ∷ (pos 31000, "tcp") ∷ []

abbrev after_sync : Table
after_sync = (sync_proxy (table_ipt nat_table) chain_texts proxied (before_sync, open_before)).0.0

proxied_ports :
    (sync_proxy (table_ipt nat_table) chain_texts proxied (before_sync, open_before)).1 ≡ false
unfolding sync_proxy sync_node_ports wanted_ports set_port unset_port open_ports open_port
    close_ports close_port sync_chains ensure_base_chains ensure_chain build_chains
    populate_service_chain append_backends populate_services_chain append_dispatch
    cleanup_stale_chains remove_stale Assoc.lookup Assoc.lookup_or Assoc.insert Assoc.delete
proxied_ports = refl

sync_proxy-synced_example :
    All
      (λ svc.
        table_rules nat_table after_sync nat_table (service_chain chain_texts svc.name)
        ≡ some (chain_rules chain_texts svc.protocol svc.target_port svc.endpoints))
      proxied
    × (table_rules nat_table after_sync nat_table services_chain
        ≡ some (dispatch_rules chain_texts proxied))
    × (is_stale (table_ipt nat_table) chain_texts proxied "SMITH-SVC-old"
          && Assoc.is_some (table_rules nat_table after_sync nat_table "SMITH-SVC-old")
        ≡ false)
sync_proxy-synced_example =
    sync_proxy-synced (table_ipt nat_table) (table_ipt-IsIptables nat_table) chain_texts proxied
      before_sync open_before "SMITH-SVC-old" (refl, (refl, tt)) proxied_ports
