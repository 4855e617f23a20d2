-- ===== src/Network/Services.antt =====
-- internal/runtime/service_proxy.go: the chains that balance a service over its replicas. The name of
-- a service's chain, a part of a hash, and the text of a probability are parameters.
pub mod Chains
pub mod Dispatch
pub mod Ports
pub mod Whole
pub mod Stale
pub mod Synced
use text.Mathlib.Text.{starts_with}
use smith.Network.{Iptables, ◌>=>◌}
use smith.Prelude.Decimal.{decimal}
use smith.Prelude.Int.{ℤ, pos, negsuc, ltb_ℤ}
use smith.Prelude.Text.{append, ◌==◌}
use smith.Prelude.{
  ℕ, ◌+◌, String, Bool, true, false, not, ◌&&◌, ◌||◌, Option, none, some, List, [], ◌∷◌, length,
  ltb, if◌then◌else◌,
}
use smith.Types.{ServiceEndpoints}

abbrev pub nat_table : String
nat_table = "nat"

abbrev pub filter_table : String
filter_table = "filter"

abbrev pub services_chain : String
services_chain = "SMITH-SERVICES"

abbrev pub mark_chain : String
mark_chain = "SMITH-MARK-MASQ"

abbrev pub masq_mark : String
masq_mark = "0x4000/0x4000"

pub record Texts : Type 0 where
  -- the hexadecimal digits of the hash of a name, cut to twelve
  pub digest : String → String
  -- `%.5f` of one over a number
  pub probability : ℕ → String

abbrev pub service_chain : Texts → String → String
service_chain tx name = append "SMITH-SVC-" (tx.digest name)

-- `%d`
abbrev pub int_text : ℤ → String
int_text (pos n) = decimal n
int_text (negsuc n) = append "-" (decimal (n + 1))

abbrev pub or_tcp : String → String
or_tcp protocol = if protocol == "" then "tcp" else protocol

abbrev pub is_desired_chain : Texts → List ServiceEndpoints → String → Bool
is_desired_chain tx [] c = false
is_desired_chain tx (svc ∷ services) c =
    service_chain tx svc.name == c || is_desired_chain tx services c

abbrev pub mark_rule : List String
mark_rule = "-j" ∷ mark_chain ∷ []

-- the rule of an endpoint, with the number of endpoints from it on
abbrev pub backend_rule : Texts → ServiceEndpoints → ℕ → String → List String
backend_rule tx svc left ep =
    let dest = append ep (append ":" (int_text svc.target_port)) in
    if ltb 1 left
    then "-p"
      ∷ or_tcp svc.protocol
      ∷ "-m"
      ∷ "statistic"
      ∷ "--mode"
      ∷ "random"
      ∷ "--probability"
      ∷ tx.probability left
      ∷ "-j"
      ∷ "DNAT"
      ∷ "--to-destination"
      ∷ dest
      ∷ []
    else "-p" ∷ or_tcp svc.protocol ∷ "-j" ∷ "DNAT" ∷ "--to-destination" ∷ dest ∷ []

abbrev pub cluster_ip_rule : Texts → ServiceEndpoints → List String
cluster_ip_rule tx svc =
    "-d"
    ∷ append svc.cluster_ip "/32"
    ∷ "-p"
    ∷ or_tcp svc.protocol
    ∷ "--dport"
    ∷ int_text svc.port
    ∷ "-j"
    ∷ service_chain tx svc.name
    ∷ []

abbrev pub node_port_rule : Texts → ServiceEndpoints → List String
node_port_rule tx svc =
    "-p"
    ∷ or_tcp svc.protocol
    ∷ "-m"
    ∷ "addrtype"
    ∷ "--dst-type"
    ∷ "LOCAL"
    ∷ "--dport"
    ∷ int_text svc.node_port
    ∷ "-j"
    ∷ service_chain tx svc.name
    ∷ []

module _ (ipt : Iptables) (tx : Texts) where
  -- a command that does nothing
  abbrev pub done : ipt.State → ipt.State × Bool
  done s = (s, false)

  abbrev pub when_missing : Option Bool → String → ipt.State → ipt.State × Bool
  when_missing none c s = (s, true)
  when_missing (some true) c s = (s, false)
  when_missing (some false) c s = ipt.new_chain nat_table c s

  unfoldable pub ensure_chain : String → ipt.State → ipt.State × Bool
  ensure_chain c s = when_missing (ipt.has_chain nat_table c s) c s

  unfoldable pub ensure_base_chains : ipt.State → ipt.State × Bool
  ensure_base_chains =
      ensure_chain mark_chain
      >=> ipt.append_unique nat_table mark_chain ("-j" ∷ "MARK" ∷ "--set-xmark" ∷ masq_mark ∷ [])
      >=> ensure_chain services_chain
      >=> ipt.append_unique nat_table "PREROUTING" ("-j" ∷ services_chain ∷ [])
      >=> ipt.append_unique nat_table "OUTPUT" ("-j" ∷ services_chain ∷ [])
      >=> ipt.append_unique nat_table "POSTROUTING"
          ("-m" ∷ "mark" ∷ "--mark" ∷ masq_mark ∷ "-j" ∷ "MASQUERADE" ∷ [])

  -- the loop over the endpoints
  unfoldable pub append_backends :
      String → ServiceEndpoints → List String → ipt.State → ipt.State × Bool
  append_backends c svc [] = done
  append_backends c svc (ep ∷ endpoints) =
      ipt.append_rule nat_table c (backend_rule tx svc (length (ep ∷ endpoints)) ep)
      >=> append_backends c svc endpoints

  unfoldable pub populate_service_chain : String → ServiceEndpoints → ipt.State → ipt.State × Bool
  populate_service_chain c svc =
      ipt.clear_chain nat_table c
      >=> ipt.append_rule nat_table c mark_rule
      >=> append_backends c svc svc.endpoints

  -- the first loop of `Sync`
  unfoldable pub build_chains : List ServiceEndpoints → ipt.State → ipt.State × Bool
  build_chains [] = done
  build_chains (svc ∷ services) =
      ensure_chain (service_chain tx svc.name)
      >=> populate_service_chain (service_chain tx svc.name) svc
      >=> build_chains services

  abbrev pub append_when : Bool → List String → ipt.State → ipt.State × Bool
  append_when true r = ipt.append_rule nat_table services_chain r
  append_when false r = done

  unfoldable pub append_dispatch : List ServiceEndpoints → ipt.State → ipt.State × Bool
  append_dispatch [] = done
  append_dispatch (svc ∷ services) =
      append_when (not (svc.cluster_ip == "") && ltb_ℤ (pos 0) svc.port) (cluster_ip_rule tx svc)
      >=> append_when (ltb_ℤ (pos 0) svc.node_port) (node_port_rule tx svc)
      >=> append_dispatch services

  unfoldable pub populate_services_chain : List ServiceEndpoints → ipt.State → ipt.State × Bool
  populate_services_chain services =
      ipt.clear_chain nat_table services_chain >=> append_dispatch services

  abbrev pub is_stale : List ServiceEndpoints → String → Bool
  is_stale services c = starts_with c "SMITH-SVC-" && not (is_desired_chain tx services c)

  unfoldable pub remove_stale : List ServiceEndpoints → List String → ipt.State → ipt.State × Bool
  remove_stale services [] = done
  remove_stale services (c ∷ chains) =
      (if is_stale services c
        then (ipt.clear_chain nat_table c >=> ipt.delete_chain nat_table c)
        else done)
      >=> remove_stale services chains

  abbrev pub remove_listed :
      List ServiceEndpoints → Option (List String) → ipt.State → ipt.State × Bool
  remove_listed services none s = (s, true)
  remove_listed services (some chains) s = remove_stale services chains s

  unfoldable pub cleanup_stale_chains : List ServiceEndpoints → ipt.State → ipt.State × Bool
  cleanup_stale_chains services s = remove_listed services (ipt.list_chains nat_table s) s

  -- `Sync` as far as the nat table goes
  unfoldable pub sync_chains : List ServiceEndpoints → ipt.State → ipt.State × Bool
  sync_chains services =
      ensure_base_chains
      >=> build_chains services
      >=> populate_services_chain services
      >=> cleanup_stale_chains services
