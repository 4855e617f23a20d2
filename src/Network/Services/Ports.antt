-- ===== src/Network/Services/Ports.antt =====
-- internal/runtime/service_proxy.go: the ports of the node that the services open, `syncNodePorts`.
use smith.Network.Services.{int_text, sync_chains, filter_table, Texts, or_tcp}
use smith.Network.{◌>=>◌, Iptables}
use smith.Prelude.Assoc
use smith.Prelude.Int.{ℤ, pos, leb_ℤ, eqb_ℤ}
use smith.Prelude.{
  String, ◌≡◌, refl, Bool, true, false, Option, none, some, List, [], ◌∷◌, arith, if◌then◌else◌,
}
use smith.Types.{ServiceEndpoints}

abbrev pub find_port : ℤ → List (ℤ × String) → Option String
find_port port [] = none
find_port port ((k, protocol) ∷ ports) =
    if eqb_ℤ k port then some protocol else find_port port ports

-- `_, open := m[port]`
abbrev pub is_open : ℤ → List (ℤ × String) → Bool
is_open port ports = Assoc.is_some (find_port port ports)

-- `m[port] = protocol`
unfoldable pub set_port : ℤ → String → List (ℤ × String) → List (ℤ × String)
set_port port protocol [] = (port, protocol) ∷ []
set_port port protocol ((k, old) ∷ ports) =
    let rest = set_port port protocol ports in
    if eqb_ℤ k port then (port, protocol) ∷ ports else (k, old) ∷ rest

-- `delete(m, port)`
unfoldable pub unset_port : ℤ → List (ℤ × String) → List (ℤ × String)
unset_port port [] = []
unset_port port ((k, old) ∷ ports) =
    let rest = unset_port port ports in if eqb_ℤ k port then rest else (k, old) ∷ rest

pub find_port-set_port :
    (port asked : ℤ) (protocol : String) (ports : List (ℤ × String))
    → find_port asked (set_port port protocol ports)
      ≡ (if eqb_ℤ port asked then some protocol else find_port asked ports)
unfolding set_port
find_port-set_port port asked protocol [] = refl
find_port-set_port port asked protocol ((k, old) ∷ ports) =
    ground (arith, find_port-set_port port asked protocol ports)

pub find_port-unset_port :
    (port asked : ℤ) (ports : List (ℤ × String))
    → find_port asked (unset_port port ports)
      ≡ (if eqb_ℤ port asked then none else find_port asked ports)
unfolding unset_port
find_port-unset_port port asked [] = ground arith
find_port-unset_port port asked ((k, old) ∷ ports) =
    ground (arith, find_port-unset_port port asked ports)

-- what the services ask for
unfoldable pub wanted_ports : List ServiceEndpoints → List (ℤ × String) → List (ℤ × String)
wanted_ports [] want = want
wanted_ports (svc ∷ services) want = wanted_ports services (
    if leb_ℤ svc.node_port (pos 0) then want else set_port svc.node_port (or_tcp svc.protocol) want)

abbrev pub accept_rule : ℤ → String → List String
accept_rule port protocol = "-p" ∷ protocol ∷ "--dport" ∷ int_text port ∷ "-j" ∷ "ACCEPT" ∷ []

module _ (ipt : Iptables) where
  -- the rules of the node and the ports that are open
  abbrev pub Proxy : Type 0
  Proxy = ipt.State × List (ℤ × String)

  -- a command of iptables, and what becomes of the open ports unless it fails
  abbrev pub on_rules :
      (ipt.State → ipt.State × Bool)
      → (List (ℤ × String) → List (ℤ × String))
      → Proxy
      → Proxy × Bool
  on_rules m update (s, ports) =
      let (s', failed) = m s in if failed then ((s', ports), true) else ((s', update ports), false)

  unfoldable pub open_port : ℤ → String → Proxy → Proxy × Bool
  open_port port protocol (s, ports) =
      if is_open port ports
      then ((s, ports), false)
      else on_rules (ipt.append_unique filter_table "INPUT" (accept_rule port protocol))
          (set_port port protocol) (s, ports)

  unfoldable pub open_ports : List (ℤ × String) → Proxy → Proxy × Bool
  open_ports [] p = (p, false)
  open_ports ((port, protocol) ∷ want) p = (open_port port protocol >=> open_ports want) p

  unfoldable pub close_port : List (ℤ × String) → ℤ → String → Proxy → Proxy × Bool
  close_port want port protocol (s, ports) =
      if is_open port want
      then ((s, ports), false)
      else on_rules (ipt.delete_if_exists filter_table "INPUT" (accept_rule port protocol))
          (unset_port port) (s, ports)

  unfoldable pub close_ports : List (ℤ × String) → List (ℤ × String) → Proxy → Proxy × Bool
  close_ports want [] p = (p, false)
  close_ports want ((port, protocol) ∷ ports) p =
      (close_port want port protocol >=> close_ports want ports) p

  unfoldable pub sync_node_ports : List ServiceEndpoints → Proxy → Proxy × Bool
  sync_node_ports services =
      open_ports (wanted_ports services []) >=> (λ p. close_ports (wanted_ports services []) p.1 p)

  module _ (tx : Texts) where
    -- `Sync`
    unfoldable pub sync_proxy : List ServiceEndpoints → Proxy → Proxy × Bool
    sync_proxy services =
        on_rules (sync_chains ipt tx services) (λ ports. ports) >=> sync_node_ports services
