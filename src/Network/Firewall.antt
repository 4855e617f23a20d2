-- ===== src/Network/Firewall.antt =====
-- internal/runtime/firewall.go: the rules that let traffic reach the containers of a node.
pub mod Opening
use smith.Network.Services.{int_text, or_tcp}
use smith.Network.{Iptables, ◌>=>◌}
use smith.Prelude.Int.{ℤ}
use smith.Prelude.{String, Bool, true, false, Option, none, some, List, [], ◌∷◌}
use smith.Types.{PortMapping}

-- `if protocol == "" { protocol = "tcp" }` is `or_tcp`
abbrev pub port_rule : ℤ → String → List String
port_rule port protocol = "-p" ∷ or_tcp protocol ∷ "--dport" ∷ int_text port ∷ "-j" ∷ "ACCEPT" ∷ []

module _ (ipt : Iptables) where
  -- what a question to iptables says, or that it fails
  abbrev pub unless_there :
      Option Bool → (ipt.State → ipt.State × Bool) → ipt.State → ipt.State × Bool
  unless_there none m s = (s, true)
  unless_there (some true) m s = (s, false)
  unless_there (some false) m s = m s

  unfoldable pub ensure_rule : String → String → List String → ipt.State → ipt.State × Bool
  ensure_rule t c spec s = unless_there (ipt.has_rule t c spec s) (ipt.insert_rule t c spec) s

  unfoldable pub ensure_forwarding : String → ipt.State → ipt.State × Bool
  ensure_forwarding subnet =
      ensure_rule "filter" "FORWARD" ("-d" ∷ subnet ∷ "-j" ∷ "ACCEPT" ∷ [])
      >=> ensure_rule "filter" "FORWARD" ("-s" ∷ subnet ∷ "-j" ∷ "ACCEPT" ∷ [])

  unfoldable pub ensure_masquerade : String → ipt.State → ipt.State × Bool
  ensure_masquerade cidr =
      ensure_rule "nat" "POSTROUTING" ("-s" ∷ cidr ∷ "!" ∷ "-d" ∷ cidr ∷ "-j" ∷ "MASQUERADE" ∷ [])

  unfoldable pub open_host_port : ℤ → String → ipt.State → ipt.State × Bool
  open_host_port port protocol = ensure_rule "filter" "INPUT" (port_rule port protocol)

  abbrev pub if_there : Option Bool → (ipt.State → ipt.State × Bool) → ipt.State → ipt.State × Bool
  if_there none m s = (s, true)
  if_there (some false) m s = (s, false)
  if_there (some true) m s = m s

  unfoldable pub close_host_port : ℤ → String → ipt.State → ipt.State × Bool
  close_host_port port protocol s =
      let rule = port_rule port protocol in
      if_there (ipt.has_rule "filter" "INPUT" rule s) (ipt.delete_rule "filter" "INPUT" rule) s

  unfoldable pub open_host_ports : List PortMapping → ipt.State → ipt.State × Bool
  open_host_ports [] s = (s, false)
  open_host_ports (p ∷ ports) s =
      (open_host_port p.host_port p.protocol >=> open_host_ports ports) s

  -- a failure is logged, and the loop goes on
  unfoldable pub close_host_ports : List PortMapping → ipt.State → ipt.State × Bool
  close_host_ports [] s = (s, false)
  close_host_ports (p ∷ ports) s =
      close_host_ports ports (close_host_port p.host_port p.protocol s).0
