-- ===== src/Tests/Ports.antt =====
-- internal/runtime/firewall.go on a node whose filter table accepts ssh.
use smith.Network.Cni.Reading.{container_ip-IsUsable, IsUsable}
use smith.Network.Cni.{v6, to_int32, usable_ip, container_ip, Interface, v4}
use smith.Network.Firewall.{port_rule}
use smith.Prelude.Assoc
use smith.Prelude.Decimal.{decimal}
use smith.Prelude.Int.{pos}
use smith.Prelude.{String, ◌≡◌, refl, ◌≢◌, true, false, List, [], ◌∷◌}
use smith.Tests.Iptables.{Table}
use smith.Types.{PortMapping}

abbrev input_rules : List (List String)
input_rules = port_rule (pos 22) "tcp" ∷ []

abbrev input_table : Table
input_table = ("INPUT", input_rules) ∷ []

abbrev published : List PortMapping
published =
    record { host_port = pos 8080; container_port = pos 80; protocol = "" }
    ∷ record { host_port = pos 53; container_port = pos 53; protocol = "udp" }
    ∷ record { host_port = pos 8080; container_port = pos 81; protocol = "tcp" }
    ∷ []

abbrev eth0 : Interface
eth0 = record { name = "eth0"; addresses = v6 false ∷ v4 10 22 1 7 ∷ [] }

abbrev loopback : Interface
loopback = record { name = "lo"; addresses = v4 127 0 0 1 ∷ v6 true ∷ [] }

container_ip-IsUsable_example :
    (container_ip (eth0 ∷ loopback ∷ []) ≢ ""
      → IsUsable (eth0 ∷ loopback ∷ []) (container_ip (eth0 ∷ loopback ∷ [])))
    × (container_ip (eth0 ∷ loopback ∷ []) ≡ ""
        → (ip : String) → IsUsable (eth0 ∷ loopback ∷ []) ip
        → ⊥)
container_ip-IsUsable_example = container_ip-IsUsable (eth0 ∷ loopback ∷ [])

its_ip : container_ip (eth0 ∷ loopback ∷ []) ≡ "10.22.1.7"
unfolding container_ip usable_ip decimal
its_ip = refl

-- a port that does not fit in 32 bits
wrapped : to_int32 (pos 4294967376) ≡ pos 80
wrapped = refl
