-- ===== src/Network/Cni.antt =====
-- internal/runtime/cni.go: the ports that the portmap plugin gets, and the IP that Setup reads off the
-- interfaces of a container. CNI itself is an argument: what it answers.
pub mod Reading
use smith.Network.Services.{or_tcp}
use smith.Prelude.Decimal.{decimal}
use smith.Prelude.Int.{ℤ, negsuc, pos}
use smith.Prelude.Text.{append, ◌==◌}
use smith.Prelude.{
  ℕ, ◌-◌, ◌%◌, ◌^◌, String, Bool, true, false, not, Option, none, some, List, [], ◌∷◌, map, Result,
  if◌then◌else◌, eqb, ltb, err, ok,
}
use smith.Types.{PortMapping}

-- the 32 bits of an int
abbrev pub low_bits : ℤ → ℕ
low_bits (pos k) = k % 2 ^ 32
low_bits (negsuc k) = 2 ^ 32 - 1 - k % 2 ^ 32

-- `int32` of an int
abbrev pub to_int32 : ℤ → ℤ
to_int32 n =
    if ltb (low_bits n) (2 ^ 31) then pos (low_bits n) else negsuc (2 ^ 32 - 1 - low_bits n)

-- a mapping of gocni, whose ports are int32
abbrev pub cni_mapping : PortMapping → PortMapping
cni_mapping p = record {
  host_port = to_int32 p.host_port;
  container_port = to_int32 p.container_port;
  protocol = or_tcp p.protocol;
}

unfoldable pub port_mappings : List PortMapping → List PortMapping
port_mappings ports = map cni_mapping ports

-- the capability of the portmap plugin, if there are ports
abbrev pub capability : List PortMapping → Option (List PortMapping)
unfolding port_mappings
capability [] = none
capability (p ∷ ports) = some (port_mappings (p ∷ ports))

-- an IP, by its four bytes if it is an IPv4 address, or by whether it is the IPv6 loopback
pub data Address : Type 0 where
  v4 : ℕ → ℕ → ℕ → ℕ → Address
  v6 : Bool → Address

abbrev pub is_loopback : Address → Bool
is_loopback (v4 a b c d) = eqb a 127
is_loopback (v6 loopback) = loopback

-- `String` of an IPv4 address
abbrev pub dotted : Address → String
dotted (v4 a b c d) =
    append (decimal a)
      (append "." (append (decimal b) (append "." (append (decimal c) (append "." (decimal d))))))
dotted (v6 loopback) = ""

abbrev pub is_v4 : Address → Bool
is_v4 (v4 a b c d) = true
is_v4 (v6 loopback) = false

pub record Interface : Type 0 where
  pub name : String
  pub addresses : List Address

-- the inner loop, which ends with the first address that it takes
unfoldable pub usable_ip : List Address → String
usable_ip [] = ""
usable_ip (a ∷ addresses) =
    let rest = usable_ip addresses in
    if is_loopback a then rest else if not (is_v4 a) then rest else dotted a

-- the outer loop, over the interfaces in an order that Go does not say
unfoldable pub container_ip : List Interface → String
container_ip [] = ""
container_ip (i ∷ interfaces) =
    let rest = container_ip interfaces in
    if i.name == "lo"
    then rest
    else if not (usable_ip i.addresses == "")
    then usable_ip i.addresses
    else rest

pub data CniError : Type 0 where
  setup_failed : String → CniError

unfoldable pub setup :
    String
    → List PortMapping
    → (Option (List PortMapping) → Option (List Interface))
    → Result CniError String
setup id ports answer = elim (answer (capability ports)) [
  | none ↦ err (setup_failed id)
  | some interfaces ↦ ok (container_ip interfaces)
]
