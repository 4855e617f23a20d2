-- ===== src/KernelRoutes.antt =====
-- internal/runtime/routes.go: the routes to the subnets of the other nodes, which an agent keeps in the
-- kernel's table. A key is the text of a subnet; net.ParseCIDR, as far as that text, and net.ParseIP are
-- parameters, and so is the kernel, which lists its routes after the replacements or fails. What the
-- code only logs, a call that fails included, is left out.
pub mod Deletions
use smith.Prelude.Assoc
use smith.Prelude.Text.{◌==◌}
use smith.Prelude.{
  ℕ, ◌-◌, ◌/◌, ◌^◌, String, Bool, false, not, ◌&&◌, Option, none, some, List, [], ◌∷◌, keep_if, eqb,
  if◌then◌else◌,
}
use smith.Types.{Route}

-- a destination: the IPv4 address that a subnet starts with, the length of its prefix, and its text
pub record Destination : Type 0 where
  pub base : ℕ
  pub bits : ℕ
  pub text : String

pub record KernelRoute : Type 0 where
  pub dst : Option Destination
  pub gw : Option ℕ

pub record RouteManager : Type 0 where
  pub cluster_base : ℕ
  pub cluster_bits : ℕ
  pub own_subnet : String

pub record Parser : Type 0 where
  pub parse_cidr : String → Option String
  pub parse_ip : String → Option ℕ

abbrev pub node_subnet_bits : ℕ
node_subnet_bits = 24

-- `cluster.Contains(ip)`
abbrev pub cluster_contains : RouteManager → ℕ → Bool
cluster_contains rm ip =
    eqb (ip / 2 ^ (32 - rm.cluster_bits)) (rm.cluster_base / 2 ^ (32 - rm.cluster_bits))

unfoldable pub managed : RouteManager → KernelRoute → Bool
managed rm route = elim route.dst [
  | none ↦ false
  | some dst ↦ elim route.gw [
    | none ↦ false
    | some gw ↦
        if not (cluster_contains rm dst.base)
        then false
        else if not (eqb dst.bits node_subnet_bits)
        then false
        else not (dst.text == rm.own_subnet)
  ]
]

-- the subnet and the gateway of a route that parses
unfoldable pub entry_of : Parser → Route → Option (String × ℕ)
entry_of p r = elim (p.parse_cidr r.subnet) [
  | none ↦ none
  | some dst ↦ elim (p.parse_ip r.via) [ none ↦ none | some gw ↦ some (dst, gw) ]
]

-- one round of the loop over the given routes, which skips a route that does not parse
abbrev pub remember : Option (String × ℕ) → List (String × ℕ) → List (String × ℕ)
remember none desired = desired
remember (some e) desired = Assoc.insert e.0 e.1 desired

unfoldable pub desired_from : Parser → List Route → List (String × ℕ) → List (String × ℕ)
desired_from p [] desired = desired
desired_from p (r ∷ routes) desired = desired_from p routes (remember (entry_of p r) desired)

abbrev pub is_desired : List (String × ℕ) → KernelRoute → Bool
is_desired desired route = elim route.dst [ none ↦ false | some dst ↦ Assoc.has dst.text desired ]

pub data SyncError : Type 0 where
  list_routes_failed : SyncError

-- the calls of the kernel, the replacements before the deletions
pub record Synced : Type 0 where
  pub replaced : List (String × ℕ)
  pub deleted : List KernelRoute
  pub error : Option SyncError

-- the deletions, once the kernel has answered with its routes
unfoldable pub prune_routes : RouteManager → List (String × ℕ) → Option (List KernelRoute) → Synced
prune_routes rm desired none = record {
  replaced = desired;
  deleted = [];
  error = some list_routes_failed;
}
prune_routes rm desired (some existing) = record {
  replaced = desired;
  deleted = keep_if (λ r. managed rm r && not (is_desired desired r)) existing;
  error = none;
}

unfoldable pub sync :
    Parser → (List (String × ℕ) → Option (List KernelRoute)) → RouteManager → List Route → Synced
sync p listed rm routes =
    let desired = desired_from p routes [] in prune_routes rm desired (listed desired)
