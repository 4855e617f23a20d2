-- ===== src/KernelRoutes/Deletions.antt =====
-- What Sync of internal/runtime/routes.go deletes.
use smith.KernelRoutes.{
  RouteManager, entry_of, node_subnet_bits, Parser, Destination, cluster_contains, KernelRoute,
}
use smith.Prelude.Assoc
use smith.Prelude.Text.{◌==◌}
use smith.Prelude.{ℕ, String, ◌≡◌, ◌≢◌, Bool, true, false, ◌||◌, Option, none, some, List, [], ◌∷◌}
use smith.Types.{Route}

abbrev pub is_key : String → Option (String × ℕ) → Bool
is_key d none = false
is_key d (some e) = e.0 == d

-- whether a given route that parses leads to a subnet
abbrev pub asks_any : Parser → String → List Route → Bool
asks_any p d [] = false
asks_any p d (r ∷ routes) = is_key d (entry_of p r) || asks_any p d routes

-- a route that goes through a gateway to a node's block in the cluster, other than this node's
pub record IsPeer (rm : RouteManager) (route : KernelRoute) : Type 0 where
  pub dst : Destination
  pub gw : ℕ
  pub to_dst : route.dst ≡ some dst
  pub via_gw : route.gw ≡ some gw
  pub inside : cluster_contains rm dst.base ≡ true
  pub block : dst.bits ≡ node_subnet_bits
  pub other : dst.text ≢ rm.own_subnet
