-- ===== src/Tests/Routing.antt =====
-- internal/runtime/routes.go on a node that has a route to a node which has gone.
use smith.KernelRoutes.{
  prune_routes, Parser, RouteManager, entry_of, sync, desired_from, Destination, KernelRoute,
  managed,
}
use smith.Prelude.Assoc
use smith.Prelude.Text.{◌==◌}
use smith.Prelude.{ℕ, String, ◌≡◌, refl, Option, none, some, List, [], ◌∷◌, keep_if, if◌then◌else◌}
use smith.Types.{Route}

abbrev texts : Parser
texts = record {
  parse_cidr = λ text. some text;
  parse_ip = λ text. if text == "10.0.0.2" then some 167772162 else none;
}

abbrev own_routes : RouteManager
own_routes = record { cluster_base = 169213952; cluster_bits = 16; own_subnet = "10.22.1.0/24" }

abbrev block_3 : Destination
block_3 = record { base = 169214720; bits = 24; text = "10.22.3.0/24" }

abbrev stale_route : KernelRoute
stale_route = record { dst = some block_3; gw = some 167772163 }

abbrev given_routes : List Route
given_routes = record { subnet = "10.22.2.0/24"; via = "10.0.0.2" } ∷ []

abbrev default_route : KernelRoute
default_route = record { dst = none; gw = some 167772161 }

abbrev kernel : List (String × ℕ) → Option (List KernelRoute)
kernel replaced = some (default_route ∷ stale_route ∷ [])

stale_route_deleted : (sync texts kernel own_routes given_routes).deleted ≡ (stale_route ∷ [])
unfolding sync prune_routes desired_from entry_of managed keep_if Assoc.insert Assoc.lookup
stale_route_deleted = refl
