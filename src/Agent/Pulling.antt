-- ===== src/Agent/Pulling.antt =====
-- internal/agent/agent.go: the tables that an agent pulls from the control plane, syncRoutes and
-- syncServices, each of which is one round of a loop.
pub mod Serving
use smith.Agent.Registration.{
  AgentError, malformed, Answer, empty_body, get_failed, answered, unreachable, bad_status, Decoded,
  decode_failed, decoded,
}
use smith.KernelRoutes.{RouteManager, Synced, sync, Parser, KernelRoute}
use smith.Network.Services.Ports.{sync_proxy, Proxy}
use smith.Network.Services.{Texts}
use smith.Network.{Iptables}
use smith.Prelude.{ℕ, String, not, Option, none, some, List, Result, if◌then◌else◌, ok, eqb, err}
use smith.Types.{ServiceEndpoints, Route}

abbrev pub items_of : {A : Type 0} → Decoded (List A) → Result AgentError (List A)
items_of (decoded items) = ok items
items_of empty_body = err decode_failed
items_of malformed = err decode_failed

-- `fetchRoutes` and `fetchServices`
unfoldable pub fetched : {A : Type 0} → Answer (List A) → Result AgentError (List A)
fetched unreachable = err get_failed
fetched (answered status body) =
    if not (eqb status 200) then err (bad_status status) else items_of body

-- What `Sync` of the route manager does, if it is called. Its error is only logged.
unfoldable pub sync_routes :
    Parser
    → (List (String × ℕ) → Option (List KernelRoute))
    → RouteManager
    → Answer (List Route)
    → Option Synced
sync_routes p listed rm answer = elim (fetched answer) [
  | err e ↦ none
  | ok routes ↦ some (sync p listed rm routes)
]

-- The rules and ports after the call of `Sync` of the service proxy. An error of either is only logged.
unfoldable pub sync_services :
    (ipt : Iptables) → Texts → Answer (List ServiceEndpoints) → Proxy ipt → Proxy ipt
sync_services ipt tx answer p = elim (fetched answer) [
  | err e ↦ p
  | ok services ↦ (sync_proxy ipt tx services p).0
]
