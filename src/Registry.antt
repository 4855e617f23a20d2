-- ===== src/Registry.antt =====
-- internal/registry/registry.go: the nodes that the control plane knows. The time of a call,
-- `time.Now()`, is an argument, in nanoseconds. The mutex makes each method one step.
pub mod Liveness
use smith.Prelude.Assoc
use smith.Prelude.Assoc.{lookup, delete, insert}
use smith.Prelude.{ℕ, ◌+◌, String, Bool, not, Option, none, some, List, [], map, keep_if, ltb}
use smith.Types.{Node}

-- 30 * time.Second
abbrev pub heartbeat_timeout : ℕ
heartbeat_timeout = 30000000000

pub record Registry : Type 0 where
  pub nodes : List (String × Node)

-- `New`
abbrev pub empty : Registry
empty = record { nodes = [] }

unfoldable pub register : ℕ → Node → Registry → Registry
register now n r = record r {
  nodes = Assoc.insert n.id (record n { last_heartbeat = now }) r.nodes;
}

-- The error, for an unregistered node, names the node.
pub data HeartbeatError : Type 0 where
  not_registered : String → HeartbeatError

unfoldable pub heartbeat : ℕ → String → Registry → Registry × Option HeartbeatError
heartbeat now id r = elim (Assoc.lookup id r.nodes) [
  | none ↦ (r, some (not_registered id))
  | some n ↦
      (record r { nodes = Assoc.insert id (record n { last_heartbeat = now }) r.nodes }, none)
]

unfoldable pub get : String → Registry → Option Node
get id r = Assoc.lookup id r.nodes

-- the values of a map, in the order of a `range`
unfoldable pub list : Registry → List Node
list r = map (λ e. e.1) r.nodes

-- `n.LastHeartbeat.After(now - HeartbeatTimeout)`
unfoldable pub is_alive : ℕ → Node → Bool
is_alive now n = ltb now (n.last_heartbeat + heartbeat_timeout)

unfoldable pub alive : ℕ → Registry → List Node
unfolding keep_if is_alive list
alive now r = keep_if (is_alive now) (list r)

unfoldable pub dead : ℕ → Registry → List Node
unfolding keep_if is_alive list
dead now r = keep_if (λ n. not (is_alive now n)) (list r)

unfoldable pub remove : String → Registry → Registry
remove id r = record r { nodes = Assoc.delete id r.nodes }
