-- ===== src/Agent/Registration/Recovery.antt =====
-- A round of the heartbeat loop of internal/agent/agent.go against the control plane of
-- internal/api/server.go.
use smith.Agent.Registration.{answered, must_register, Answer, unreachable, malformed}
use smith.Prelude.Assoc
use smith.Prelude.Names.{ne_false}
use smith.Prelude.Text.{eq_iff}
use smith.Prelude.{
  ℕ, ◌+◌, ◌<◌, String, ◌≡◌, refl, ap, ◌∙◌, ◌≢◌, ◌↔◌, inl, inr, true, Option, none, some, arith,
  Option-cases, Result-cases, if◌then◌else◌,
}
use smith.Registry.Liveness.{heartbeat_window}
use smith.Registry.{heartbeat_timeout, heartbeat, get, is_alive, register, Registry, HeartbeatError}
use smith.Server.{Server, register_node, node_heartbeat}
use smith.Stores.Subnets
use smith.Stores.Workloads.Refinement.{refused}
use smith.Stores.{Faults}
use smith.Types.{Node, NetworkConfig}

-- what becomes of a request: it does not arrive, its answer does not, or both do
pub data Delivery : Type 0 where
  lost : Delivery
  unanswered : Delivery
  delivered : Delivery

abbrev pub received : Delivery → Server → Server → Server
received lost before after = before
received unanswered before after = after
received delivered before after = after

abbrev pub answer_of : Delivery → ℕ → Answer NetworkConfig
answer_of lost code = unreachable
answer_of unanswered code = unreachable
answer_of delivered code = answered code malformed

-- The control plane after a round of the agent on a node, at a time, by what becomes of the heartbeat and of
-- the registration. An error of either is only logged.
unfoldable pub heartbeat_round : Faults → ℕ → Node → Delivery → Delivery → Server → Server
unfolding must_register
heartbeat_round faults now node beat registration s =
    let (beaten, reply) = node_heartbeat now node.id s in
    let after = received beat s beaten in
    if must_register (answer_of beat reply.code)
    then received registration after (register_node faults now (some node) after).0
    else after

received-arrives :
    (d : Delivery) (before after : Server) → d ≢ lost → received d before after ≡ after
received-arrives lost before after arrives = absurd (arrives refl)
received-arrives unanswered before after arrives = refl
received-arrives delivered before after arrives = refl

register_node-registry :
    (faults : Faults) (now : ℕ) (node : Node) (s : Server)
    → (register_node faults now (some node) s).0.registry ≡ register now node s.registry
unfolding register_node
register_node-registry faults now node s = elim (Option-cases s.allocator) [
  | inl bare ↦ rw (bare, register_node) refl
  | inr (a, wired) ↦ elim (Result-cases (Subnets.allocate faults node.id a).1) [
    | inl (e, refused) ↦ rw (wired, register_node) (rw refused refl)
    | inr (cfg, given) ↦ rw (wired, register_node) (rw given refl)
  ]
]

-- the registry after a round, by whether it had the node
registry_forgotten :
    (faults : Faults) (now : ℕ) (node : Node) (registration : Delivery) (s : Server)
    → registration ≢ lost
    → node.id ≢ ""
    → get node.id s.registry ≡ none
    → (heartbeat_round faults now node delivered registration s).registry
      ≡ register now node s.registry
unfolding heartbeat_round node_heartbeat heartbeat get
registry_forgotten faults now node registration s arrives named forgotten =
    rw (ne_false node.id "" named) (
      rw forgotten (
        ap (λ (x : Server). x.registry) (received-arrives registration _ _ arrives)
        ∙ register_node-registry faults now node
            (record s { registry = (heartbeat now node.id s.registry).0 })
        ∙ ap (λ (x : Registry × Option HeartbeatError). register now node x.0)
            ((heartbeat_window now node.id s.registry).1 forgotten)))

registry_known :
    (faults : Faults) (now : ℕ) (node : Node) (registration : Delivery) (s : Server) (n : Node)
    → node.id ≢ ""
    → get node.id s.registry ≡ some n
    → (heartbeat_round faults now node delivered registration s).registry
      ≡ (heartbeat now node.id s.registry).0
unfolding heartbeat_round node_heartbeat heartbeat get
registry_known faults now node registration s n named known =
    rw (ne_false node.id "" named) (rw known refl)

-- For a node with an ID, whatever the control plane knows of it and whichever statements of its database
-- fail: a round whose heartbeat is delivered with its answer, and whose registration, if it makes one, is
-- received, leaves the node registered with the time of the round, and so alive until its timeout; every
-- other node is registered as before.
pub heartbeat_round-alive :
    (faults : Faults) (now : ℕ) (node : Node) (registration : Delivery) (s : Server)
    → node.id ≢ ""
    → registration ≢ lost
    → (n : Node) × (get node.id (heartbeat_round faults now node delivered registration s).registry
        ≡ some n)
      × ((later : ℕ) → (is_alive later n ≡ true) ↔ (later < now + heartbeat_timeout))
      × ((other : String)
          → other ≢ node.id
          → get other (heartbeat_round faults now node delivered registration s).registry
            ≡ get other s.registry)
unfolding get is_alive register heartbeat
heartbeat_round-alive faults now node registration s named arrives =
    elim (Option-cases (get node.id s.registry)) [
      | inl forgotten ↦
          let r = registry_forgotten faults now node registration s arrives named forgotten in
          let n : Node = record node { last_heartbeat = now } in
          (
            n,
            rw r (Assoc.lookup-insert_self _ _ _),
            (λ later. (ground arith)),
            (λ other ne. rw r (rw Assoc.lookup-insert (ground (arith, eq_iff node.id other)))),
          )
      | inr (n, known) ↦
          let r = registry_known faults now node registration s n named known in
          (
            record n { last_heartbeat = now },
            rw r (rw (known, heartbeat) (Assoc.lookup-insert_self _ _ _)),
            (λ later. ground arith),
            (λ other ne. rw r (
                rw (known, heartbeat)
                  (rw Assoc.lookup-insert (ground (arith, eq_iff node.id other))))),
          )
    ]
