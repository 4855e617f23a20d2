-- ===== src/Server/Tables/Routes.antt =====
-- What the tables of internal/api/server.go hold.
use smith.Prelude.Text.{◌==◌, eq_iff}
use smith.Prelude.{
  String, ◌≡◌, refl, sym, ◌∙◌, ◌≢◌, ◌↔◌, inl, inr, false, Option, some, List, map, arith, collect,
  Elem, Elem-collect, Option-cases, ok_injective, Bool-cases, ok,
}
use smith.Registry
use smith.Registry.{Registry}
use smith.Server.Tables.{node_routes, endpoint_at, route_to, ContainerStatus}
use smith.Server.{Server}
use smith.Stores.Subnets.{SubnetAllocator, all_subnets}
use smith.Stores.{Faults}
use smith.Types.{Node, Route, Assignment}

-- A route to another node that is registered with a host IP, by its subnet.
pub record IsRoute (reg : Registry) (id : String) (subnets : List (String × String)) (r : Route)
    : Type 0 where
  pub node_id : String
  pub peer : Node
  pub listed : Elem (node_id, r.subnet) subnets
  pub other : node_id ≢ id
  pub registered : Registry.get node_id reg ≡ some peer
  pub reachable : peer.host_ip ≢ ""
  pub via : r.via ≡ peer.host_ip

module _ (reg : Registry) (id : String) where
  route_to-some :
      (entry : String × String) (r : Route)
      → route_to reg id entry ≡ some r
      → (peer : Node) × (Registry.get entry.0 reg ≡ some peer)
        × (entry.0 ≢ id)
        × (peer.host_ip ≢ "")
        × (r.subnet ≡ entry.1)
        × (r.via ≡ peer.host_ip)
  unfolding route_to
  route_to-some entry r h = elim (Option-cases (Registry.get entry.0 reg)) [
    | inl gone ↦ ground (arith, gone)
    | inr (peer, there) ↦ (
      peer,
      there,
      (λ e. ground (arith, there, eq_iff entry.0 id)),
      (λ e. ground (arith, there, eq_iff peer.host_ip "")),
      ground (arith, there),
      ground (arith, there),
    )
  ]

  some-route_to :
      (node_id : String) (peer : Node) (r : Route)
      → Registry.get node_id reg ≡ some peer
      → node_id ≢ id
      → peer.host_ip ≢ ""
      → r.via ≡ peer.host_ip
      → route_to reg id (node_id, r.subnet) ≡ some r
  unfolding route_to
  some-route_to node_id peer r there other reachable via =
      ground (arith, there, eq_iff node_id id, eq_iff peer.host_ip "")

  collect-IsRoute :
      (subnets : List (String × String)) (r : Route)
      → Elem r (collect (route_to reg id) subnets) ↔ IsRoute reg id subnets r
  collect-IsRoute subnets r = (
    (λ m.
        let (entry, member, e) = (Elem-collect (route_to reg id) r subnets).0 m in
        let (peer, there, other, reachable, subnet, via) = route_to-some entry r e in
        record {
          node_id = entry.0;
          peer = peer;
          listed = rw subnet member;
          other = other;
          registered = there;
          reachable = reachable;
          via = via;
        }),
    (λ h. (Elem-collect (route_to reg id) r subnets).1 (
      (h.node_id, r.subnet),
      h.listed,
      some-route_to h.node_id h.peer r h.registered h.other h.reachable h.via,
    )),
  )

-- An IP of a running replica of the workload.
pub record IsEndpoint (statuses : String → String → Option ContainerStatus) (workload : String)
    (assignments : List Assignment) (ip : String) : Type 0 where
  pub replica : Assignment
  pub assigned : Elem replica assignments
  pub of_workload : replica.parent_id ≡ workload
  pub observed : ContainerStatus
  pub reported : statuses replica.node_id replica.workload_id ≡ some observed
  pub running : observed.status ≡ "running"
  pub address : (observed.ip ≡ ip) × (ip ≢ "")

module _ (statuses : String → String → Option ContainerStatus) (workload : String) where
  endpoint_at-some :
      (a : Assignment) (ip : String)
      → endpoint_at statuses workload a ≡ some ip
      → (cs : ContainerStatus) × (statuses a.node_id a.workload_id ≡ some cs)
        × (a.parent_id ≡ workload)
        × (cs.status ≡ "running")
        × (cs.ip ≡ ip)
        × (ip ≢ "")
  unfolding endpoint_at
  endpoint_at-some a ip h = elim (Option-cases (statuses a.node_id a.workload_id)) [
    | inl unknown ↦ ground (arith, unknown)
    | inr (cs, known) ↦ (
      cs,
      known,
      ground (arith, known, eq_iff a.parent_id workload),
      ground (arith, known, eq_iff cs.status "running"),
      ground (arith, known),
      (λ e. ground (arith, known, eq_iff cs.ip "")),
    )
  ]

  some-endpoint_at :
      (a : Assignment) (cs : ContainerStatus) (ip : String)
      → statuses a.node_id a.workload_id ≡ some cs
      → a.parent_id ≡ workload
      → cs.status ≡ "running"
      → cs.ip ≡ ip
      → ip ≢ ""
      → endpoint_at statuses workload a ≡ some ip
  unfolding endpoint_at
  some-endpoint_at a cs ip known own running address named =
      ground
        (arith, known, eq_iff a.parent_id workload, eq_iff cs.status "running", eq_iff cs.ip "")

  pub collect-IsEndpoint :
      (assignments : List Assignment) (ip : String)
      → Elem ip (collect (endpoint_at statuses workload) assignments)
        ↔ IsEndpoint statuses workload assignments ip
  collect-IsEndpoint assignments ip = (
    (λ m.
        let (a, member, e) = (Elem-collect (endpoint_at statuses workload) ip assignments).0 m in
        let (cs, known, own, running, address, named) = endpoint_at-some a ip e in
        record {
          replica = a;
          assigned = member;
          of_workload = own;
          observed = cs;
          reported = known;
          running = running;
          address = (address, named);
        }),
    (λ h. (Elem-collect (endpoint_at statuses workload) ip assignments).1 (
      h.replica,
      h.assigned,
      some-endpoint_at h.replica h.observed ip h.reported h.of_workload h.running h.address.0
          h.address.1,
    )),
  )

node_routes_read :
    (faults : Faults) (id : String) (s : Server) (a : SubnetAllocator)
    → id == "" ≡ false
    → s.allocator ≡ some a
    → faults.scan ≡ false
    → node_routes faults id s
      ≡ ok (collect (route_to s.registry id) (map (λ e. (e.0, e.1.subnet)) a.rows))
unfolding node_routes all_subnets
node_routes_read faults id s a named wired listed =
    unfold node_routes in rw named (rw wired (rw listed refl))

-- The routes that a node gets are exactly those to the allocated subnets of the other nodes that are
-- registered with a host IP.
pub node_routes-IsRoute :
    (faults : Faults) (id : String) (s : Server) (a : SubnetAllocator) {routes : List Route}
    → s.allocator ≡ some a
    → node_routes faults id s ≡ ok routes
    → (r : Route) → Elem r routes ↔ IsRoute s.registry id (map (λ e. (e.0, e.1.subnet)) a.rows) r
unfolding node_routes all_subnets
node_routes-IsRoute faults id s a {routes} wired h r = elim (Bool-cases (id == "")) [
  | inl missing ↦ absurd (unfold node_routes in ground (arith, missing))
  | inr named ↦ elim (Bool-cases faults.scan) [
    | inl failed ↦ absurd (unfold node_routes in ground (arith, named, wired, failed))
    | inr listed ↦
        rw (← ok_injective (sym (node_routes_read faults id s a named wired listed) ∙ h))
          (collect-IsRoute s.registry id (map (λ e. (e.0, e.1.subnet)) a.rows) r)
  ]
]
