-- ===== src/Tests/Nodes.antt =====
-- internal/runtime/containerd.go and internal/agent/agent.go on a node where every call succeeds.
use smith.Agent.Registration.Backoff.{backoff_at, backoffs, GoesOn, register_with_retry-backoffs}
use smith.Agent.Registration.Recovery.{
  heartbeat_round, delivered, heartbeat_round-alive, unanswered,
}
use smith.Agent.Registration.{
  answered, no_network, registration_cancelled, register_with_retry, empty_body, register_at,
  Answer, post_failed, unreachable, AgentError,
}
use smith.Agent.Volumes.{trim_replica_suffix-replica_id_of, mounts_at, handle_assign-replica}
use smith.Agent.{handle_assign, trim_replica_suffix, Agent}
use smith.Containers.Holding.{Releases, held_all, held, IsGone, nothing_held}
use smith.Containers.Run.Whole.{run_container-IsGone}
use smith.Containers.Run.{run_container}
use smith.Containers.Stop.Teardown.{stop_container-IsGone}
use smith.Containers.Stop.{stop_container}
use smith.Containers.{
  cpu_cfs, RunOptions, Event, Containerd, memory_limit, new_container, called, Client, failure_of,
  RuntimeCall, spec_opts, cni_setup, not_found, load_task, image_config, load_container, env,
  new_task,
}
use smith.Desired.{replica_id_of, empty_store, instance_of}
use smith.Prelude.Assoc
use smith.Prelude.Int.{pos}
use smith.Prelude.Text.{append}
use smith.Prelude.{
  ℕ, zero, suc, ◌+◌, ◌<◌, String, ◌≡◌, refl, ◌≢◌, ◌↔◌, true, false, Option, none, some, List, [],
  ◌∷◌, ◌++◌, arith, ok, err,
}
use smith.Registry
use smith.Registry.{heartbeat_timeout, get, is_alive, Registry}
use smith.Scheduler
use smith.Scheduler.{Scheduler}
use smith.Server.{Server}
use smith.Stores.{no_faults}
use smith.Tests.Data.{node_a, half_cpu}
use smith.Types.{Node, NetworkConfig, no_workload, Workload, Volume}

abbrev willing_node : Containerd
willing_node = record {
  answer = λ log id call. none;
  address = λ log id. "10.22.1.7";
  code_of = λ log id. some 0;
  containers = λ log. some [];
}

abbrev web_options : RunOptions
web_options = record {
  id = "web-0";
  image = "nginx:1.27";
  args = [];
  ports = record { host_port = pos 8080; container_port = pos 80; protocol = "" } ∷ [];
  has_cni = true;
  env = ("MODE", "prod") ∷ [];
  resources = some half_cpu;
  mounts = [];
}

abbrev idle_client : Client
idle_client = record { ips = []; log = [] }

nothing_yet : held "web-0" idle_client.log ≡ nothing_held
unfolding held
nothing_yet = refl

willing_node-Releases : Releases willing_node "web-0"
willing_node-Releases log = ((λ ports. refl), refl, refl, refl)

run_container-IsGone_example :
    (Assoc.is_some
          (failure_of willing_node "web-0" (new_container (spec_opts web_options)) idle_client)
        ≡ false
      → IsGone "web-0" (run_container willing_node web_options idle_client).0)
    × (Assoc.is_some
            (failure_of willing_node "web-0" (new_container (spec_opts web_options)) idle_client)
          ≡ true
        → (run_container willing_node web_options idle_client).0
          ≡ called willing_node "web-0" (new_container (spec_opts web_options)) idle_client)
    × ((code : ℕ)
        → ((log : List Event) (call : RuntimeCall) → willing_node.answer log "web-0" call ≡ none)
        → ((log : List Event) → willing_node.code_of log "web-0" ≡ some code)
        → (run_container willing_node web_options idle_client).1 ≡ ok code)
run_container-IsGone_example =
    run_container-IsGone willing_node web_options idle_client willing_node-Releases nothing_yet

limits : spec_opts web_options ≡ (
    image_config "nginx:1.27"
    ∷ env ("MODE=prod" ∷ [])
    ∷ memory_limit 268435456
    ∷ cpu_cfs (pos 50000) 100000
    ∷ [])
unfolding spec_opts
limits = refl

-- the log of a container that runs with a network
abbrev running_client : Client
running_client = record {
  ips = ("web-0", "10.22.1.7") ∷ [];
  log =
      record { id = "web-0"; call = cni_setup []; failure = none }
      ∷ record { id = "web-0"; call = new_task; failure = none }
      ∷ record { id = "web-0"; call = new_container []; failure = none }
      ∷ [];
}

stop_container-IsGone_example :
    (failure_of willing_node "web-0" load_container running_client ≡ none
      → failure_of willing_node "web-0" load_task
          (called willing_node "web-0" load_container running_client)
        ≡ none
      → held "web-0" running_client.log ≡ held_all true
      → IsGone "web-0" (stop_container willing_node "web-0" true [] running_client).0)
    × (failure_of willing_node "web-0" load_container running_client ≡ none
        → Assoc.is_some (
            failure_of willing_node "web-0" load_task
              (called willing_node "web-0" load_container running_client))
          ≡ true
        → held "web-0" running_client.log ≡ record nothing_held { container = true }
        → IsGone "web-0" (stop_container willing_node "web-0" true [] running_client).0)
    × (failure_of willing_node "web-0" load_container running_client ≡ some not_found
        → stop_container willing_node "web-0" true [] running_client
          ≡ (called willing_node "web-0" load_container running_client, none))
stop_container-IsGone_example =
    stop_container-IsGone willing_node "web-0" willing_node-Releases true [] running_client

running_is_held : held "web-0" running_client.log ≡ held_all true
unfolding held
running_is_held = refl

abbrev idle_agent : Agent
idle_agent = record {
  id = "node-a";
  has_firewall = true;
  has_cni = true;
  nfs_source = "nas:/smith";
  net_cfg = no_network;
  ports = [];
  firewall_calls = [];
  client = idle_client;
  spawned = [];
}

abbrev database : Workload
database = record no_workload {
  id = "db-1";
  image = "postgres:17";
  volumes = record { name = "pg"; path = "/var/lib/postgresql" } ∷ [];
}

abbrev volume_dir : String → String → Option String
volume_dir base name = some (append "/nfs/" (append base (append "/" name)))

abbrev volume_path : Volume → String
volume_path v = append "/nfs/" (append "db-1" (append "/" v.name))

trim_replica_suffix-replica_id_of_example : trim_replica_suffix (replica_id_of "db-1" 12) ≡ "db-1"
trim_replica_suffix-replica_id_of_example = trim_replica_suffix-replica_id_of "db-1" 12

handle_assign-replica_example :
    ((handle_assign volume_dir (some (instance_of "db-1" database 0).wl) idle_agent).1 ≡ 200)
    × ((handle_assign volume_dir (some (instance_of "db-1" database 0).wl) idle_agent).0.spawned
        ≡ [] ++ (((instance_of "db-1" database 0).wl, mounts_at volume_path database.volumes) ∷ []))
    × (Assoc.lookup
          (replica_id_of "db-1" 0)
          (handle_assign volume_dir (some (instance_of "db-1" database 0).wl) idle_agent).0.ports
        ≡ some [])
handle_assign-replica_example =
    handle_assign-replica volume_dir volume_path "db-1" database 0 idle_agent (λ e. cc) (refl, tt)

-- the first attempt fails, and the second one succeeds
abbrev late_answers : ℕ → Answer NetworkConfig
late_answers zero = unreachable
late_answers (suc k) = answered 200 empty_body

first_fails : (j : ℕ) → j < 1 → GoesOn late_answers (λ k. false) j
unfolding register_at
first_fails zero below = ((post_failed, refl), refl)
first_fails (suc j) below = absurd (omega arith)

register_with_retry-backoffs_example :
    ((cfg : NetworkConfig)
      → register_at (late_answers 1) ≡ ok cfg
      → register_with_retry late_answers (λ k. false) 2 ≡ some (ok cfg, backoffs 0 1))
    × ((e : AgentError)
        → register_at (late_answers 1) ≡ err e
        → false ≡ true
        → register_with_retry late_answers (λ k. false) 2
          ≡ some (err registration_cancelled, backoffs 0 1))
register_with_retry-backoffs_example =
    register_with_retry-backoffs late_answers (λ k. false) 2 1 (omega arith) first_fails

long_waits : backoffs 0 7 ≡ (1 ∷ 2 ∷ 4 ∷ 8 ∷ 16 ∷ 30 ∷ 30 ∷ [])
unfolding backoffs backoff_at
long_waits = refl

-- a control plane that has just started knows no node
abbrev restarted : Server
restarted = record {
  token = "secret";
  store = empty_store;
  registry = Registry.empty;
  scheduler = Scheduler.empty;
  allocator = none;
  services = none;
  ingresses = none;
}

heartbeat_round-alive_example :
    (n : Node) × (get "a"
        (heartbeat_round no_faults 90 node_a delivered unanswered restarted).registry
      ≡ some n)
    × ((later : ℕ) → (is_alive later n ≡ true) ↔ (later < 90 + heartbeat_timeout))
    × ((other : String)
        → other ≢ "a"
        → get other (heartbeat_round no_faults 90 node_a delivered unanswered restarted).registry
          ≡ get other restarted.registry)
heartbeat_round-alive_example =
    heartbeat_round-alive no_faults 90 node_a unanswered restarted (λ e. cc) (λ e. cc)
