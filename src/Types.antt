-- ===== src/Types.antt =====
-- internal/types/types.go: the records that the components exchange. A Go `int` is an unbounded
-- integer `ℤ`, a time or a duration is a number of nanoseconds, a nil slice is an empty list, a nil
-- pointer is `none`, and a map is an association list.
use smith.Prelude.Int.{ℤ, pos}
use smith.Prelude.{ℕ, String, Option, none, List, []}

pub record Volume : Type 0 where
  pub name : String
  pub path : String

pub record Resources : Type 0 where
  pub cpu_millicores : ℤ
  pub memory_mb : ℤ

-- the zero value
abbrev pub no_resources : Resources
no_resources = record { cpu_millicores = pos 0; memory_mb = pos 0 }

pub record NetworkConfig : Type 0 where
  pub subnet : String
  pub gateway : String

pub record Route : Type 0 where
  pub subnet : String
  pub via : String

pub record Service : Type 0 where
  pub name : String
  pub workload_id : String
  pub port : ℤ
  pub target_port : ℤ
  pub protocol : String
  pub cluster_ip : String
  pub node_port : ℤ

pub record Ingress : Type 0 where
  pub host : String
  pub service : String

pub record IngressRule : Type 0 where
  pub host : String
  pub cluster_ip : String
  pub port : ℤ

pub record ServiceEndpoints : Type 0 where
  pub name : String
  pub cluster_ip : String
  pub port : ℤ
  pub node_port : ℤ
  pub target_port : ℤ
  pub protocol : String
  pub endpoints : List String

pub record PortMapping : Type 0 where
  pub host_port : ℤ
  pub container_port : ℤ
  pub protocol : String

pub record HealthCheck : Type 0 where
  pub kind : String
  pub command : List String
  pub url : String
  pub initial_delay : ℤ
  pub interval : ℤ
  pub threshold : ℤ

pub record Workload : Type 0 where
  pub id : String
  pub image : String
  pub args : List String
  pub health_check : Option HealthCheck
  pub ports : List PortMapping
  pub env : List (String × String)
  pub resources : Option Resources
  pub replicas : ℤ
  pub max_unavailable : ℤ
  pub volumes : List Volume

pub record Node : Type 0 where
  pub id : String
  pub addr : String
  pub host_ip : String
  pub last_heartbeat : ℕ
  pub cpu : ℤ
  pub memory_mb : ℤ

pub record Assignment : Type 0 where
  pub workload_id : String
  pub node_id : String
  pub parent_id : String

-- the zero value
abbrev pub no_assignment : Assignment
no_assignment = record { workload_id = ""; node_id = ""; parent_id = "" }

-- the zero value
abbrev pub no_workload : Workload
no_workload = record {
  id = "";
  image = "";
  args = [];
  health_check = none;
  ports = [];
  env = [];
  resources = none;
  replicas = pos 0;
  max_unavailable = pos 0;
  volumes = [];
}

pub record Move : Type 0 where
  pub replica_id : String
  pub from_node : String
  pub to_node : String
