-- ===== src/Agent.antt =====
-- internal/agent/agent.go: what an agent does on its node. The container runtime is that of
-- Containers; the firewall, where there is one, has its calls kept in a list; a goroutine that is to run a
-- container is kept in a list. The answers of the control plane over HTTP, the directories of volumes and
-- the images are arguments. The loops by the clock are the rounds that they make.
pub mod Volumes
pub mod Registration
pub mod Pulling
use Prim.Native.Char.{code}
use smith.Containers.Run.{run_container}
use smith.Containers.Stop.{stop_container}
use smith.Containers.{Mount, Client, Containerd}
use smith.Prelude.Assoc
use smith.Prelude.Decimal.{all_digits}
use smith.Prelude.Text.{◌==◌}
use smith.Prelude.{
  ℕ, String, Bool, true, false, not, ◌&&◌, Option, none, some, List, [], ◌∷◌, ◌++◌, Result,
  if◌then◌else◌, eqb, err, ok, ◌>>=◌,
}
use smith.Types.{Volume, NetworkConfig, Workload, PortMapping}

pub data FirewallCall : Type 0 where
  open_ports_call : List PortMapping → FirewallCall
  close_ports_call : List PortMapping → FirewallCall

pub record Agent : Type 0 where
  pub id : String
  pub has_firewall : Bool
  pub has_cni : Bool
  pub nfs_source : String
  pub net_cfg : NetworkConfig
  pub ports : List (String × List PortMapping)
  pub firewall_calls : List FirewallCall
  pub client : Client
  pub spawned : List (Workload × List Mount)

-- `-\d+$` at the front of a text
abbrev pub is_replica_suffix : String → Bool
is_replica_suffix String.[] = false
is_replica_suffix (String.◌∷◌ c s) = eqb (code c) b'-' && (not (s == "") && all_digits s)

-- `replicaSuffixRe.ReplaceAllString(id, "")`
unfoldable pub trim_replica_suffix : String → String
trim_replica_suffix String.[] = ""
trim_replica_suffix (String.◌∷◌ c s) =
    let rest = trim_replica_suffix s in
    if is_replica_suffix (String.◌∷◌ c s) then "" else String.◌∷◌ c rest

pub data VolumeError : Type 0 where
  no_nfs_share : String → VolumeError
  no_volume_dir : String → String → VolumeError

-- the loop of `resolveVolumes`; `ensure_dir` is EnsureVolumeDir
unfoldable pub mounts_of :
    (String → String → Option String) → String → List Volume → Result VolumeError (List Mount)
mounts_of ensure_dir base [] = ok []
mounts_of ensure_dir base (v ∷ volumes) = elim (ensure_dir base v.name) [
  | none ↦ err (no_volume_dir base v.name)
  | some path ↦ mounts_of ensure_dir base volumes >>= λ mounts.
      ok (record { source = path; dest = v.path } ∷ mounts)
]

unfoldable pub resolve_mounts :
    (String → String → Option String)
    → String
    → String
    → List Volume
    → Result VolumeError (List Mount)
resolve_mounts ensure_dir nfs_source id [] = ok []
resolve_mounts ensure_dir nfs_source id (v ∷ volumes) =
    if nfs_source == ""
    then err (no_nfs_share id)
    else mounts_of ensure_dir (trim_replica_suffix id) (v ∷ volumes)

abbrev pub is_empty_list : {A : Type 0} → List A → Bool
is_empty_list [] = true
is_empty_list (x ∷ xs) = false

-- the ports of an assignment are recorded, and opened if there is a firewall
abbrev pub record_ports : Workload → Agent → Agent
record_ports wl a = record a {
  ports = Assoc.insert wl.id wl.ports a.ports;
  firewall_calls =
      if a.has_firewall && not (is_empty_list wl.ports)
      then a.firewall_calls ++ (open_ports_call wl.ports ∷ [])
      else a.firewall_calls;
}

-- the reply, by what became of the volumes, and the goroutine
abbrev pub assigned : Result VolumeError (List Mount) → Workload → Agent → Agent × ℕ
assigned (err e) wl a = (a, 400)
assigned (ok mounts) wl a = (record a { spawned = a.spawned ++ ((wl, mounts) ∷ []) }, 200)

-- The ports are recorded and opened before the volumes are resolved; `none` is a body that does not decode.
unfoldable pub handle_assign :
    (String → String → Option String) → Option Workload → Agent → Agent × ℕ
handle_assign ensure_dir none a = (a, 400)
handle_assign ensure_dir (some wl) a =
    assigned (resolve_mounts ensure_dir a.nfs_source wl.id wl.volumes) wl (record_ports wl a)

-- the goroutine of an assignment; `image` is a local image, or else the one that is pulled
unfoldable pub run_assignment : Containerd → Option String → Workload → List Mount → Agent → Agent
run_assignment d none wl mounts a = a
run_assignment d (some image) wl mounts a = record a {
  client =
      (run_container d
        (record {
          id = wl.id;
          image = image;
          args = wl.args;
          ports = wl.ports;
          has_cni = a.has_cni;
          env = wl.env;
          resources = wl.resources;
          mounts = mounts;
        })
        a.client).0;
}

-- `handleUnassign`, of the ports that were recorded; an error of the stop is only logged
abbrev pub forget_ports : Containerd → String → List PortMapping → Agent → Agent
forget_ports d id ports a = record a {
  ports = Assoc.delete id a.ports;
  client = (stop_container d id a.has_cni ports a.client).0;
  firewall_calls =
      if a.has_firewall && not (is_empty_list ports)
      then a.firewall_calls ++ (close_ports_call ports ∷ [])
      else a.firewall_calls;
}

unfoldable pub handle_unassign : Containerd → String → Agent → Agent × ℕ
handle_unassign d id a =
    if id == "" then (a, 400) else (forget_ports d id (Assoc.lookup_or [] id a.ports) a, 200)
