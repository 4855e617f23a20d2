-- ===== src/Containers.antt =====
-- internal/runtime/containerd.go: the containers of one node. containerd, CNI and the file system are
-- a parameter that answers each call from the calls before it; the log has the calls with their answers,
-- the latest first. A nil CNI is a flag. The client's map of addresses is the only state of its own.
pub mod Holding
pub mod Run
pub mod Stop
use smith.Prelude.Assoc
use smith.Prelude.Int.{pos, pos_part, ltb_ℤ, ℤ}
use smith.Prelude.Text.{append, ◌==◌}
use smith.Prelude.{
  ℕ, ◌*◌, ◌%◌, ◌^◌, String, Bool, true, false, Option, none, some, List, [], ◌∷◌, ◌++◌,
  if◌then◌else◌,
}
use smith.Types.{PortMapping, Resources}

pub data Failure : Type 0 where
  already_exists : Failure
  not_found : Failure
  failed_precondition : Failure
  other_failure : Failure

pub record Mount : Type 0 where
  pub source : String
  pub dest : String

-- the options of `WithImageConfig`, in the order in which they are appended
pub data SpecOpt : Type 0 where
  image_config : String → SpecOpt
  process_args : List String → SpecOpt
  env : List String → SpecOpt
  memory_limit : ℕ → SpecOpt
  cpu_cfs : ℤ → ℕ → SpecOpt
  bind_mounts : List Mount → SpecOpt

-- what the client asks of containerd, of CNI and of the file system
pub data RuntimeCall : Type 0 where
  new_container : List SpecOpt → RuntimeCall
  make_log_dir : RuntimeCall
  new_task : RuntimeCall
  cni_setup : List PortMapping → RuntimeCall
  task_wait : RuntimeCall
  task_start : RuntimeCall
  await_exit : RuntimeCall
  cni_teardown : List PortMapping → RuntimeCall
  task_delete : RuntimeCall
  task_delete_kill : RuntimeCall
  task_kill : RuntimeCall
  container_delete : RuntimeCall
  load_container : RuntimeCall
  load_task : RuntimeCall
  remove_log : RuntimeCall

pub record Event : Type 0 where
  pub id : String
  pub call : RuntimeCall
  pub failure : Option Failure

pub record Client : Type 0 where
  pub ips : List (String × String)
  pub log : List Event

pub record Containerd : Type 0 where
  pub answer : List Event → String → RuntimeCall → Option Failure
  -- the address of a successful setup
  pub address : List Event → String → String
  -- the code of an exit, if it can be read
  pub code_of : List Event → String → Option ℕ
  -- the IDs of the containers, if they can be listed
  pub containers : List Event → Option (List String)

-- `setIP`
unfoldable pub set_ip : String → String → Client → Client
set_ip id ip c = if ip == "" then c else record c { ips = Assoc.insert id ip c.ips }

-- `clearIP`
unfoldable pub clear_ip : String → Client → Client
clear_ip id c = record c { ips = Assoc.delete id c.ips }

-- `getIP`
unfoldable pub get_ip : String → Client → String
get_ip id c = Assoc.lookup_or "" id c.ips

pub record RunOptions : Type 0 where
  pub id : String
  pub image : String
  pub args : List String
  pub ports : List PortMapping
  pub has_cni : Bool
  pub env : List (String × String)
  pub resources : Option Resources
  pub mounts : List Mount

abbrev pub args_opts : List String → List SpecOpt
args_opts [] = []
args_opts (a ∷ args) = process_args (a ∷ args) ∷ []

-- the variables as KEY=VALUE
abbrev pub env_texts : List (String × String) → List String
env_texts [] = []
env_texts ((k, v) ∷ entries) = append k (append "=" v) ∷ env_texts entries

abbrev pub env_opts : List (String × String) → List SpecOpt
env_opts [] = []
env_opts (e ∷ entries) = env (env_texts (e ∷ entries)) ∷ []

-- A limit in bytes wraps around at 2 ^ 64; a quota is a hundred times the millicores, of a period of 0.1 s.
abbrev pub resource_opts : Option Resources → List SpecOpt
resource_opts none = []
resource_opts (some r) =
    (if ltb_ℤ (pos 0) r.memory_mb
      then memory_limit (pos_part r.memory_mb * 1024 * 1024 % 2 ^ 64) ∷ []
      else [])
    ++ (if ltb_ℤ (pos 0) r.cpu_millicores
        then cpu_cfs (pos (pos_part r.cpu_millicores * 100)) 100000 ∷ []
        else [])

abbrev pub mount_opts : List Mount → List SpecOpt
mount_opts [] = []
mount_opts (m ∷ mounts) = bind_mounts (m ∷ mounts) ∷ []

unfoldable pub spec_opts : RunOptions → List SpecOpt
spec_opts opts =
    image_config opts.image
    ∷ (args_opts opts.args
        ++ (env_opts opts.env ++ (resource_opts opts.resources ++ mount_opts opts.mounts)))

pub data RunError : Type 0 where
  create_container : String → Option Failure → RunError
  create_log_dir : RunError
  create_task : String → RunError
  cni_setup_failed : String → RunError
  wait_setup : String → RunError
  start_task : String → RunError
  exit_status : String → RunError
  load_container_failed : String → RunError
  delete_container : String → RunError
  list_containers : RunError
  get_task_failed : String → RunError
  kill_task_failed : String → RunError

-- `errdefs.IsNotFound`
abbrev pub is_not_found : Failure → Bool
is_not_found not_found = true
is_not_found _ = false

-- `ErrAlreadyExists`, of the error of a run
abbrev pub error_already_exists : RunError → Bool
error_already_exists (create_container id (some already_exists)) = true
error_already_exists _ = false

module _ (d : Containerd) where
  abbrev pub failure_of : String → RuntimeCall → Client → Option Failure
  failure_of id call c = d.answer c.log id call

  -- one call, whose answer is `failure_of` before it
  unfoldable pub called : String → RuntimeCall → Client → Client
  called id call c = record c {
    log = record { id = id; call = call; failure = failure_of id call c } ∷ c.log;
  }
