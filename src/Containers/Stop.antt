-- ===== src/Containers/Stop.antt =====
-- StopContainer, KillContainer, Cleanup, CleanupAll, ListRunning and ExecInContainer of
-- internal/runtime/containerd.go. Waiting for an exit ends by the exit or by its timeout.
pub mod Teardown
use smith.Containers.{
  task_delete_kill, remove_log, kill_task_failed, load_container, task_delete, Client, RunError,
  await_exit, Failure, container_delete, delete_container, list_containers, get_task_failed,
  load_container_failed, clear_ip, is_not_found, failure_of, task_kill, load_task, Containerd,
  task_wait, called, cni_teardown,
}
use smith.Prelude.Assoc
use smith.Prelude.{String, Bool, Option, none, some, List, [], ◌∷◌, if◌then◌else◌}
use smith.Types.{PortMapping}

module _ (d : Containerd) where
  -- a killed task is waited for, if its exit can be
  abbrev pub kill_and_wait : String → Client → Client
  kill_and_wait id c =
      let waiting = called d id task_wait c in
      if Assoc.is_some (failure_of d id task_wait c)
      then waiting
      else called d id await_exit (called d id task_kill waiting)

  -- the network is torn down, the task deleted
  abbrev pub stop_task : String → Bool → List PortMapping → Client → Client
  stop_task id has_cni ports c =
      let killed = kill_and_wait id c in
      called d id task_delete (if has_cni then called d id (cni_teardown ports) killed else killed)

  -- A container that is not there to delete is no error; its log file is removed.
  abbrev pub deleted : String → Option Failure → Client → Client × Option RunError
  deleted id none c = (called d id remove_log c, none)
  deleted id (some f) c =
      if is_not_found f then (called d id remove_log c, none) else (c, some (delete_container id))

  abbrev pub remove_container : String → Client → Client × Option RunError
  remove_container id c =
      let cleared = clear_ip id c in
      deleted id (failure_of d id container_delete cleared) (called d id container_delete cleared)

  -- what is done with a container that could be loaded; one that is not there is no error
  abbrev pub if_loaded :
      String → Option Failure → Client → Client × Option RunError → Client × Option RunError
  if_loaded id none c rest = rest
  if_loaded id (some f) c rest =
      (c, if is_not_found f then none else some (load_container_failed id))

  unfoldable pub stop_container :
      String → Bool → List PortMapping → Client → Client × Option RunError
  stop_container id has_cni ports c =
      let loaded = called d id load_container c in
      let tasked = called d id load_task loaded in
      if_loaded id (failure_of d id load_container c) loaded (
        remove_container id (
          if Assoc.is_some (failure_of d id load_task loaded)
          then tasked
          else stop_task id has_cni ports tasked))

  -- The network of a ghost container is torn down without its ports, whether or not there is a task.
  unfoldable pub cleanup : String → Bool → Client → Client × Option RunError
  cleanup id has_cni c =
      let loaded = called d id load_container c in
      let tasked = called d id load_task loaded in
      let stopped =
        if Assoc.is_some (failure_of d id load_task loaded)
        then tasked
        else called d id task_delete_kill (kill_and_wait id tasked) in
      if_loaded id (failure_of d id load_container c) loaded
        (remove_container id (if has_cni then called d id (cni_teardown []) stopped else stopped))

  -- An error of one container is only logged.
  unfoldable pub cleanup_each : List String → Bool → Client → Client
  cleanup_each [] has_cni c = c
  cleanup_each (id ∷ ids) has_cni c = cleanup_each ids has_cni (cleanup id has_cni c).0

  unfoldable pub cleanup_all : Bool → Client → Client × Option RunError
  cleanup_all has_cni c = elim (d.containers c.log) [
    | none ↦ (c, some list_containers)
    | some ids ↦ (cleanup_each ids has_cni c, none)
  ]

  unfoldable pub kill_container : String → Client → Client × Option RunError
  kill_container id c =
      let loaded = called d id load_container c in
      let tasked = called d id load_task loaded in
      let killed = called d id task_kill tasked in
      if Assoc.is_some (failure_of d id load_container c)
      then (loaded, some (load_container_failed id))
      else if Assoc.is_some (failure_of d id load_task loaded)
      then (tasked, some (get_task_failed id))
      else if Assoc.is_some (failure_of d id task_kill tasked)
      then (killed, some (kill_task_failed id))
      else (killed, none)
