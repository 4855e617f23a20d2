-- ===== src/Containers/Run.antt =====
-- RunContainer of internal/runtime/containerd.go, with its deferred calls.
pub mod Cleanup
pub mod Outcome
pub mod Whole
use smith.Containers.{
  task_wait, clear_ip, new_task, spec_opts, Client, create_log_dir, Containerd, await_exit,
  cni_teardown, called, task_start, cni_setup_failed, exit_status, failure_of, create_task,
  wait_setup, cni_setup, new_container, create_container, container_delete, task_delete_kill,
  set_ip, start_task, RunOptions, RunError, make_log_dir, task_delete,
}
use smith.Prelude.Assoc
use smith.Prelude.{
  ℕ, Bool, true, false, not, ◌&&◌, Option, none, some, if◌then◌else◌, err, Result, ok,
}

-- what the deferred calls find when the function returns
pub record Returning : Type 0 where
  pub client : Client
  pub result : Result RunError ℕ
  pub started : Bool
  pub task_cleanup : Bool
  pub cni_done : Bool

-- a return before the task is started
abbrev pub fails : Client → RunError → Returning
fails c e = record {
  client = c;
  result = err e;
  started = false;
  task_cleanup = true;
  cni_done = false;
}

module _ (d : Containerd) (opts : RunOptions) where
  -- the three deferred calls
  abbrev pub defer_container : Returning → Returning
  defer_container r =
      if r.started
      then r
      else record r { client = called d opts.id container_delete (clear_ip opts.id r.client) }

  abbrev pub defer_task : Returning → Returning
  defer_task r =
      if r.task_cleanup then record r { client = called d opts.id task_delete_kill r.client } else r

  abbrev pub defer_cni : Returning → Returning
  defer_cni r =
      if not r.cni_done && opts.has_cni
      then record r { client = called d opts.id (cni_teardown opts.ports) r.client }
      else r

  abbrev pub exit_result : Option ℕ → Result RunError ℕ
  exit_result none = err (exit_status opts.id)
  exit_result (some code) = ok code

  -- the task has been started: its exit, and the teardown in order
  unfoldable pub run_started : Client → Returning
  unfolding clear_ip
  run_started c =
      let exited = called d opts.id await_exit c in
      let code = d.code_of exited.log opts.id in
      let unwired =
        if opts.has_cni then called d opts.id (cni_teardown opts.ports) exited else exited in
      let ended = called d opts.id task_delete unwired in
      record {
        client = called d opts.id container_delete (clear_ip opts.id ended);
        result = exit_result code;
        started = true;
        task_cleanup = false;
        cni_done = true;
      }

  -- from `task.Wait` on
  unfoldable pub run_wired : Client → Returning
  run_wired c =
      let waiting = called d opts.id task_wait c in
      let running = called d opts.id task_start waiting in
      if Assoc.is_some (failure_of d opts.id task_wait c)
      then fails waiting (wait_setup opts.id)
      else if Assoc.is_some (failure_of d opts.id task_start waiting)
      then fails running (start_task opts.id)
      else run_started running

  -- with a task: CNI, if it is configured, and the rest
  unfoldable pub run_task : Client → Returning
  run_task c =
      let wired = called d opts.id (cni_setup opts.ports) c in
      if not opts.has_cni
      then defer_cni (run_wired c)
      else if Assoc.is_some (failure_of d opts.id (cni_setup opts.ports) c)
      then fails wired (cni_setup_failed opts.id)
      else defer_cni (run_wired (set_ip opts.id (d.address c.log opts.id) wired))

  -- with a container: its log directory and its task
  unfoldable pub run_created : Client → Returning
  run_created c =
      let logged = called d opts.id make_log_dir c in
      let tasked = called d opts.id new_task logged in
      if Assoc.is_some (failure_of d opts.id make_log_dir c)
      then fails logged create_log_dir
      else if Assoc.is_some (failure_of d opts.id new_task logged)
      then fails tasked (create_task opts.id)
      else defer_task (run_task tasked)

  unfoldable pub run_container : Client → Client × Result RunError ℕ
  run_container c =
      let created = called d opts.id (new_container (spec_opts opts)) c in
      let failure = failure_of d opts.id (new_container (spec_opts opts)) c in
      let returned = defer_container (run_created created) in
      if Assoc.is_some failure
      then (created, err (create_container opts.id failure))
      else (returned.client, returned.result)
