-- ===== src/Containers/Run/Outcome.antt =====
-- What RunContainer of internal/runtime/containerd.go returns when nothing fails.
use smith.Containers.Run.{
  defer_cni, run_started, defer_task, run_wired, run_task, run_created, Returning, exit_result,
  run_container,
}
use smith.Containers.{
  task_wait, new_task, spec_opts, Client, Containerd, called, task_start, Event, failure_of,
  RuntimeCall, cni_setup, new_container, RunOptions, RunError, make_log_dir,
}
use smith.Prelude.Assoc
use smith.Prelude.{ℕ, ◌≡◌, ap, true, not, ◌&&◌, none, some, List, if_intro, Result, ok}

module _ (d : Containerd) (opts : RunOptions) (code : ℕ)
    (answers : (log : List Event) (call : RuntimeCall) → d.answer log opts.id call ≡ none)
    (codes : (log : List Event) → d.code_of log opts.id ≡ some code) where
  -- a branch for a call that failed is not taken
  no_failure :
      {A : Type 0} (log : List Event) (call : RuntimeCall)
      → Assoc.is_some (d.answer log opts.id call) ≡ true
      → A
  no_failure log call e = cc (ap Assoc.is_some (answers log call))

  run_wired-code : (c : Client) → (run_wired d opts c).result ≡ ok code
  unfolding run_wired run_started
  run_wired-code c =
      let waiting = called d opts.id task_wait c in
      if_intro (λ (r : Returning). r.result ≡ ok code)
        (Assoc.is_some (failure_of d opts.id task_wait c)) (λ e. no_failure c.log task_wait e)
        (λ waits.
          if_intro (λ (r : Returning). r.result ≡ ok code)
            (Assoc.is_some (failure_of d opts.id task_start waiting))
            (λ e. no_failure waiting.log task_start e)
            (λ starts. ap (exit_result d opts) (codes _)))

  defer_cni-result : (r : Returning) → r.result ≡ ok code → (defer_cni d opts r).result ≡ ok code
  defer_cni-result r e =
      if_intro (λ (k : Returning). k.result ≡ ok code) (not r.cni_done && opts.has_cni) (λ b. e)
        (λ b. e)

  run_task-code : (c : Client) → (run_task d opts c).result ≡ ok code
  unfolding run_task
  run_task-code c =
      if_intro (λ (r : Returning). r.result ≡ ok code) (not opts.has_cni)
        (λ bare. defer_cni-result (run_wired d opts c) (run_wired-code c))
        (λ cni.
          if_intro (λ (r : Returning). r.result ≡ ok code)
            (Assoc.is_some (failure_of d opts.id (cni_setup opts.ports) c))
            (λ e. no_failure c.log (cni_setup opts.ports) e)
            (λ set. defer_cni-result (run_wired d opts _) (run_wired-code _)))

  defer_task-result : (r : Returning) → r.result ≡ ok code → (defer_task d opts r).result ≡ ok code
  defer_task-result r e =
      if_intro (λ (k : Returning). k.result ≡ ok code) r.task_cleanup (λ b. e) (λ b. e)

  run_created-code : (c : Client) → (run_created d opts c).result ≡ ok code
  unfolding run_created
  run_created-code c =
      let logged = called d opts.id make_log_dir c in
      if_intro (λ (r : Returning). r.result ≡ ok code)
        (Assoc.is_some (failure_of d opts.id make_log_dir c)) (λ e. no_failure c.log make_log_dir e)
        (λ dir.
          if_intro (λ (r : Returning). r.result ≡ ok code)
            (Assoc.is_some (failure_of d opts.id new_task logged))
            (λ e. no_failure logged.log new_task e)
            (λ tasked. defer_task-result (run_task d opts _) (run_task-code _)))

  pub run_container-code : (c : Client) → (run_container d opts c).1 ≡ ok code
  unfolding run_container
  run_container-code c =
      let creating = new_container (spec_opts opts) in
      let r = run_created d opts (called d opts.id creating c) in
      if_intro (λ (x : Client × Result RunError ℕ). x.1 ≡ ok code)
        (Assoc.is_some (failure_of d opts.id creating c)) (λ e. no_failure c.log creating e)
        (λ made.
          if_intro (λ (k : Returning). k.result ≡ ok code) r.started
            (λ b. run_created-code (called d opts.id creating c))
            (λ b. run_created-code (called d opts.id creating c)))
