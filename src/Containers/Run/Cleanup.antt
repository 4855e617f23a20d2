-- ===== src/Containers/Run/Cleanup.antt =====
-- RunContainer of internal/runtime/containerd.go leaves nothing behind.
use smith.Containers.Holding.{
  called-ips, held-called, container_delete_done, IsGone, new_task_refused, cni_setup_refused,
  task_delete_kill_done, task_delete_done, held, teardown_done, held_all, new_task_done, Held,
  Releases, nothing_held, cni_setup_done,
}
use smith.Containers.Run.{
  defer_task, defer_cni, run_created, defer_container, run_task, Returning, run_started, run_wired,
}
use smith.Containers.{
  called, Containerd, set_ip, clear_ip, task_start, cni_setup, new_task, RunOptions, RunError,
  make_log_dir, failure_of, Client, task_wait,
}
use smith.Prelude.Assoc
use smith.Prelude.Text.{◌==◌}
use smith.Prelude.{
  ℕ, String, ◌≡◌, refl, ap, ◌∙◌, inl, inr, Bool, true, false, not, none, arith, if_intro, Result,
  Bool-cases, if◌then◌else◌,
}

-- what a return leaves: nothing after a start, and else what the deferred calls clean up
abbrev pub IsClean : String → Held → Returning → Type 0
IsClean id before r =
    (held id r.client.log ≡ (if r.started then nothing_held else before))
    × (r.started ≡ true → Assoc.lookup id r.client.ips ≡ none)
    × (r.task_cleanup ≡ not r.started)
    × (r.cni_done ≡ r.started)

-- with the task gone, before the container is
abbrev pub IsLeft : String → Returning → Type 0
IsLeft id r =
    (held id r.client.log
      ≡ (if r.started then nothing_held else record nothing_held { container = true }))
    × (r.started ≡ true → Assoc.lookup id r.client.ips ≡ none)

set_ip-held : (id ip : String) (c : Client) → held id (set_ip id ip c).log ≡ held id c.log
unfolding set_ip
set_ip-held id ip c =
    if_intro (λ (k : Client). held id k.log ≡ held id c.log) (ip == "") (λ e. refl) (λ e. refl)

module _ (d : Containerd) (opts : RunOptions) (releases : Releases d opts.id) where
  run_started-IsClean :
      (c : Client)
      → held opts.id c.log ≡ held_all opts.has_cni
      → IsClean opts.id (held_all opts.has_cni) (run_started d opts c)
  unfolding run_started
  run_started-IsClean c h = elim (Bool-cases opts.has_cni) [
    | inl wired ↦ rw wired (
      simp
          (
            held-called,
            teardown_done d opts.id releases,
            task_delete_done d opts.id releases,
            task_delete_kill_done d opts.id releases,
            container_delete_done d opts.id releases,
            h,
          )
          refl,
      (λ s. simp (called-ips, Assoc.lookup-delete_self)),
      refl,
      refl,
    )
    | inr bare ↦ rw bare (
      simp
          (
            held-called,
            teardown_done d opts.id releases,
            task_delete_done d opts.id releases,
            task_delete_kill_done d opts.id releases,
            container_delete_done d opts.id releases,
            h,
          )
          (rw bare refl),
      (λ s. simp (called-ips, Assoc.lookup-delete_self)),
      refl,
      refl,
    )
  ]

  run_wired-IsClean :
      (c : Client)
      → held opts.id c.log ≡ held_all opts.has_cni
      → IsClean opts.id (held_all opts.has_cni) (run_wired d opts c)
  unfolding run_wired
  run_wired-IsClean c h = elim (Bool-cases (Assoc.is_some (failure_of d opts.id task_wait c))) [
    | inl unready ↦ rw unready (simp (held-called, h), (λ s. cc), refl, refl)
    | inr ready ↦
        elim (Bool-cases
          (Assoc.is_some (failure_of d opts.id task_start (called d opts.id task_wait c)))) [
            | inl unstarted ↦ rw ready (rw unstarted (simp (held-called, h), (λ s. cc), refl, refl))
            | inr running ↦ rw ready (
                rw running (
                  run_started-IsClean (called d opts.id task_start (called d opts.id task_wait c))
                    (simp (held-called, h))))
          ]
  ]

  -- a container with a task, whose network is not set up or is torn down
  abbrev unwired : Held
  unwired = held_all false

  abbrev container_only : Held
  container_only = record unwired { task = false }

  defer_cni-IsClean :
      (c : Client) (result : Result RunError ℕ) (started task_cleanup cni_done : Bool)
      → IsClean opts.id (held_all opts.has_cni) (record {
        client = c;
        result = result;
        started = started;
        task_cleanup = task_cleanup;
        cni_done = cni_done;
      })
      → IsClean opts.id unwired (
          defer_cni d opts (record {
            client = c;
            result = result;
            started = started;
            task_cleanup = task_cleanup;
            cni_done = cni_done;
          }))
  defer_cni-IsClean c result true task_cleanup true h = h
  defer_cni-IsClean c result true task_cleanup false h = cc (h.3)
  defer_cni-IsClean c result false task_cleanup true h = cc (h.3)
  defer_cni-IsClean c result false task_cleanup false h = elim (Bool-cases opts.has_cni) [
    | inl wired ↦
        rw wired
          (simp (held-called, teardown_done d opts.id releases, h.0) refl, (λ s. cc), h.2, refl)
    | inr bare ↦ rw bare (h.0 ∙ ap held_all bare, (λ s. cc), h.2, refl)
  ]

  defer_task-IsLeft :
      (c : Client) (result : Result RunError ℕ) (started task_cleanup cni_done : Bool)
      → IsClean opts.id unwired (record {
        client = c;
        result = result;
        started = started;
        task_cleanup = task_cleanup;
        cni_done = cni_done;
      })
      → IsLeft opts.id (
          defer_task d opts (record {
            client = c;
            result = result;
            started = started;
            task_cleanup = task_cleanup;
            cni_done = cni_done;
          }))
  defer_task-IsLeft c result true true cni_done h = cc (h.2)
  defer_task-IsLeft c result true false cni_done h = (h.0, h.1)
  defer_task-IsLeft c result false true cni_done h =
      (simp (held-called, task_delete_kill_done d opts.id releases, h.0) refl, (λ s. cc))
  defer_task-IsLeft c result false false cni_done h = cc (h.2)

  with_network :
      (c : Client)
      → held opts.id c.log ≡ held_all opts.has_cni
      → IsClean opts.id unwired (defer_cni d opts (run_wired d opts c))
  with_network c h =
      let r = run_wired d opts c in
      defer_cni-IsClean r.client r.result r.started r.task_cleanup r.cni_done
        (run_wired-IsClean c h)

  run_task-IsClean :
      (c : Client) → held opts.id c.log ≡ unwired → IsClean opts.id unwired (run_task d opts c)
  unfolding run_task
  run_task-IsClean c h =
      let setup = failure_of d opts.id (cni_setup opts.ports) c in
      let wired = called d opts.id (cni_setup opts.ports) c in
      if_intro (IsClean opts.id unwired) (not opts.has_cni)
        (λ bare. with_network c (h ∙ ap held_all (ground (arith, bare))))
        (λ cni.
          if_intro (IsClean opts.id unwired) (Assoc.is_some setup)
            (λ failed. (
              simp (held-called, h) (cni_setup_refused unwired setup opts.ports failed),
              (λ s. cc),
              refl,
              refl,
            ))
            (λ done.
              let up : held opts.id wired.log ≡ held_all true =
                simp (held-called, h) (cni_setup_done unwired setup opts.ports done) in
              let network : true ≡ opts.has_cni = ground (arith, cni) in
              with_network (set_ip opts.id (d.address c.log opts.id) wired)
                (set_ip-held opts.id (d.address c.log opts.id) wired ∙ up ∙ ap held_all network)))

  with_task :
      (c : Client)
      → held opts.id c.log ≡ unwired
      → IsLeft opts.id (defer_task d opts (run_task d opts c))
  with_task c h =
      let r = run_task d opts c in
      defer_task-IsLeft r.client r.result r.started r.task_cleanup r.cni_done (run_task-IsClean c h)

  pub run_created-IsLeft :
      (c : Client) → held opts.id c.log ≡ container_only → IsLeft opts.id (run_created d opts c)
  unfolding run_created
  run_created-IsLeft c h =
      let logged = called d opts.id make_log_dir c in
      let tasking = failure_of d opts.id new_task logged in
      if_intro (IsLeft opts.id) (Assoc.is_some (failure_of d opts.id make_log_dir c))
        (λ no_dir. (simp (held-called, h) refl, (λ s. cc)))
        (λ dir.
          if_intro (IsLeft opts.id) (Assoc.is_some tasking)
            (λ no_task.
              (simp (held-called, h) (new_task_refused container_only tasking no_task), (λ s. cc)))
            (λ tasked.
              with_task (called d opts.id new_task logged)
                (simp (held-called, h) (new_task_done container_only tasking tasked))))

  pub defer_container-IsGone :
      (c : Client) (result : Result RunError ℕ) (started task_cleanup cni_done : Bool)
      → IsLeft opts.id (record {
        client = c;
        result = result;
        started = started;
        task_cleanup = task_cleanup;
        cni_done = cni_done;
      })
      → IsGone opts.id
          (defer_container d opts (record {
            client = c;
            result = result;
            started = started;
            task_cleanup = task_cleanup;
            cni_done = cni_done;
          })).client
  unfolding clear_ip
  defer_container-IsGone c result true task_cleanup cni_done h = (h.0, h.1 refl)
  defer_container-IsGone c result false task_cleanup cni_done h = (
    simp (held-called, container_delete_done d opts.id releases, h.0) refl,
    simp (called-ips, Assoc.lookup-delete_self),
  )
