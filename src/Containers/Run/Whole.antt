-- ===== src/Containers/Run/Whole.antt =====
-- The whole of RunContainer of internal/runtime/containerd.go.
use smith.Containers.Holding.{held-called, IsGone, new_container_done, held, Releases, nothing_held}
use smith.Containers.Run.Cleanup.{run_created-IsLeft, defer_container-IsGone}
use smith.Containers.Run.Outcome.{run_container-code}
use smith.Containers.Run.{run_created, run_container}
use smith.Containers.{
  called, Containerd, Event, new_container, spec_opts, RuntimeCall, RunOptions, RunError,
  failure_of, Client,
}
use smith.Prelude.Assoc
use smith.Prelude.{ℕ, ◌≡◌, refl, sym, ◌∙◌, true, false, none, some, List, if_intro, Result, ok}

module _ (d : Containerd) (opts : RunOptions) where
  -- If no deletion of the task or of the container and no teardown of the network fails, then a run whose
  -- container could be created, of an ID that held nothing, leaves neither the container nor its task nor
  -- its network nor its address behind, whichever of its other calls fail, and has torn them down in order:
  -- the network before the task, the task before the container. A run whose container could not be created
  -- makes no other call, and changes no address. When every call succeeds and the exit code can be read, it
  -- is the result.
  pub run_container-IsGone :
      (c : Client)
      → Releases d opts.id
      → held opts.id c.log ≡ nothing_held
      → (Assoc.is_some (failure_of d opts.id (new_container (spec_opts opts)) c) ≡ false
          → IsGone opts.id (run_container d opts c).0)
        × (Assoc.is_some (failure_of d opts.id (new_container (spec_opts opts)) c) ≡ true
            → (run_container d opts c).0 ≡ called d opts.id (new_container (spec_opts opts)) c)
        × ((code : ℕ)
            → ((log : List Event) (call : RuntimeCall) → d.answer log opts.id call ≡ none)
            → ((log : List Event) → d.code_of log opts.id ≡ some code)
            → (run_container d opts c).1 ≡ ok code)
  unfolding run_container
  run_container-IsGone c releases h =
      let creating = new_container (spec_opts opts) in
      let made = failure_of d opts.id creating c in
      let created = called d opts.id creating c in
      let r = run_created d opts created in
      (
        (λ done.
            if_intro (λ (x : Client × Result RunError ℕ). IsGone opts.id x.0) (Assoc.is_some made)
              (λ e. cc (sym e ∙ done))
              (λ e.
                defer_container-IsGone d opts releases r.client r.result r.started r.task_cleanup
                  r.cni_done
                  (run_created-IsLeft d opts releases created (
                    simp (held-called, h)
                      (new_container_done nothing_held made (spec_opts opts) done))))),
        (λ failed.
            if_intro (λ (x : Client × Result RunError ℕ). x.0 ≡ created) (Assoc.is_some made)
              (λ e. refl) (λ e. cc (sym e ∙ failed))),
        (λ code answers codes. run_container-code d opts code answers codes c),
      )
