-- ===== src/Containers/Stop/Teardown.antt =====
-- What StopContainer and CleanupAll of internal/runtime/containerd.go leave.
use smith.Containers.Holding.{
  called-ips, held-called, container_delete_done, IsGone, task_delete_done, held, teardown_done,
  held_all, Releases, nothing_held,
}
use smith.Containers.Stop.{kill_and_wait, stop_container, remove_container, deleted, stop_task}
use smith.Containers.{
  called, Containerd, is_not_found, clear_ip, not_found, load_task, Failure, container_delete,
  RunError, load_container, failure_of, Client, task_wait,
}
use smith.Prelude.Assoc
use smith.Prelude.{String, ◌≡◌, refl, Bool, true, false, Option, none, some, List, if_intro}
use smith.Types.{PortMapping}

module _ (d : Containerd) (id : String) (releases : Releases d id) where
  kill_and_wait-held : (c : Client) → held id (kill_and_wait d id c).log ≡ held id c.log
  kill_and_wait-held c =
      if_intro (λ (k : Client). held id k.log ≡ held id c.log)
        (Assoc.is_some (failure_of d id task_wait c)) (λ e. simp held-called)
        (λ e. simp held-called)

  stop_task-held :
      (has_cni : Bool) (ports : List PortMapping) (c : Client)
      → held id c.log ≡ held_all has_cni
      → held id (stop_task d id has_cni ports c).log ≡ record nothing_held { container = true }
  stop_task-held true ports c h =
      simp
        (
          held-called,
          kill_and_wait-held,
          teardown_done d id releases,
          task_delete_done d id releases,
          h,
        )
        refl
  stop_task-held false ports c h =
      simp
        (
          held-called,
          kill_and_wait-held,
          teardown_done d id releases,
          task_delete_done d id releases,
          h,
        )
        refl

  deleted-IsGone : (o : Option Failure) (c : Client) → IsGone id c → IsGone id (deleted d id o c).0
  deleted-IsGone none c h = (simp (held-called, h.0), simp (called-ips, h.1))
  deleted-IsGone (some f) c h =
      if_intro (λ (r : Client × Option RunError). IsGone id r.0) (is_not_found f)
        (λ e. (simp (held-called, h.0), simp (called-ips, h.1))) (λ e. h)

  remove_container-IsGone :
      (c : Client)
      → held id c.log ≡ record nothing_held { container = true }
      → IsGone id (remove_container d id c).0
  unfolding clear_ip
  remove_container-IsGone c h =
      deleted-IsGone (failure_of d id container_delete (clear_ip id c))
        (called d id container_delete (clear_ip id c))
        (
          simp (held-called, container_delete_done d id releases, h),
          simp (called-ips, Assoc.lookup-delete_self),
        )

  -- If no deletion of the task or of the container and no teardown of the network fails, then
  -- a stop takes everything from a container that is there, in order: from one whose task is there, its
  -- network, then its task, then the container and its address; from one without a task, the container and
  -- its address. A container that is not there is no error, and nothing else is called or changed.
  pub stop_container-IsGone :
      (has_cni : Bool) (ports : List PortMapping) (c : Client)
      → (failure_of d id load_container c ≡ none
          → failure_of d id load_task (called d id load_container c) ≡ none
          → held id c.log ≡ held_all has_cni
          → IsGone id (stop_container d id has_cni ports c).0)
        × (failure_of d id load_container c ≡ none
            → Assoc.is_some (failure_of d id load_task (called d id load_container c)) ≡ true
            → held id c.log ≡ record nothing_held { container = true }
            → IsGone id (stop_container d id has_cni ports c).0)
        × (failure_of d id load_container c ≡ some not_found
            → stop_container d id has_cni ports c ≡ (called d id load_container c, none))
  unfolding stop_container
  stop_container-IsGone has_cni ports c =
      let tasked = called d id load_task (called d id load_container c) in
      (
        (λ found running h. rw found (
            rw running (
              remove_container-IsGone (stop_task d id has_cni ports tasked)
                (stop_task-held has_cni ports tasked (simp (held-called, h) refl))))),
        (λ found idle h.
            rw found (rw idle (remove_container-IsGone tasked (simp (held-called, h) refl)))),
        (λ missing. rw missing refl),
      )
