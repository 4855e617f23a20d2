-- ===== src/Containers/Holding.antt =====
-- What a container still holds after a log of calls to containerd and CNI.
use smith.Containers.{
  called, Containerd, Event, cni_teardown, new_container, cni_setup, new_task, RuntimeCall, SpecOpt,
  Failure, container_delete, task_delete, failure_of, Client, task_delete_kill,
}
use smith.Prelude.Assoc
use smith.Prelude.Text.{◌==◌, eq_refl}
use smith.Prelude.{
  String, ◌≡◌, refl, Bool, true, false, not, ◌&&◌, Option, none, some, List, [], ◌∷◌, if◌then◌else◌,
}
use smith.Types.{PortMapping}

pub record Held : Type 0 where
  pub container : Bool
  pub task : Bool
  pub network : Bool
  -- no task was deleted before its network was torn down, and no container before its task
  pub in_order : Bool

abbrev pub nothing_held : Held
nothing_held = record { container = false; task = false; network = false; in_order = true }

-- what one call changes, if it succeeded; a call that fails leaves what there is
abbrev pub after_call : RuntimeCall → Option Failure → Held → Held
after_call (new_container opts) none h = record h { container = true }
after_call new_task none h = record h { task = true }
after_call (cni_setup ports) none h = record h { network = true }
after_call (cni_teardown ports) none h = record h { network = false }
after_call task_delete none h = record h { task = false; in_order = h.in_order && not h.network }
after_call task_delete_kill none h = record h {
  task = false;
  in_order = h.in_order && not h.network;
}
after_call container_delete none h = record h {
  container = false;
  in_order = h.in_order && not h.task;
}
after_call _ f h = h

-- for a container no deletion and no teardown of the network fails
abbrev pub Releases : Containerd → String → Type 0
Releases d id =
    (log : List Event)
    → ((ports : List PortMapping) → d.answer log id (cni_teardown ports) ≡ none)
      × (d.answer log id task_delete ≡ none)
      × (d.answer log id task_delete_kill ≡ none)
      × (d.answer log id container_delete ≡ none)

-- what the container of an ID holds after a log
unfoldable pub held : String → List Event → Held
held id [] = nothing_held
held id (e ∷ log) = if e.id == id then after_call e.call e.failure (held id log) else held id log

module _ (d : Containerd) (id : String) (r : Releases d id) where
  pub teardown_done :
      (log : List Event) (ports : List PortMapping) → d.answer log id (cni_teardown ports) ≡ none
  teardown_done log = (r log).0

  pub task_delete_done : (log : List Event) → d.answer log id task_delete ≡ none
  task_delete_done log = (r log).1

  pub task_delete_kill_done : (log : List Event) → d.answer log id task_delete_kill ≡ none
  task_delete_kill_done log = (r log).2

  pub container_delete_done : (log : List Event) → d.answer log id container_delete ≡ none
  container_delete_done log = (r log).3

module _ (d : Containerd) (id : String) (call : RuntimeCall) (c : Client) where
  pub held-called :
      held id (called d id call c).log ≡ after_call call (failure_of d id call c) (held id c.log)
  unfolding held called
  held-called = rw (eq_refl id) refl

  pub called-ips : (called d id call c).ips ≡ c.ips
  unfolding called
  called-ips = refl

-- a container whose task runs, with a network or without
abbrev pub held_all : Bool → Held
held_all network = record { container = true; task = true; network = network; in_order = true }

-- nothing is left of a container, and its address is forgotten
abbrev pub IsGone : String → Client → Type 0
IsGone id c = (held id c.log ≡ nothing_held) × (Assoc.lookup id c.ips ≡ none)

-- a call that acquires something, which failed or did not
module _ (h : Held) (f : Option Failure) where
  pub cni_setup_refused :
      (ports : List PortMapping) → Assoc.is_some f ≡ true → after_call (cni_setup ports) f h ≡ h
  cni_setup_refused ports e = refused f e
    where
      refused : (o : Option Failure) → Assoc.is_some o ≡ true → after_call (cni_setup ports) o h ≡ h
      refused none r = cc
      refused (some g) r = refl

  pub cni_setup_done :
      (ports : List PortMapping)
      → Assoc.is_some f ≡ false
      → after_call (cni_setup ports) f h ≡ record h { network = true }
  cni_setup_done ports e = done f e
    where
      done :
          (o : Option Failure)
          → Assoc.is_some o ≡ false
          → after_call (cni_setup ports) o h ≡ record h { network = true }
      done none r = refl
      done (some g) r = cc

  pub new_task_refused : Assoc.is_some f ≡ true → after_call new_task f h ≡ h
  new_task_refused e = refused f e
    where
      refused : (o : Option Failure) → Assoc.is_some o ≡ true → after_call new_task o h ≡ h
      refused none r = cc
      refused (some g) r = refl

  pub new_task_done : Assoc.is_some f ≡ false → after_call new_task f h ≡ record h { task = true }
  new_task_done e = done f e
    where
      done :
          (o : Option Failure)
          → Assoc.is_some o ≡ false
          → after_call new_task o h ≡ record h { task = true }
      done none r = refl
      done (some g) r = cc

  pub new_container_done :
      (opts : List SpecOpt)
      → Assoc.is_some f ≡ false
      → after_call (new_container opts) f h ≡ record h { container = true }
  new_container_done opts e = done f e
    where
      done :
          (o : Option Failure)
          → Assoc.is_some o ≡ false
          → after_call (new_container opts) o h ≡ record h { container = true }
      done none r = refl
      done (some g) r = cc
