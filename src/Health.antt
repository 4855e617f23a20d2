-- ===== src/Health.antt =====
-- internal/health/probe.go: the monitor of the containers' health. A goroutine that runs `run` is a
-- watcher with a stage; its context is a number, and cancelling it adds the number to a list. A method,
-- and the part of a round under the mutex, is one step. The answers of the HTTP server and of
-- containerd are arguments. What is logged is left out; the calls of OnHealthy are kept in a list.
pub mod Invariant
pub mod Rounds
pub mod Threshold
pub mod Watchers
use smith.Prelude.Assoc
use smith.Prelude.Int.{pos, leb_ℤ, ℤ}
use smith.Prelude.Text.{◌==◌}
use smith.Prelude.{
  ℕ, ◌+◌, String, ◌≡◌, ◌≢◌, Bool, true, false, not, ◌&&◌, ◌||◌, Option, none, some, List, [], ◌∷◌,
  ◌++◌, map, Elem, keep_if, ltb, leb, eqb, if◌then◌else◌,
}
use smith.Types.{Workload, HealthCheck}

pub record Status : Type 0 where
  pub healthy : Bool
  pub failures : ℕ

-- where a goroutine of `run` stands: before its first delay has passed, at the select of its loop, or
-- in a probe
pub data Stage : Type 0 where
  delayed : Stage
  selecting : Stage
  probing : Stage

pub record Watcher : Type 0 where
  pub ctx : ℕ
  pub id : String
  pub check : HealthCheck
  pub stage : Stage

pub record Monitor : Type 0 where
  pub status : List (String × Status)
  pub cancels : List (String × ℕ)
  pub has_on_healthy : Bool
  pub watchers : List Watcher
  pub cancelled : List ℕ
  pub contexts : ℕ
  pub recovered : List String

-- `NewMonitor`
abbrev pub new_monitor : Monitor
new_monitor = record {
  status = [];
  cancels = [];
  has_on_healthy = false;
  watchers = [];
  cancelled = [];
  contexts = 0;
  recovered = [];
}

abbrev pub start_status : Status
start_status = record { healthy = true; failures = 0 }

-- `Watch`, for a workload with a health check
unfoldable pub start_watch : String → HealthCheck → Monitor → Monitor
start_watch id check m = record m {
  cancels = Assoc.insert id m.contexts m.cancels;
  status = Assoc.insert id start_status m.status;
  watchers = record { ctx = m.contexts; id = id; check = check; stage = delayed } ∷ m.watchers;
  contexts = m.contexts + 1;
}

-- `Watch`, by the workload's health check
abbrev pub watch_check : Option HealthCheck → String → Monitor → Monitor
watch_check none id m = m
watch_check (some check) id m = if Assoc.has id m.cancels then m else start_watch id check m

-- `Watch`
unfoldable pub watch : Workload → Monitor → Monitor
watch w m = watch_check w.health_check w.id m

-- what `Unwatch` does with the entry of `cancels`
abbrev pub stop_watch : String → Option ℕ → Monitor → Monitor
stop_watch id none m = m
stop_watch id (some ctx) m = record m {
  cancelled = ctx ∷ m.cancelled;
  cancels = Assoc.delete id m.cancels;
  status = Assoc.delete id m.status;
}

-- `Unwatch`
unfoldable pub unwatch : String → Monitor → Monitor
unwatch id m = stop_watch id (Assoc.lookup id m.cancels) m

-- `Healthy`
unfoldable pub is_healthy : String → Monitor → Bool
is_healthy id m = elim (Assoc.lookup id m.status) [ none ↦ true | some s ↦ s.healthy ]

pub data ProbeError : Type 0 where
  http_failed : ProbeError
  http_status : ℕ → ProbeError
  no_command : ProbeError
  exec_failed : ProbeError
  exit_code : ℕ → ProbeError
  unknown_probe_type : String → ProbeError

-- `probeHTTP`, of the status that the server answers
unfoldable pub probe_http : Option ℕ → Option ProbeError
probe_http none = some http_failed
probe_http (some status) =
    if ltb status 200 || leb 300 status then some (http_status status) else none

-- `probeExec`, of the exit code
unfoldable pub probe_exec : List String → Option ℕ → Option ProbeError
probe_exec [] answer = some no_command
probe_exec (c ∷ command) none = some exec_failed
probe_exec (c ∷ command) (some code) = if eqb code 0 then none else some (exit_code code)

-- `probe`
unfoldable pub probe :
    (String → Option ℕ) → (List String → Option ℕ) → HealthCheck → Option ProbeError
unfolding probe_http probe_exec
probe http exec check =
    if check.kind == "http"
    then probe_http (http check.url)
    else if check.kind == "exec"
    then probe_exec check.command (exec check.command)
    else some (unknown_probe_type check.kind)

-- the status after a probe that failed, and after one that did not
abbrev pub failed_once : ℤ → Status → Status
failed_once threshold s = record {
  healthy = if leb_ℤ threshold (pos (s.failures + 1)) then false else s.healthy;
  failures = s.failures + 1;
}

-- the status that a round writes, and whether `run` returns after it
unfoldable pub record_probe : ℤ → Bool → Status → Status × Bool
record_probe threshold true s = (failed_once threshold s, leb_ℤ threshold (pos (s.failures + 1)))
record_probe threshold false s = (start_status, false)

abbrev pub drop_watcher : ℕ → List Watcher → List Watcher
drop_watcher ctx watchers = keep_if (λ g. not (eqb g.ctx ctx)) watchers

abbrev pub staged : Stage → Watcher → Watcher
staged stage g = record g { stage = stage }

abbrev pub set_stage : ℕ → Stage → List Watcher → List Watcher
set_stage ctx stage watchers = map (λ g. if eqb g.ctx ctx then staged stage g else g) watchers

-- the end of a round, with the status that the container has
unfoldable pub after_round : Watcher → Bool → Status → Monitor → Monitor
unfolding record_probe
after_round g failed s m = record m {
  status = Assoc.insert g.id (record_probe g.check.threshold failed s).0 m.status;
  watchers =
      if (record_probe g.check.threshold failed s).1
      then drop_watcher g.ctx m.watchers
      else set_stage g.ctx selecting m.watchers;
  recovered =
      if not failed && (ltb 0 s.failures && m.has_on_healthy)
      then m.recovered ++ (g.id ∷ [])
      else m.recovered;
}

-- a nil pointer panics
abbrev pub finish_status : Option Status → Watcher → Bool → Monitor → Option Monitor
finish_status none g failed m = none
finish_status (some s) g failed m = some (after_round g failed s m)

-- The end of a round, under the mutex. `none` is a panic.
unfoldable pub finish_round : Watcher → Bool → Monitor → Option Monitor
finish_round g failed m = finish_status (Assoc.lookup g.id m.status) g failed m

abbrev pub is_cancelled : ℕ → List ℕ → Bool
is_cancelled ctx [] = false
is_cancelled ctx (c ∷ cancelled) = eqb c ctx || is_cancelled ctx cancelled

-- Either ready case of a select may be taken, so a watcher that is cancelled may begin another probe.
pub data Turn : Monitor → Monitor → Type 0 where
  watched : (m : Monitor) (w : Workload) → Turn m (watch w m)
  unwatched : (m : Monitor) (id : String) → Turn m (unwatch id m)
  delay_over :
      (m : Monitor) (g : Watcher)
      → Elem g m.watchers
      → g.stage ≡ delayed
      → Turn m (record m { watchers = set_stage g.ctx selecting m.watchers })
  ticked :
      (m : Monitor) (g : Watcher)
      → Elem g m.watchers
      → g.stage ≡ selecting
      → Turn m (record m { watchers = set_stage g.ctx probing m.watchers })
  stopped :
      (m : Monitor) (g : Watcher)
      → Elem g m.watchers
      → g.stage ≢ probing
      → is_cancelled g.ctx m.cancelled ≡ true
      → Turn m (record m { watchers = drop_watcher g.ctx m.watchers })
  round_over :
      (m m' : Monitor) (g : Watcher) (failed : Bool)
      → Elem g m.watchers
      → g.stage ≡ probing
      → finish_round g failed m ≡ some m'
      → Turn m m'

pub data Turns (m : Monitor) : Monitor → Type 0 where
  no_turn : Turns m m
  turn_after : {k n : Monitor} → Turns m k → Turn k n → Turns m n
