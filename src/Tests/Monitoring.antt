-- ===== src/Tests/Monitoring.antt =====
-- internal/health/probe.go on one container with a threshold of two.
use smith.Health.Threshold.{HasFailures, rounds, limit, rounds_iff}
use smith.Health.Watchers.{Turns-watchers}
use smith.Health.{
  new_monitor, is_cancelled, finish_round, probe, Monitor, watched, Watcher, start_watch, unwatch,
  no_turn, http_status, start_status, watch, turn_after,
}
use smith.Prelude.Assoc
use smith.Prelude.Int.{pos}
use smith.Prelude.{◌≡◌, refl, ◌≢◌, ◌↔◌, Bool, true, false, none, some, [], ◌∷◌, Elem}
use smith.Types.{Workload, no_workload, HealthCheck}

abbrev every_second : HealthCheck
every_second = record {
  kind = "http";
  command = [];
  url = "http://10.22.1.7:8080/";
  initial_delay = pos 0;
  interval = pos 1000000000;
  threshold = pos 2;
}

abbrev checked : Workload
checked = record no_workload { id = "web-0"; health_check = some every_second }

rounds_iff_example :
    ((rounds (pos 2) (true ∷ false ∷ true ∷ true ∷ []) start_status).healthy ≡ false)
    ↔ HasFailures (limit (pos 2)) (true ∷ false ∷ true ∷ true ∷ [])
rounds_iff_example = rounds_iff (pos 2) (true ∷ false ∷ true ∷ true ∷ [])

two_in_a_row : (rounds (pos 2) (true ∷ false ∷ true ∷ true ∷ []) start_status).failures ≡ 2
unfolding rounds
two_in_a_row = refl

abbrev monitored : Monitor
monitored = record new_monitor { has_on_healthy = true }

Turns-watchers_example :
    ((g k : Watcher)
      → Elem g (watch checked monitored).watchers
      → Elem k (watch checked monitored).watchers
      → is_cancelled g.ctx (watch checked monitored).cancelled ≡ false
      → is_cancelled k.ctx (watch checked monitored).cancelled ≡ false
      → g.id ≡ k.id
      → g.ctx ≡ k.ctx)
    × ((g : Watcher) (failed : Bool)
        → Elem g (watch checked monitored).watchers
        → is_cancelled g.ctx (watch checked monitored).cancelled ≡ false
        → finish_round g failed (watch checked monitored) ≢ none)
    × ((g : Watcher) (failed : Bool)
        → finish_round g failed (unwatch g.id (watch checked monitored)) ≡ none)
Turns-watchers_example =
    Turns-watchers true (watch checked monitored) (turn_after no_turn (watched monitored checked))

probe_answers :
    (probe (λ url. some 503) (λ c. none) every_second ≡ some (http_status 503))
    × (probe (λ url. some 204) (λ c. none) every_second ≡ none)
unfolding probe
probe_answers = (refl, refl)

ignored_twice : (watch checked (watch checked monitored)).contexts ≡ 1
unfolding watch start_watch Assoc.insert Assoc.lookup
ignored_twice = refl
