-- ===== src/Health/Rounds.antt =====
-- The rounds and the methods of internal/health/probe.go keep the invariant.
use mathlib.Core.Path.{subst}
use smith.Health.Invariant.{
  watchers-IsWellKept, Elem-drop_watcher, start_watch-IsWellKept, status-IsWellKept, IsWellKept,
  Elem-set_stage,
}
use smith.Health.{
  Watcher, after_round, drop_watcher, watch_check, set_stage, Monitor, Status, selecting,
  finish_status, stop_watch, finish_round, watch, unwatch,
}
use smith.Prelude.Assoc
use smith.Prelude.{
  ℕ, String, ◌≡◌, sym, ap, ◌∙◌, inl, inr, Bool, true, false, none, some, List, Elem, Option-cases,
  Bool-cases, if◌then◌else◌,
}
use smith.Types.{Workload, HealthCheck}

Elem-after_round :
    (over : Bool) (ctx : ℕ) (g : Watcher) (watchers : List Watcher)
    → Elem g (if over then drop_watcher ctx watchers else set_stage ctx selecting watchers)
    → (g' : Watcher) × Elem g' watchers × (g.ctx ≡ g'.ctx) × (g.id ≡ g'.id)
Elem-after_round true ctx g watchers m = Elem-drop_watcher ctx g watchers m
Elem-after_round false ctx g watchers m = Elem-set_stage ctx selecting g watchers m

module _ (m : Monitor) (sound : IsWellKept m) where
  after_round-IsWellKept :
      (g : Watcher) (failed : Bool) (s : Status)
      → Assoc.has g.id m.status ≡ true
      → IsWellKept (after_round g failed s m)
  unfolding after_round
  after_round-IsWellKept g failed s held =
      watchers-IsWellKept _ (status-IsWellKept m sound g.id _ _ held) _
        (λ k i. Elem-after_round _ g.ctx k m.watchers i)

  -- The rest of a round keeps what is known of the contexts.
  some_injective : (a b : Monitor) → some a ≡ some b → a ≡ b
  some_injective a b e = cc

  pub finish_round-IsWellKept :
      (g : Watcher) (failed : Bool) (m' : Monitor)
      → finish_round g failed m ≡ some m'
      → IsWellKept m'
  unfolding finish_round
  finish_round-IsWellKept g failed m' e = elim (Option-cases (Assoc.lookup g.id m.status)) [
    | inl missing ↦ cc (ap (λ o. finish_status o g failed m) missing)
    | inr (s, held) ↦
        subst IsWellKept (some_injective _ _ (sym (ap (λ o. finish_status o g failed m) held) ∙ e))
          (after_round-IsWellKept g failed s (ap Assoc.is_some held))
  ]

-- A container that is not watched has no status.
pub unwatch-status :
    (m : Monitor) → IsWellKept m → (id : String) → Assoc.lookup id (unwatch id m).status ≡ none
unfolding unwatch
unwatch-status m sound id = elim (Option-cases (Assoc.lookup id m.cancels)) [
  | inl unknown ↦
      subst (λ o. Assoc.lookup id (stop_watch id o m).status ≡ none) (sym unknown)
        (Assoc.none_of_has id m.status (sound.same_keys id ∙ ap Assoc.is_some unknown))
  | inr (ctx, held) ↦
      subst (λ o. Assoc.lookup id (stop_watch id o m).status ≡ none) (sym held)
        (Assoc.lookup-delete_self id m.status)
]

watch_check-IsWellKept :
    (check : HealthCheck) (id : String) (m : Monitor)
    → IsWellKept m
    → IsWellKept (watch_check (some check) id m)
watch_check-IsWellKept check id m sound = elim (Bool-cases (Assoc.has id m.cancels)) [
  | inl held ↦ rw held sound
  | inr new ↦ rw new (start_watch-IsWellKept m sound id check new)
]

pub watch-IsWellKept : (w : Workload) (m : Monitor) → IsWellKept m → IsWellKept (watch w m)
unfolding watch
watch-IsWellKept w m sound = elim (Option-cases w.health_check) [
  | inl unchecked ↦ subst (λ o. IsWellKept (watch_check o w.id m)) (sym unchecked) sound
  | inr (check, has_check) ↦
      subst (λ o. IsWellKept (watch_check o w.id m)) (sym has_check)
        (watch_check-IsWellKept check w.id m sound)
]
