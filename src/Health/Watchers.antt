-- ===== src/Health/Watchers.antt =====
-- The goroutines of internal/health/probe.go in every order of their steps.
use mathlib.Core.Path.{subst}
use smith.Health.Invariant.{
  Elem-drop_watcher, IsWellKept, watchers-IsWellKept, new-IsWellKept, unwatch-IsWellKept,
  Elem-set_stage,
}
use smith.Health.Rounds.{watch-IsWellKept, finish_round-IsWellKept, unwatch-status}
use smith.Health.{
  new_monitor, is_cancelled, unwatched, finish_status, unwatch, Turns, probing, delay_over, ticked,
  Watcher, set_stage, Monitor, stopped, finish_round, Turn, round_over, turn_after, drop_watcher,
  selecting, watched, no_turn,
}
use smith.Prelude.Assoc
use smith.Prelude.{◌≡◌, sym, ap, ◌≢◌, inl, inr, Bool, false, none, some, arith, Elem, Option-cases}

pub Turn-IsWellKept : {m n : Monitor} → Turn m n → IsWellKept m → IsWellKept n
Turn-IsWellKept (watched m w) s = watch-IsWellKept w m s
Turn-IsWellKept (unwatched m id) s = unwatch-IsWellKept m s id
Turn-IsWellKept (delay_over m g member stage) s =
    watchers-IsWellKept m s (set_stage g.ctx selecting m.watchers)
      (λ k i. Elem-set_stage g.ctx selecting k m.watchers i)
Turn-IsWellKept (ticked m g member stage) s =
    watchers-IsWellKept m s (set_stage g.ctx probing m.watchers)
      (λ k i. Elem-set_stage g.ctx probing k m.watchers i)
Turn-IsWellKept (stopped m g member stage gone) s =
    watchers-IsWellKept m s (drop_watcher g.ctx m.watchers)
      (λ k i. Elem-drop_watcher g.ctx k m.watchers i)
Turn-IsWellKept (round_over m n g failed member stage e) s =
    finish_round-IsWellKept m s g failed n e

Turns-IsWellKept : {m n : Monitor} → IsWellKept m → Turns m n → IsWellKept n
Turns-IsWellKept h no_turn = h
Turns-IsWellKept h (turn_after r step) = Turn-IsWellKept step (Turns-IsWellKept h r)

-- In every state that calls and goroutines can reach, a container has at most one watcher that is not
-- cancelled, and a round of such a watcher does not panic, whatever its probe answers. But a round panics
-- on a nil pointer if its watcher's container has been unwatched during the probe.
pub Turns-watchers :
    (calls_back : Bool) (m : Monitor)
    → Turns (record new_monitor { has_on_healthy = calls_back }) m
    → ((g k : Watcher)
        → Elem g m.watchers
        → Elem k m.watchers
        → is_cancelled g.ctx m.cancelled ≡ false
        → is_cancelled k.ctx m.cancelled ≡ false
        → g.id ≡ k.id
        → g.ctx ≡ k.ctx)
      × ((g : Watcher) (failed : Bool)
          → Elem g m.watchers
          → is_cancelled g.ctx m.cancelled ≡ false
          → finish_round g failed m ≢ none)
      × ((g : Watcher) (failed : Bool) → finish_round g failed (unwatch g.id m) ≡ none)
unfolding finish_round
Turns-watchers calls_back m r =
    let sound = Turns-IsWellKept (new-IsWellKept calls_back) r in
    (
      (λ g k mg mk live live' same.
          let held = sound.current g mg live in
          let held' = sound.current k mk live' in
          ground
            (arith, held, subst (λ id. Assoc.lookup id m.cancels ≡ some k.ctx) (sym same) held')),
      (λ g failed member live e.
          let known = sound.same_keys g.id in
          let held = sound.current g member live in
          elim (Option-cases (Assoc.lookup g.id m.status)) [
            | inl missing ↦ ground (arith, known, held, missing)
            | inr (s, there) ↦ cc (ap (λ o. finish_status o g failed m) there)
          ]),
      (λ g failed.
          ap (λ o. finish_status o g failed (unwatch g.id m)) (unwatch-status m sound g.id)),
    )
