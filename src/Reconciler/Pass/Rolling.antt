-- ===== src/Reconciler/Pass/Rolling.antt =====
-- The pace of a rollout in a pass of internal/reconciler/reconciler.go: how many stale replicas are rolled.
pub mod Paced
use smith.Desired.{spec_hash, request_of_workload, Instance, rollout_budget, Canonical}
use smith.Floats.{Floats}
use smith.Prelude.Assoc.{insert, lookup, lookup_or, lookup-insert_self, lookup-insert}
use smith.Prelude.Text.{◌==◌, eq_iff, eq_refl}
use smith.Prelude.{
  ℕ, suc, ◌+◌, ◌<◌, String, ◌≡◌, refl, sym, ap, ◌∙◌, ◌≢◌, inl, inr, Bool, true, false, not, ◌&&◌,
  Option, none, some, List, arith, true-false, Result-cases, Option-cases, Bool-cases,
  if◌then◌else◌,
}
use smith.Reconciler.Pass.Calls.{may_roll_passed}
use smith.Reconciler.Pass.{roll, may_roll, recorded, ensure, drive, Pass}
use smith.Reconciler.{
  Network, push_assignment, World, push_unassign, record_push, PushRecord, relocate, send,
}
use smith.Registry
use smith.Registry.{Registry}
use smith.Scheduler.{unassign, assign, Scheduler}
use smith.Types.{Workload, Node, no_workload}

-- A replica that was pushed again to its node with another spec.
abbrev pub changed : Option PushRecord → Option PushRecord → Bool
changed none new = false
changed (some old) none = false
changed (some old) (some new) = old.node_id == new.node_id && not (old.hash == new.hash)

changed_same : (o : Option PushRecord) → changed o o ≡ false
changed_same none = refl
changed_same (some r) = rw (eq_refl r.hash) (ground arith)

module _ (net : Network) (digest : Canonical → String) (running : List String)
    (stored : List (String × Workload)) where
  abbrev pub budget_of : String → ℕ
  budget_of q = rollout_budget (lookup_or no_workload q stored)

  -- A round touches the record of its own replica only, and counts it as unavailable exactly if it has been
  -- rolled, which needs room in the budget.
  pub record IsRound (inst : Instance) (p after : Pass) : Type 0 where
    pub others :
        (id : String) → id ≢ inst.wl.id → lookup id after.world.pushed ≡ lookup id p.world.pushed
    pub count :
        (q : String)
        → after.unavailable q
          ≡ p.unavailable q
            + (if inst.parent == q
                  && changed
                      (lookup inst.wl.id p.world.pushed)
                      (lookup inst.wl.id after.world.pushed)
                then 1
                else 0)
    pub room :
        changed (lookup inst.wl.id p.world.pushed) (lookup inst.wl.id after.world.pushed) ≡ true
        → p.unavailable inst.parent < budget_of inst.parent

  unchanged : (b : Bool) (n : ℕ) {c : Bool} → c ≡ false → n ≡ n + (if b && c then 1 else 0)
  unchanged b n e = ground (arith, e)

  -- a round that rolls nothing
  quiet-IsRound :
      (inst : Instance) (p : Pass) (w : World)
      → w.pushed ≡ p.world.pushed
      → IsRound inst p (record p { world = w })
  quiet-IsRound inst p w same =
      let still : changed (lookup inst.wl.id p.world.pushed) (lookup inst.wl.id w.pushed) ≡ false =
        ap (λ m. changed (lookup inst.wl.id p.world.pushed) (lookup inst.wl.id m)) same
        ∙ changed_same (lookup inst.wl.id p.world.pushed) in
      record {
        others = (λ id ne. ap (lookup id) same);
        count = (λ q. unchanged (inst.parent == q) (p.unavailable q) still);
        room = (λ e. absurd (true-false (sym e ∙ still)));
      }

  insert_ne :
      (key id : String) (r : PushRecord) (m : List (String × PushRecord))
      → id ≢ key
      → lookup id (insert key r m) ≡ lookup id m
  insert_ne key id r m ne = rw lookup-insert (ground (arith, eq_iff key id))

  recorded-IsRound :
      (inst : Instance) (node_id : String) (p : Pass) (w : World) (done : Bool)
      → w.pushed ≡ p.world.pushed
      → ((t : ℕ)
          → changed
              (lookup inst.wl.id p.world.pushed)
              (some (record { node_id = node_id; pushed_at = t; hash = spec_hash digest inst.wl }))
            ≡ false)
      → IsRound inst p (record p { world = recorded net digest inst.wl node_id (w, done) })
  unfolding recorded record_push
  recorded-IsRound inst node_id p w false same still = quiet-IsRound inst p w same
  recorded-IsRound inst node_id p w true same still =
      let new : PushRecord = record {
        node_id = node_id;
        pushed_at = net.clock w.calls;
        hash = spec_hash digest inst.wl;
      } in
      let own : changed (lookup inst.wl.id p.world.pushed)
            (lookup inst.wl.id (insert inst.wl.id new w.pushed))
          ≡ false =
        ap (changed (lookup inst.wl.id p.world.pushed)) (lookup-insert_self inst.wl.id new w.pushed)
        ∙ still (net.clock w.calls) in
      record {
        others = (λ id ne. insert_ne inst.wl.id id new w.pushed ne ∙ ap (lookup id) same);
        count = (λ q. unchanged (inst.parent == q) (p.unavailable q) own);
        room = (λ e. absurd (true-false (sym e ∙ own)));
      }

  counted :
      (b : Bool) (n : ℕ) {c : Bool}
      → c ≡ true
      → (if b then suc n else n) ≡ n + (if b && c then 1 else 0)
  counted b n e = ground (arith, e)

  changed_record :
      (key : String) (old new : PushRecord) (m : List (String × PushRecord))
      → lookup key m ≡ some old
      → old.node_id == new.node_id ≡ true
      → old.hash == new.hash ≡ false
      → changed (lookup key m) (lookup key (insert key new m)) ≡ true
  changed_record key old new m known same stale =
      ap (changed (lookup key m)) (lookup-insert_self key new m)
      ∙ ap (λ o. changed o (some new)) known
      ∙ ground (arith, same, stale)

  roll-IsRound :
      (node : Node) (node_id : String) (inst : Instance) (p : Pass) (last : PushRecord)
      → lookup inst.wl.id p.world.pushed ≡ some last
      → last.node_id == node_id ≡ true
      → last.hash == spec_hash digest inst.wl ≡ false
      → p.unavailable inst.parent < budget_of inst.parent
      → IsRound inst p (roll net digest node node_id inst p)
  unfolding roll push_unassign push_assignment send record_push
  roll-IsRound node node_id inst p last known same stale room =
      elim (Bool-cases (push_unassign net node inst.wl.id p.world).1) [
        | inr refused ↦
            unfold roll in
            rw refused (quiet-IsRound inst p (push_unassign net node inst.wl.id p.world).0 refl)
        | inl stopped ↦
            elim (Bool-cases
              (push_assignment net node inst.wl (push_unassign net node inst.wl.id p.world).0).1) [
                | inr failed ↦
                    unfold roll in
                    rw stopped (
                      rw failed (
                        quiet-IsRound inst p
                          (push_assignment net node inst.wl
                            (push_unassign net node inst.wl.id p.world).0).0
                          refl))
                | inl started ↦
                    let asked = push_unassign net node inst.wl.id p.world in
                    let pushed_at = net.clock (push_assignment net node inst.wl asked.0).0.calls in
                    let new : PushRecord = record {
                      node_id = node_id;
                      pushed_at = pushed_at;
                      hash = spec_hash digest inst.wl;
                    } in
                    let own = changed_record inst.wl.id last new p.world.pushed known same stale in
                    unfold roll in
                    rw stopped (
                      rw started (record {
                        others = λ id ne. insert_ne inst.wl.id id new p.world.pushed ne;
                        count = λ q. counted (inst.parent == q) (p.unavailable q) own;
                        room = λ e. room;
                      }))
              ]
      ]

  pushed-relocate :
      (old_id : String) (node : Node) (wl : Workload) (w : World)
      → (relocate net old_id node wl w).0.pushed ≡ w.pushed
  unfolding relocate push_unassign push_assignment send
  pushed-relocate old_id node wl w = elim (Option-cases (Registry.get old_id w.registry)) [
    | inl gone ↦ rw (gone, relocate) refl
    | inr (old, there) ↦ rw (there, relocate) refl
  ]

  -- a placement by the scheduler before the round does not matter
  placed-IsRound :
      (inst : Instance) (p after : Pass) (s : Scheduler)
      → IsRound inst (record p { world = record p.world { scheduler = s } }) after
      → IsRound inst p after
  placed-IsRound inst p after s h = record { others = h.others; count = h.count; room = h.room }

  drive-IsRound :
      (node : Node) (node_id : String) (inst : Instance) (p : Pass)
      → IsRound inst p (drive net digest running stored node node_id inst p)
  unfolding drive push_assignment send
  drive-IsRound node node_id inst p = elim (Option-cases (lookup inst.wl.id p.world.pushed)) [
    | inl new ↦
        let sent = push_assignment net node inst.wl p.world in
        rw (new, drive) (recorded-IsRound inst node_id p sent.0 sent.1 refl (λ t. rw new refl))
    | inr (last, known) ↦ elim (Bool-cases (last.node_id == node_id)) [
      | inr elsewhere ↦
          let moved = relocate net last.node_id node inst.wl p.world in
          rw (known, drive)
            (rw elsewhere (
              recorded-IsRound inst node_id p moved.0 moved.1
                (pushed-relocate last.node_id node inst.wl p.world)
                (λ t. rw known (ground (arith, elsewhere)))))
      | inl same ↦ elim (Bool-cases (last.hash == spec_hash digest inst.wl)) [
        | inl fresh ↦ rw (known, drive) (rw same (rw fresh (quiet-IsRound inst p p.world refl)))
        | inr stale ↦ elim (Bool-cases (may_roll net digest running stored inst p)) [
          | inr wait ↦
              rw (known, drive) (rw same (rw stale (rw wait (quiet-IsRound inst p p.world refl))))
          | inl may ↦
              rw (known, drive)
                (rw same (
                  rw stale (
                    rw may (
                      roll-IsRound node node_id inst p last known same stale
                        (may_roll_passed net digest running stored inst p may).1))))
        ]
      ]
    ]
  ]

  module _ (fl : Floats) where
    pub ensure-IsRound :
        (inst : Instance) (p : Pass) → IsRound inst p (ensure net digest fl running stored inst p)
    unfolding ensure
    ensure-IsRound inst p =
        let call =
          assign fl (net.clock p.world.calls) p.world.registry inst.wl.id inst.parent
            (request_of_workload inst.wl) p.world.scheduler in
        elim (Result-cases call.1) [
          | inl (e, refused) ↦
              rw (refused, ensure)
                (quiet-IsRound inst p (record p.world { scheduler = call.0 }) refl)
          | inr (a, answer) ↦ elim (Option-cases (Registry.get a.node_id p.world.registry)) [
            | inl gone ↦
                rw (answer, ensure)
                  (rw gone (
                    quiet-IsRound inst p (record p.world { scheduler = unassign inst.wl.id call.0 })
                      refl))
            | inr (node, there) ↦
                rw (answer, ensure)
                  (rw there (
                    placed-IsRound inst p _ call.0 (
                      drive-IsRound node a.node_id inst
                        (record p { world = record p.world { scheduler = call.0 } }))))
          ]
        ]
