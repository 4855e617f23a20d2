-- ===== src/Health/Invariant.antt =====
-- What holds of the monitor of internal/health/probe.go between its steps.
-- A container has a status exactly while it has a context to cancel; a watcher that is not cancelled has
-- its container's context; and no context that is to be made is in use.
use mathlib.Core.Path.{subst}
use smith.Health.{
  new_monitor, is_cancelled, start_watch, stop_watch, unwatch, start_status, Watcher, set_stage,
  Monitor, staged, drop_watcher, Stage, Status,
}
use smith.Prelude.Assoc
use smith.Prelude.Text.{eq_iff}
use smith.Prelude.{
  ℕ, ◌<◌, String, ◌≡◌, refl, sym, ap, ◌∙◌, inl, inr, Bool, true, false, not, some, List, arith,
  Elem, Elem-keep_if, Elem-map_inv, Option-cases, if◌then◌else◌, Bool-cases, eqb,
}
use smith.Types.{HealthCheck}

pub record IsWellKept (m : Monitor) : Type 0 where
  pub same_keys : (id : String) → Assoc.has id m.status ≡ Assoc.has id m.cancels
  pub current :
      (g : Watcher)
      → Elem g m.watchers
      → is_cancelled g.ctx m.cancelled ≡ false
      → Assoc.lookup g.id m.cancels ≡ some g.ctx
  pub made : (id : String) (ctx : ℕ) → Assoc.lookup id m.cancels ≡ some ctx → ctx < m.contexts
  pub used : (g : Watcher) → Elem g m.watchers → g.ctx < m.contexts
  pub past : (ctx : ℕ) → is_cancelled ctx m.cancelled ≡ true → ctx < m.contexts
  pub own :
      (id other : String) (ctx : ℕ)
      → Assoc.lookup id m.cancels ≡ some ctx
      → Assoc.lookup other m.cancels ≡ some ctx
      → id ≡ other
  pub active :
      (id : String) (ctx : ℕ)
      → Assoc.lookup id m.cancels ≡ some ctx
      → is_cancelled ctx m.cancelled ≡ false

-- a watcher that is there after a change of stages stood there before, at some stage
pub Elem-set_stage :
    (ctx : ℕ) (stage : Stage) (g : Watcher) (watchers : List Watcher)
    → Elem g (set_stage ctx stage watchers)
    → (g' : Watcher) × Elem g' watchers × (g.ctx ≡ g'.ctx) × (g.id ≡ g'.id)
Elem-set_stage ctx stage g watchers m =
    let (g', member, e) = Elem-map_inv _ g watchers m in
    (
      g',
      member,
      ap (λ (w : Watcher). w.ctx) e ∙ same_ctx (eqb g'.ctx ctx) g',
      ap (λ (w : Watcher). w.id) e ∙ same_id (eqb g'.ctx ctx) g',
    )
  where
    same_ctx : (b : Bool) (w : Watcher) → (if b then staged stage w else w).ctx ≡ w.ctx
    same_ctx true w = refl
    same_ctx false w = refl

    same_id : (b : Bool) (w : Watcher) → (if b then staged stage w else w).id ≡ w.id
    same_id true w = refl
    same_id false w = refl

pub Elem-drop_watcher :
    (ctx : ℕ) (g : Watcher) (watchers : List Watcher)
    → Elem g (drop_watcher ctx watchers)
    → (g' : Watcher) × Elem g' watchers × (g.ctx ≡ g'.ctx) × (g.id ≡ g'.id)
Elem-drop_watcher ctx g watchers m =
    (g, ((Elem-keep_if (λ k. not (eqb k.ctx ctx)) g watchers).0 m).0, refl, refl)

pub new-IsWellKept :
    (calls_back : Bool) → IsWellKept (record new_monitor { has_on_healthy = calls_back })
unfolding Assoc.lookup
new-IsWellKept calls_back = record {
  same_keys = λ id. refl;
  current = λ g m h. absurd m;
  made = λ id ctx e. cc;
  used = λ g m. absurd m;
  past = λ ctx e. cc;
  own = λ id other ctx e f. cc;
  active = λ id ctx e. cc;
}

-- the watchers of a list whose contexts and IDs all stood in a sound monitor
module _ (m : Monitor) (sound : IsWellKept m) where
  pub watchers-IsWellKept :
      (watchers : List Watcher)
      → ((g : Watcher)
          → Elem g watchers
          → (g' : Watcher) × Elem g' m.watchers × (g.ctx ≡ g'.ctx) × (g.id ≡ g'.id))
      → IsWellKept (record m { watchers = watchers })
  watchers-IsWellKept watchers from = record {
    same_keys = sound.same_keys;
    current = λ g member live.
        let (g', old, c, i) = from g member in
        let live' = subst (λ n. is_cancelled n m.cancelled ≡ false) c live in
        let had = sound.current g' old live' in cc;
    made = sound.made;
    used = λ g member. let (g', old, c, i) = from g member in omega (arith, sound.used g' old, c);
    past = sound.past;
    own = sound.own;
    active = sound.active;
  }

  pub start_watch-IsWellKept :
      (id : String) (check : HealthCheck)
      → Assoc.has id m.cancels ≡ false
      → IsWellKept (start_watch id check m)
  unfolding start_watch
  start_watch-IsWellKept id check new = record {
    same_keys = λ other. ground (
      arith,
      Assoc.has-insert id other start_status m.status,
      Assoc.has-insert id other m.contexts m.cancels,
      sound.same_keys other,
    );
    current = λ g member live. elim member [
      | inl started ↦
          let own_id = ap (λ (w : Watcher). w.id) started in
          let own_ctx = ap (λ (w : Watcher). w.ctx) started in
          ground (
            arith,
            own_id,
            own_ctx,
            Assoc.lookup-insert id g.id m.contexts m.cancels,
            eq_iff id g.id,
          )
      | inr old ↦ ground (
        arith,
        sound.current g old live,
        new,
        eq_iff id g.id,
        Assoc.lookup-insert id g.id m.contexts m.cancels,
      )
    ];
    made = λ other ctx found. elim (Assoc.insert_cases id other m.contexts m.cancels found) [
      | inl new_one ↦ ground (arith, new_one.1)
      | inr old ↦ ground (arith, sound.made other ctx old.1)
    ];
    used = λ g member. elim member [
      | inl started ↦ ground (arith, ap (λ (w : Watcher). w.ctx) started)
      | inr old ↦ omega (arith, sound.used g old)
    ];
    past = λ ctx gone. omega (arith, sound.past ctx gone);
    own = λ a b ctx found found'. elim (Assoc.insert_cases id a m.contexts m.cancels found) [
      | inl new_a ↦ elim (Assoc.insert_cases id b m.contexts m.cancels found') [
        | inl new_b ↦ sym new_a.0 ∙ new_b.0
        | inr old_b ↦ absurd (omega (arith, new_a.1, sound.made b ctx old_b.1))
      ]
      | inr old_a ↦ elim (Assoc.insert_cases id b m.contexts m.cancels found') [
        | inl new_b ↦ absurd (omega (arith, new_b.1, sound.made a ctx old_a.1))
        | inr old_b ↦ sound.own a b ctx old_a.1 old_b.1
      ]
    ];
    active = λ other ctx found. elim (Assoc.insert_cases id other m.contexts m.cancels found) [
      | inl new_one ↦ elim (Bool-cases (is_cancelled ctx m.cancelled)) [
        | inl gone ↦ absurd (omega (arith, new_one.1, sound.past ctx gone))
        | inr live ↦ live
      ]
      | inr old ↦ sound.active other ctx old.1
    ];
  }

  pub stop_watch-IsWellKept :
      (id : String) (ctx : ℕ)
      → Assoc.lookup id m.cancels ≡ some ctx
      → IsWellKept (stop_watch id (some ctx) m)
  stop_watch-IsWellKept id ctx held = record {
    same_keys = λ other. ground (
      arith,
      Assoc.has-delete id other m.status,
      Assoc.has-delete id other m.cancels,
      sound.same_keys other,
    );
    current = λ g member live.
        let rest : is_cancelled g.ctx m.cancelled ≡ false = ground (arith, live) in
        ground (
          arith,
          live,
          sound.current g member rest,
          held,
          eq_iff id g.id,
          Assoc.lookup-delete id g.id m.cancels,
        );
    made = λ other ctx' found. sound.made other ctx' (Assoc.delete_cases id other m.cancels found);
    used = sound.used;
    past = λ ctx' gone. elim (Bool-cases (eqb ctx ctx')) [
      | inl same ↦ ground (arith, same, sound.made id ctx held)
      | inr other ↦ sound.past ctx' (ground (arith, gone, other))
    ];
    own = λ a b ctx' found found'.
        sound.own a b ctx' (Assoc.delete_cases id a m.cancels found)
          (Assoc.delete_cases id b m.cancels found');
    active = λ other ctx' found.
        let before = Assoc.delete_cases id other m.cancels found in
        elim (Bool-cases (eqb ctx ctx')) [
          | inl same ↦
              let same_ctx : ctx ≡ ctx' = ground (arith, same) in
              let mine =
                sound.own id other ctx held
                  (subst (λ n. Assoc.lookup other m.cancels ≡ some n) (sym same_ctx) before) in
              ground (arith, mine, found, eq_iff id other, Assoc.lookup-delete id other m.cancels)
          | inr apart ↦ ground (arith, apart, sound.active other ctx' before)
        ];
  }

  pub unwatch-IsWellKept : (id : String) → IsWellKept (unwatch id m)
  unfolding unwatch
  unwatch-IsWellKept id = elim (Option-cases (Assoc.lookup id m.cancels)) [
    | inl unknown ↦ subst (λ o. IsWellKept (stop_watch id o m)) (sym unknown) sound
    | inr (ctx, held) ↦
        subst (λ o. IsWellKept (stop_watch id o m)) (sym held) (stop_watch-IsWellKept id ctx held)
  ]

  pub status-IsWellKept :
      (id : String) (s : Status) (recovered : List String)
      → Assoc.has id m.status ≡ true
      → IsWellKept (record m { status = Assoc.insert id s m.status; recovered = recovered })
  status-IsWellKept id s recovered held = record {
    same_keys = λ other.
        ground (
          arith,
          sound.same_keys other,
          held,
          eq_iff id other,
          Assoc.has-insert id other s m.status,
        );
    current = sound.current;
    made = sound.made;
    used = sound.used;
    past = sound.past;
    own = sound.own;
    active = sound.active;
  }
