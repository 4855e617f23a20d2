-- ===== src/Health/Threshold.antt =====
-- When internal/health/probe.go finds a container unhealthy.
use mathlib.Core.Path.{subst}
use smith.Health.{start_status, Status, record_probe}
use smith.Prelude.Int.{pos_part, ℤ, leb_ℤ, pos}
use smith.Prelude.{
  ℕ, zero, suc, ◌+◌, ◌-◌, ◌≤◌, ◌<◌, ◌≡◌, refl, sym, ap, ◌∙◌, ◌↔◌, ◌⊎◌, inl, inr, Bool, true, false,
  List, [], ◌∷◌, arith, ltb, leb, if◌then◌else◌, Bool-cases,
}

-- the rounds of one watcher, by whether each probe failed, until `run` returns
unfoldable pub rounds : ℤ → List Bool → Status → Status
unfolding record_probe
rounds threshold [] s = s
rounds threshold (failed ∷ later) s =
    let (s', over) = record_probe threshold failed s in
    elim over [ true ↦ s' | false ↦ rounds threshold later s' ]

-- the first `k` of the probes failed
abbrev pub StartsFailing : ℕ → List Bool → Type 0
StartsFailing zero probes = Unit
StartsFailing (suc k) [] = ⊥
StartsFailing (suc k) (true ∷ probes) = StartsFailing k probes
StartsFailing (suc k) (false ∷ probes) = ⊥

-- `k` probes in a row failed
abbrev pub HasFailures : ℕ → List Bool → Type 0
HasFailures k [] = StartsFailing k []
HasFailures k (p ∷ probes) = StartsFailing k (p ∷ probes) ⊎ HasFailures k probes

-- a threshold below one works as one
abbrev pub limit : ℤ → ℕ
limit threshold = if ltb 0 (pos_part threshold) then pos_part threshold else 1

StartsFailing-fewer :
    (j k : ℕ) (probes : List Bool) → j ≤ k → StartsFailing k probes → StartsFailing j probes
StartsFailing-fewer zero k probes h s = tt
StartsFailing-fewer (suc j) zero probes h s = absurd (omega arith)
StartsFailing-fewer (suc j) (suc k) [] h s = s
StartsFailing-fewer (suc j) (suc k) (true ∷ probes) h s =
    StartsFailing-fewer j k probes (omega arith) s
StartsFailing-fewer (suc j) (suc k) (false ∷ probes) h s = s

HasFailures-start : (k : ℕ) (probes : List Bool) → StartsFailing k probes → HasFailures k probes
HasFailures-start k [] s = s
HasFailures-start k (p ∷ probes) s = inl s

-- A run that has to start now, or later, goes on after a failure, and starts anew after a success.
failed_next :
    (k f : ℕ) (probes : List Bool)
    → f + 1 < k
    → (StartsFailing (k - (f + 1)) probes ⊎ HasFailures k probes)
      ↔ (StartsFailing (k - f) (true ∷ probes) ⊎ HasFailures k (true ∷ probes))
failed_next k f probes h =
    let e : k - f ≡ suc (k - (f + 1)) = omega arith in
    let d : k ≡ suc (k - 1) = omega arith in
    rw e (
      (λ s. elim s [ inl now ↦ inl now | inr later ↦ inr (inr later) ]),
      (λ s. elim s [
        | inl now ↦ inl now
        | inr (inl anew) ↦ inl (
            StartsFailing-fewer (k - (f + 1)) (k - 1) probes (omega arith)
              (subst (λ n. StartsFailing n (true ∷ probes)) d anew))
        | inr (inr later) ↦ inr later
      ]),
    )

passed_next :
    (k f : ℕ) (probes : List Bool)
    → f < k
    → (StartsFailing k probes ⊎ HasFailures k probes)
      ↔ (StartsFailing (k - f) (false ∷ probes) ⊎ HasFailures k (false ∷ probes))
passed_next k f probes h =
    let e : k - f ≡ suc (k - (f + 1)) = omega arith in
    let d : k ≡ suc (k - 1) = omega arith in
    (
      (λ s. elim s [
        | inl now ↦ inr (inr (HasFailures-start k probes now))
        | inr later ↦ inr (inr later)
      ]),
      (λ s. elim s [
        | inl now ↦ absurd (subst (λ n. StartsFailing n (false ∷ probes)) e now)
        | inr (inl anew) ↦ absurd (subst (λ n. StartsFailing n (false ∷ probes)) d anew)
        | inr (inr later) ↦ inr later
      ]),
    )

-- With `f` failures in a row so far, the rest of the run or a later run is enough.
rounds_from :
    (threshold : ℤ) (k : ℕ)
    → ((n : ℕ) → leb_ℤ threshold (pos (n + 1)) ≡ leb k (n + 1))
    → (probes : List Bool) (f : ℕ) → f < k
    → ((rounds threshold probes (record { healthy = true; failures = f })).healthy ≡ false)
      ↔ (StartsFailing (k - f) probes ⊎ HasFailures k probes)
unfolding rounds
rounds_from threshold k same [] f h =
    let e : k - f ≡ suc (k - (f + 1)) = omega arith in
    let d : k ≡ suc (k - 1) = omega arith in
    (
      (λ s. cc),
      (λ s. elim s [
        | inl now ↦ absurd (subst (λ n. StartsFailing n []) e now)
        | inr later ↦ absurd (subst (λ n. StartsFailing n []) d later)
      ]),
    )
rounds_from threshold k same (true ∷ probes) f h = elim (Bool-cases (leb k (f + 1))) [
  | inl reached ↦
      let e : k - f ≡ 1 = ground (arith, reached) in
      let over : leb_ℤ threshold (pos (f + 1)) ≡ true = same f ∙ reached in
      rw (over, rounds) (rw e ((λ s. inl tt), (λ s. rw over refl)))
  | inr below ↦
      let ih = rounds_from threshold k same probes (f + 1) (ground (arith, below)) in
      let shift = failed_next k f probes (ground (arith, below)) in
      let on : leb_ℤ threshold (pos (f + 1)) ≡ false = same f ∙ below in
      let step : rounds threshold (true ∷ probes) (record { healthy = true; failures = f })
          ≡ rounds threshold probes (record { healthy = true; failures = f + 1 }) =
        rw (on, rounds) (ap (rounds threshold probes) (rw (on, record_probe) refl)) in
      subst
        (λ (s : Status).
          (s.healthy ≡ false)
          ↔ (StartsFailing (k - f) (true ∷ probes) ⊎ HasFailures k (true ∷ probes)))
        (sym step) ((λ s. shift.0 (ih.0 s)), (λ s. ih.1 (shift.1 s)))
]
rounds_from threshold k same (false ∷ probes) f h =
    let ih = rounds_from threshold k same probes 0 (omega arith) in
    let shift = passed_next k f probes h in
    let whole : k - 0 ≡ k = omega arith in
    let ih' =
      subst
        (λ n.
          ((rounds threshold probes start_status).healthy ≡ false)
          ↔ (StartsFailing n probes ⊎ HasFailures k probes))
        whole ih in
    ((λ s. shift.0 (ih'.0 s)), (λ s. ih'.1 (shift.1 s)))

-- A watcher finds the container unhealthy exactly when, among the probes of its rounds, as many in a row
-- have failed as the threshold says; a threshold below one works as one.
pub rounds_iff :
    (threshold : ℤ) (probes : List Bool)
    → ((rounds threshold probes start_status).healthy ≡ false)
      ↔ HasFailures (limit threshold) probes
rounds_iff threshold probes =
    let whole : limit threshold - 0 ≡ limit threshold = omega arith in
    let all = rounds_from threshold (limit threshold) (λ n. ground arith) probes 0 (ground arith) in
    (
      (λ s. elim (all.0 s) [
        | inl now ↦
            HasFailures-start (limit threshold) probes
              (subst (λ n. StartsFailing n probes) whole now)
        | inr later ↦ later
      ]),
      (λ s. all.1 (inr s)),
    )
