-- ===== src/Agent/Registration/Backoff.antt =====
-- The waits of registerWithRetry of internal/agent/agent.go, and its end.
use mathlib.Core.Path.{subst}
use smith.Agent.Registration.{
  next_backoff, waited, AgentError, Answer, register_from, register_at, registration_cancelled,
  after_attempt, register_with_retry,
}
use smith.Prelude.{
  ℕ, zero, suc, ◌+◌, ◌*◌, ◌≤◌, ◌<◌, ◌≡◌, sym, ap, ◌∙◌, Bool, true, false, some, List, [], ◌∷◌,
  arith, err, ltb, if◌then◌else◌, Result, ok,
}
use smith.Types.{NetworkConfig}

pow2 : ℕ → ℕ
pow2 zero = 1
pow2 (suc k) = pow2 k * 2

-- the wait after an attempt, counted from 0: a second that doubles, up to half a minute
unfoldable pub backoff_at : ℕ → ℕ
unfolding pow2
backoff_at k = if ltb 30 (pow2 k) then 30 else pow2 k

-- the waits after as many attempts, from one on
unfoldable pub backoffs : ℕ → ℕ → List ℕ
backoffs k zero = []
backoffs k (suc n) = backoff_at k ∷ backoffs (suc k) n

next_backoff-backoff_at : (k : ℕ) → next_backoff (backoff_at k) ≡ backoff_at (suc k)
unfolding backoff_at pow2
next_backoff-backoff_at k = ground arith

module _ (answers : ℕ → Answer NetworkConfig) (stops : ℕ → Bool) where
  -- an attempt that fails and is followed by another one
  abbrev pub GoesOn : ℕ → Type 0
  GoesOn k = ((e : AgentError) × (register_at (answers k) ≡ err e)) × (stops k ≡ false)

  register_from_lem :
      (fuel n k : ℕ) (end : Result AgentError NetworkConfig × List ℕ)
      → n < fuel
      → ((j : ℕ) → k ≤ j → j < k + n → GoesOn j)
      → ((f : ℕ) (b : ℕ) → register_from answers stops (suc f) (k + n) b ≡ some (end.0, []))
      → register_from answers stops fuel k (backoff_at k) ≡ some (end.0, backoffs k n)
  unfolding register_from backoffs
  register_from_lem zero n k end enough on last = absurd (omega arith)
  register_from_lem (suc fuel) zero k end enough on last =
      let here : k + 0 ≡ k = omega arith in
      subst (λ j. register_from answers stops (suc fuel) j (backoff_at k) ≡ some (end.0, [])) here
        (last fuel (backoff_at k))
  register_from_lem (suc fuel) (suc n) k end enough on last =
      let first = on k (omega arith) (omega arith) in
      let rest = register_from answers stops fuel in
      let ih =
        register_from_lem fuel n (suc k) end (omega arith)
          (λ j low high. on j (omega arith) (omega arith))
          (λ f b.
            let shift : suc k + n ≡ k + suc n = omega arith in
            subst (λ j. register_from answers stops (suc f) j b ≡ some (end.0, [])) (sym shift)
              (last f b)) in
      let next_one : k + 1 ≡ suc k = omega arith in
      let later =
        waited answers stops (backoff_at k) (rest (k + 1) (next_backoff (backoff_at k))) in
      ap (λ r. after_attempt answers stops r (stops k) later) first.0.1
      ∙ ap (λ b. after_attempt answers stops (err first.0.0) b later) first.1
      ∙ ap (λ j. waited answers stops (backoff_at k) (rest j (next_backoff (backoff_at k))))
          next_one
      ∙ ap (λ b. waited answers stops (backoff_at k) (rest (suc k) b)) (next_backoff-backoff_at k)
      ∙ ap (waited answers stops (backoff_at k)) ih

  -- When the first `n` attempts fail and the agent is not stopped meanwhile, `n + 1` rounds are enough for
  -- registerWithRetry to return, if the next attempt succeeds, with its network, and if it fails and the
  -- agent is stopped then, with an error; before that it has waited one second, then each time twice as long
  -- as before, but never more than half a minute.
  pub register_with_retry-backoffs :
      (fuel n : ℕ)
      → n < fuel
      → ((j : ℕ) → j < n → GoesOn j)
      → ((cfg : NetworkConfig)
          → register_at (answers n) ≡ ok cfg
          → register_with_retry answers stops fuel ≡ some (ok cfg, backoffs 0 n))
        × ((e : AgentError)
            → register_at (answers n) ≡ err e
            → stops n ≡ true
            → register_with_retry answers stops fuel
              ≡ some (err registration_cancelled, backoffs 0 n))
  unfolding register_with_retry backoff_at register_from
  register_with_retry-backoffs fuel n enough on =
      let same : 0 + n ≡ n = omega arith in
      let rest = λ (f b : ℕ).
        waited answers stops b (register_from answers stops f (n + 1) (next_backoff b)) in
      (
        (λ cfg success.
            register_from_lem fuel n 0 (ok cfg, []) enough (λ j low high. on j (omega arith))
              (λ f b.
                ap (λ j. register_from answers stops (suc f) j b) same
                ∙ ap (λ r. after_attempt answers stops r (stops n) (rest f b)) success)),
        (λ e failure halt.
            register_from_lem fuel n 0 (err registration_cancelled, []) enough
              (λ j low high. on j (omega arith))
              (λ f b.
                ap (λ j. register_from answers stops (suc f) j b) same
                ∙ ap (λ r. after_attempt answers stops r (stops n) (rest f b)) failure
                ∙ ap (λ s. after_attempt answers stops (err e) s (rest f b)) halt)),
      )
