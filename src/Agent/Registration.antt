-- ===== src/Agent/Registration.antt =====
-- register, registerWithRetry, sendHeartbeat, heartbeatLoop and reRegister of internal/agent/agent.go.
-- Times are in seconds. `answers` has the control plane's answer to each attempt, and `stops` whether the
-- wait after it is cut short by a stop of the agent.
pub mod Backoff
pub mod Recovery
use smith.Prelude.{
  ℕ, zero, suc, ◌+◌, ◌*◌, Bool, true, false, not, Option, none, some, List, [], ◌∷◌, eqb, ltb, ok,
  err, if◌then◌else◌, Result,
}
use smith.Types.{NetworkConfig}

-- a reply over HTTP, with its status and its body
pub data Decoded (A : Type 0) : Type 0 where
  decoded : A → Decoded A
  empty_body : Decoded A
  malformed : Decoded A

pub data Answer (A : Type 0) : Type 0 where
  unreachable : Answer A
  answered : ℕ → Decoded A → Answer A

pub data AgentError : Type 0 where
  post_failed : AgentError
  get_failed : AgentError
  bad_status : ℕ → AgentError
  decode_failed : AgentError
  registration_cancelled : AgentError
  node_is_unknown : AgentError

abbrev pub no_network : NetworkConfig
no_network = record { subnet = ""; gateway = "" }

-- An older control plane answers with an empty body.
abbrev pub network_of : Decoded NetworkConfig → Result AgentError NetworkConfig
network_of (decoded cfg) = ok cfg
network_of empty_body = ok no_network
network_of malformed = err decode_failed

-- `register`
unfoldable pub register_at : Answer NetworkConfig → Result AgentError NetworkConfig
register_at unreachable = err post_failed
register_at (answered status body) =
    if eqb status 200 then network_of body else err (bad_status status)

abbrev pub max_backoff : ℕ
max_backoff = 30

abbrev pub next_backoff : ℕ → ℕ
next_backoff backoff = if ltb max_backoff (backoff * 2) then max_backoff else backoff * 2

-- The loop, from an attempt on, with its result and the waits that ended; `none` is out of fuel.
module _ (answers : ℕ → Answer NetworkConfig) (stops : ℕ → Bool) where
  abbrev pub waited :
      ℕ
      → Option (Result AgentError NetworkConfig × List ℕ)
      → Option (Result AgentError NetworkConfig × List ℕ)
  waited backoff none = none
  waited backoff (some (result, waits)) = some (result, backoff ∷ waits)

  -- one round, by its attempt and by the stop, with the rounds to follow
  abbrev pub after_attempt :
      Result AgentError NetworkConfig
      → Bool
      → Option (Result AgentError NetworkConfig × List ℕ)
      → Option (Result AgentError NetworkConfig × List ℕ)
  after_attempt (ok cfg) stop rest = some (ok cfg, [])
  after_attempt (err e) true rest = some (err registration_cancelled, [])
  after_attempt (err e) false rest = rest

  unfoldable pub register_from : ℕ → ℕ → ℕ → Option (Result AgentError NetworkConfig × List ℕ)
  register_from zero attempt backoff = none
  register_from (suc fuel) attempt backoff =
      let rest = waited backoff (register_from fuel (attempt + 1) (next_backoff backoff)) in
      after_attempt (register_at (answers attempt)) (stops attempt) rest

  -- `registerWithRetry`
  unfoldable pub register_with_retry : ℕ → Option (Result AgentError NetworkConfig × List ℕ)
  register_with_retry fuel = register_from fuel 0 1

-- `sendHeartbeat`
unfoldable pub send_heartbeat : {A : Type 0} → Answer A → Option AgentError
send_heartbeat unreachable = some post_failed
send_heartbeat (answered status body) =
    if eqb status 404
    then some node_is_unknown
    else if not (eqb status 200)
    then some (bad_status status)
    else none

-- `errors.Is(err, errNodeUnknown)`
abbrev pub is_node_unknown : Option AgentError → Bool
is_node_unknown (some node_is_unknown) = true
is_node_unknown _ = false

-- One round of `heartbeatLoop`: whether it makes a registration after its heartbeat. Its result is only logged.
unfoldable pub must_register : {A : Type 0} → Answer A → Bool
unfolding send_heartbeat
must_register heartbeat_answer = is_node_unknown (send_heartbeat heartbeat_answer)
