-- ===== src/Remote/Retry.antt =====
-- internal/msapi/msapi.go: the bounded retry loop. A duration is the bit pattern of its nanoseconds.
-- What the service answers to each attempt, and whether the wait behind it is interrupted, are
-- arguments.
pub mod Bounded
pub mod Replies
pub mod Examples
use scan2graph.Prelude.{
  ℕ, zero, suc, ◌+◌, ◌-◌, ◌*◌, ◌%◌, ◌^◌, Bool, true, false, ◌||◌, List, [], ◌∷◌, Option, none, some,
  Str, ltb, leb, ◌==◌, if◌then◌else◌, is_empty, modulus, lt64,
}
use scan2graph.Config.Env.{parse_int}

abbrev pub max_attempts : ℕ
max_attempts = 4

abbrev pub base_backoff : ℕ
base_backoff = 500000000

abbrev pub max_wait : ℕ
max_wait = 30000000000

unfoldable pub clamp : ℕ → ℕ
unfolding lt64
clamp d =
    let raised = if lt64 d base_backoff then base_backoff else d in
    if lt64 max_wait raised then max_wait else raised

unfoldable pub backoff : ℕ → ℕ
backoff attempt = let d = base_backoff * 2 ^ (attempt - 1) in if ltb max_wait d then max_wait else d

-- `RetryAfter`, with what time.Until says of a date that http.ParseTime reads.
unfoldable pub retry_after : (Str → Option ℕ) → Str → ℕ → ℕ
unfolding clamp parse_int
retry_after until v fallback = if is_empty v then fallback else elim (parse_int v) [
  | some (minus, secs) ↦ if minus then fallback else clamp ((secs * 1000000000) % modulus)
  | none ↦ elim (until v) [ some d ↦ clamp d | none ↦ fallback ]
]

-- One attempt: the request cannot be built, the connection drops (with the context done, or not), or
-- there is a response with a status and a Retry-After header.
pub data Attempt : Type 0 where
  no_request : Attempt
  dropped : Bool → Attempt
  answered : ℕ → Str → Attempt

pub data Reply : Type 0 where
  accepted rejected : ℕ → Reply
  bad_request cancelled gave_up : Reply

-- The requests that were sent, the waits, and what `Do` returns.
pub record Run : Type 0 where
  pub requests : ℕ
  pub waits : List ℕ
  pub reply : Reply

unfoldable pub is_retried : ℕ → Bool
is_retried status = (status == 429) || leb 500 status

-- The switch of the loop: what `Do` returns at once, or the wait before the next attempt.
pub data Verdict : Type 0 where
  final : ℕ → Reply → Verdict
  again : ℕ → Verdict

unfoldable pub judge : (Str → Option ℕ) → ℕ → Attempt → Verdict
unfolding is_retried backoff retry_after
judge until attempt no_request = final 0 bad_request
judge until attempt (dropped true) = final 1 cancelled
judge until attempt (dropped false) = again (backoff attempt)
judge until attempt (answered status header) =
    if ltb status 300
    then final 1 (accepted status)
    else if is_retried status
    then again (retry_after until header (backoff attempt))
    else final 1 (rejected status)

-- A request and a wait in front of what follows.
preceded : ℕ → Run → Run
preceded wait r = record r { requests = suc r.requests; waits = wait ∷ r.waits }

module _ (until : Str → Option ℕ) (answers : ℕ → Attempt) (interrupted : ℕ → Bool) where
  -- The rest of the iteration: `rest` are the further ones, if there are any.
  unfoldable pub conclude : ℕ → Verdict → Option Run → Run
  unfolding preceded
  conclude attempt (final n reply) rest = record { requests = n; waits = []; reply = reply }
  conclude attempt (again wait) none = record { requests = 1; waits = []; reply = gave_up }
  conclude attempt (again wait) (some rest) =
      if interrupted attempt
      then record { requests = 1; waits = wait ∷ []; reply = cancelled }
      else preceded wait rest

  -- The loop with `left` attempts behind this one.
  unfoldable pub attempt_from : ℕ → ℕ → Run
  unfolding conclude judge
  attempt_from zero attempt = conclude attempt (judge until attempt (answers attempt)) none
  attempt_from (suc left) attempt =
      let rest = attempt_from left (suc attempt) in
      conclude attempt (judge until attempt (answers attempt)) (some rest)

  -- `Client.Do`.
  unfoldable pub send : Run
  unfolding attempt_from
  send = attempt_from (max_attempts - 1) 1
