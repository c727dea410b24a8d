-- ===== src/Retry.antt =====
-- retry/retry.go: which errors are retried, and the loops of `Do` and `DoWithResult`. The operation
-- is a function on the caller's state; the context is what it answers when the loop asks. Sleeping
-- is a question to the context: `calculateBackoff`, which is floating-point and random, only says
-- how long, and is not modelled, nor are `OnRetry` (never set here) and the tracing calls, except
-- that an argument of the first one reads a field of the configuration.
pub mod Loop
pub mod Do
use openbao_teradata_secret.Common.{
  ℕ, zero, suc, ◌+◌, Bool, true, false, ◌||◌, List, [], ◌∷◌, ◌++◌, Option, none, some, any, ltb,
  if◌then◌else◌,
}
use openbao_teradata_secret.Common.Bytes.{Bytes, codes, contains}
use openbao_teradata_secret.Common.Int.{ℤ, pos, lebℤ, pos_part}
use openbao_teradata_secret.Outcome.{Outcome, ok, err, panic}

-- The errors that the loops tell apart: one that implements `TransientError`, a `*url.Error` with
-- what its `Temporary` and `Timeout` answer, `odbc.ErrNotConnected`, and any other by its text.
pub data Error : Type 0 where
  transient_error : Bool → Bytes → Error
  url_error : Bool → Bool → Bytes → Error
  not_connected : Error
  plain : Bytes → Error

-- `err.Error()`
unfoldable pub error_text : Error → Bytes
error_text (transient_error t text) = text
error_text (url_error p t text) = text
error_text not_connected = codes "not connected"
error_text (plain text) = text

-- The texts that `IsTransientError` looks for.
abbrev pub transient_texts : List Bytes
transient_texts =
    codes "ECONNREFUSED"
    ∷ codes "ECONNRESET"
    ∷ codes "ETIMEDOUT"
    ∷ codes "ENETUNREACH"
    ∷ codes "EHOSTUNREACH"
    ∷ codes "connection refused"
    ∷ codes "connection reset"
    ∷ codes "timeout"
    ∷ codes "temporary failure"
    ∷ codes "server declined"
    ∷ codes "unable to connect"
    ∷ codes "deadlock"
    ∷ codes "lock contention"
    ∷ codes "resource unavailable"
    ∷ codes "table is busy"
    ∷ codes "transaction was deadlocked"
    ∷ []

-- `IsTransientError`, on an error that is not nil.
unfoldable pub is_transient_error : Error → Bool
unfolding error_text
is_transient_error (transient_error t text) = t
is_transient_error (url_error temporary timeout text) = temporary || timeout
is_transient_error not_connected = any (contains (error_text not_connected)) transient_texts
is_transient_error (plain text) = any (contains text) transient_texts

-- `IsRetryableError`, on an error that is not nil.
unfoldable pub is_retryable_error : Error → Bool
unfolding is_transient_error
is_retryable_error not_connected = true
is_retryable_error e = is_transient_error e

-- `Config`, as far as the loops read it.
pub record Config : Type 0 where
  pub max_attempts : ℤ

-- `DefaultMaxAttempts` and `DefaultConfig`
abbrev pub default_max_attempts : ℕ
default_max_attempts = 3

abbrev pub default_config : Config
default_config = record { max_attempts = pos default_max_attempts }

-- `ctx.Err()` if the context is done before the given attempt, and the error that ends the sleep
-- after it; `none` there is the sleep's own deadline.
pub record Context : Type 0 where
  pub done : ℕ → Option Error
  pub slept : ℕ → Option Error

-- What a loop leaves: the caller's state, how often the operation was called, and the result.
pub record Run {ℓ} (S : Type 0) (A : Type ℓ) : Type ℓ where
  pub state : S
  pub calls : ℕ
  pub outcome : Outcome Error A

-- One round after the operation returned: `next` is the rest of the loop with the error as `lastErr`,
-- and `retryable` says which errors are retried: `IsRetryableError` here, another test in odbc/odbc.go.
module _ {S A : Type 0} (retryable : Error → Bool) (ctx : Context) (max : ℕ) where
  unfoldable pub settle : Outcome Error A → ℕ → ℕ → S → (Error → Run S A) → Run S A
  settle (ok a) attempt calls s next = record { state = s; calls = calls; outcome = ok a }
  settle panic attempt calls s next = record { state = s; calls = calls; outcome = panic }
  settle (err e) attempt calls s next =
      if retryable e
      then (if ltb attempt max
          then elim (ctx.slept attempt) [
            | some e' ↦ record { state = s; calls = calls; outcome = err e' }
            | none ↦ next e
          ]
          else next e)
      else record { state = s; calls = calls; outcome = err e }

module _ {S A : Type 0} (retryable : Error → Bool) (op : S → S × Outcome Error A) (ctx : Context)
    (max : ℕ) where
  -- The loop, with the attempts left, the number of the next one, the calls made so far, and what
  -- is returned when no attempt is left.
  unfoldable pub attempts : Outcome Error A → ℕ → ℕ → ℕ → S → Run S A
  attempts last zero attempt calls s = record { state = s; calls = calls; outcome = last }
  attempts last (suc left) attempt calls s = elim (ctx.done attempt) [
    | some e ↦ record { state = s; calls = calls; outcome = err e }
    | none ↦
        settle retryable ctx max (op s).1 attempt (calls + 1) (op s).0
          (λ e. attempts (err e) left (attempt + 1) (calls + 1) (op s).0)
  ]

-- The attempts that `Do` allows.
unfoldable pub budget : Config → ℕ
budget cfg =
    if lebℤ cfg.max_attempts (pos 0) then default_max_attempts else pos_part cfg.max_attempts

-- `Do`. Its first call of `SetAttributes` reads `cfg.MaxAttempts` before the test for nil, so a nil
-- configuration panics. With no attempt made, `lastErr.Error()` would panic too.
unfoldable pub do_retry :
    {S : Type 0}
    → Context
    → Option Config
    → (S → S × Outcome Error (Unit {0}))
    → S
    → Run S (Unit {0})
do_retry ctx none op s = record { state = s; calls = 0; outcome = panic }
do_retry ctx (some cfg) op s =
    attempts is_retryable_error op ctx (budget cfg) panic (budget cfg) 1 0 s

-- `DoWithResult`: a nil result is `none`. It keeps a maximum below one, and then returns nil, nil.
unfoldable pub do_with_result :
    {S A : Type 0}
    → Context
    → Option Config
    → (S → S × Outcome Error (Option A))
    → S
    → Run S (Option A)
do_with_result ctx none op s =
    attempts is_retryable_error op ctx default_max_attempts (ok none) default_max_attempts 1 0 s
do_with_result ctx (some cfg) op s =
    let max = pos_part cfg.max_attempts in
    attempts is_retryable_error op ctx max (ok none) max 1 0 s

-- `UntilSuccess`
unfoldable pub until_success :
    {S : Type 0} → Context → ℤ → (S → S × Outcome Error (Unit {0})) → S → Run S (Unit {0})
unfolding do_retry
until_success ctx max_attempts = do_retry ctx (some (record { max_attempts = max_attempts }))

-- The result of a loop whose error is wrapped with a text.
abbrev pub wrap {ℓ} : {A : Type ℓ} → Bytes → Outcome Error A → Outcome Error A
wrap text (ok a) = ok a
wrap text (err e) = err (plain (text ++ error_text e))
wrap text panic = panic

-- `ConnectWithRetry`: `connect` is `odbc.Connect`, and the connection made last is returned.
unfoldable pub connect_with_retry :
    {S C : Type 0}
    → Context
    → (S → S × Outcome Error C)
    → S
    → (S × Option C) × Outcome Error (Option C)
unfolding do_retry
connect_with_retry ctx connect s =
    let run =
      do_retry ctx none
        (λ (w : _ × Option _).
          let (s', r) = connect w.0 in
          elim r [
            | ok c ↦ ((s', some c), ok tt)
            | err e ↦ ((s', none), err e)
            | panic ↦ (w, panic)
          ])
        (s, none) in
    (
      run.state,
      wrap (codes "connect with retry failed: ")
          (elim run.outcome [ ok _ ↦ ok run.state.1 | err e ↦ err e | panic ↦ panic ]),
    )
