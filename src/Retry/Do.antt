-- ===== src/Retry/Do.antt =====
-- retry/retry.go: what `Do`, `DoWithResult` and `ConnectWithRetry` promise.
use openbao_teradata_secret.Common.{
  false, ◌⊎◌, ℕ, ◌+◌, ◌≤◌, ◌<◌, ◌≡◌, refl, Option, none, some, arith,
}
use openbao_teradata_secret.Common.Int.{pos, pos_part, ◌≤ℤ◌}
use openbao_teradata_secret.Outcome.{Outcome, ok, err, panic}
use openbao_teradata_secret.Retry.{
  is_retryable_error, Error, Config, Context, settle, attempts, budget, do_retry, do_with_result,
  connect_with_retry,
}
use openbao_teradata_secret.Retry.Loop.{
  IsQuiet, FailsFor, attempts_calls, attempts-Excused, attempts-FailsFor, attempts-recovers,
}

pub budget_positive : (cfg : Config) → 0 < budget cfg
unfolding budget
budget_positive cfg = ground arith

module _ {S : Type 0} (op : S → S × Outcome Error (Unit {0})) (ctx : Context) (cfg : Config) where
  -- Do calls its operation at most as often as the budget says.
  pub do_retry_bounded : (s : S) → (do_retry ctx (some cfg) op s).calls ≤ budget cfg
  unfolding do_retry
  do_retry_bounded s =
      omega (arith, attempts_calls is_retryable_error op ctx (budget cfg) panic (budget cfg) 1 0 s)

  -- An error that Do returns is not retryable, or the operation was called as often as the budget
  -- says, or the context ended the loop with that error.
  pub do_retry_lem :
      (s : S) (e : Error)
      → (do_retry ctx (some cfg) op s).outcome ≡ err e
      → (is_retryable_error e ≡ false)
        ⊎ ((do_retry ctx (some cfg) op s).calls ≡ budget cfg)
        ⊎ ((i : ℕ) × ((ctx.done i ≡ some e) ⊎ (ctx.slept i ≡ some e)))
  unfolding do_retry
  do_retry_lem s =
      attempts-Excused is_retryable_error op ctx (budget cfg) panic (budget cfg) 1 0 s (omega arith)

  -- On a context that is never done, Do rides out fewer retryable failures than its budget,
  -- returns nil, and has called its operation once more than it failed.
  pub do_retry-recovers :
      (e : Error) (n : ℕ) (s t t' : S)
      → IsQuiet ctx
      → FailsFor is_retryable_error op e n s t
      → op t ≡ (t', ok tt)
      → n < budget cfg
      → do_retry ctx (some cfg) op s ≡ record { state = t'; calls = n + 1; outcome = ok tt }
  unfolding do_retry
  do_retry-recovers e n s t t' q f done room =
      attempts-recovers is_retryable_error op ctx (budget cfg) panic e (budget cfg) t' tt q f done
        room

  -- As many retryable failures as the budget end Do with the last of them.
  pub do_retry-exhausts :
      (e : Error) (s t : S)
      → IsQuiet ctx
      → FailsFor is_retryable_error op e (budget cfg) s t
      → do_retry ctx (some cfg) op s ≡ record { state = t; calls = budget cfg; outcome = err e }
  unfolding do_retry attempts
  do_retry-exhausts e s t q f =
      attempts-FailsFor is_retryable_error op ctx (budget cfg) panic e (budget cfg) 0 1 0
        (1 + budget cfg) (budget cfg) q f (omega arith) refl (omega arith)

-- With a maximum of attempts at or below zero Do still calls its operation, once if the context
-- is not done and the operation succeeds, while DoWithResult calls it never and returns nil with
-- no error.
pub no_attempts :
    {S A : Type 0} (ctx : Context) (cfg : Config) (op : S → S × Outcome Error (Unit {0}))
    (op' : S → S × Outcome Error (Option A)) (s t : S)
    → cfg.max_attempts ≤ℤ pos 0
    → ctx.done 1 ≡ none
    → op s ≡ (t, ok tt)
    → ((do_retry ctx (some cfg) op s).calls ≡ 1)
      × (do_with_result ctx (some cfg) op' s ≡ record { state = s; calls = 0; outcome = ok none })
unfolding do_retry do_with_result attempts budget settle
no_attempts ctx cfg op op' s t h free step =
    let all : budget cfg ≡ 3 = ground arith in
    let idle : pos_part cfg.max_attempts ≡ 0 = ground arith in
    (rw (all, attempts, free, step), rw idle)

-- Without a configuration `ConnectWithRetry` panics before it has tried to connect, whatever the
-- driver would answer.
pub connect_with_retry-panics :
    {S C : Type 0} (ctx : Context) (connect : S → S × Outcome Error C) (s : S)
    → connect_with_retry ctx connect s ≡ ((s, none), panic)
unfolding connect_with_retry
connect_with_retry-panics ctx connect s = refl
