-- ===== src/Retry/Loop.antt =====
-- retry/retry.go: how often the loop of `Do` and `DoWithResult` calls its operation, what it
-- returns, and when.
use openbao_teradata_secret.Common.{
  ℕ, Bool, zero, suc, ◌+◌, ◌-◌, ◌∙◌, ◌≤◌, ◌<◌, ◌≡◌, ◌≢◌, ap, refl, ◌⊎◌, inl, inr, true, false, none,
  some, arith, ltb, Bool-cases, Option-cases,
}
use openbao_teradata_secret.Outcome.{Outcome, ok, err, panic, Outcome-cases}
use openbao_teradata_secret.Retry.{Error, settle, Context, Run, attempts}

-- The context is never done and no sleep is cut short.
pub record IsQuiet (ctx : Context) : Type 0 where
  pub not_done : (i : ℕ) → ctx.done i ≡ none
  pub not_cut : (i : ℕ) → ctx.slept i ≡ none

-- The operation fails with a retryable error `n` times in a row, from state `s` to state `t`.
pub data FailsFor {S A : Type 0} (retryable : Error → Bool) (op : S → S × Outcome Error A)
    (last : Error) : ℕ → S → S → Type 0 where
  once :
      {s t : S}
      → op s ≡ (t, err last)
      → retryable last ≡ true
      → FailsFor retryable op last (suc zero) s t
  again :
      {n : ℕ} {s s' t : S} (e : Error)
      → op s ≡ (s', err e)
      → retryable e ≡ true
      → FailsFor retryable op last n s' t
      → FailsFor retryable op last (suc n) s t

module _ {S A : Type 0} (retryable : Error → Bool) (ctx : Context) (max : ℕ) where
  settle_calls :
      (r : Outcome Error A) (attempt calls bound : ℕ) (s : S) (next : Error → Run S A)
      → calls ≤ bound
      → ((e : Error) → (next e).calls ≤ bound)
      → (settle retryable ctx max r attempt calls s next).calls ≤ bound
  unfolding settle
  settle_calls (ok a) attempt calls bound s next h k = h
  settle_calls panic attempt calls bound s next h k = h
  settle_calls (err e) attempt calls bound s next h k = ground (arith, k e)

  -- Why a loop may end with an error: it is not retryable, no attempt was left, or the context
  -- ended it.
  abbrev pub Excused : Run S A → Type 0
  Excused r =
      (e : Error)
      → r.outcome ≡ err e
      → (retryable e ≡ false)
        ⊎ (r.calls ≡ max)
        ⊎ ((i : ℕ) × ((ctx.done i ≡ some e) ⊎ (ctx.slept i ≡ some e)))

  settle-Excused :
      (r : Outcome Error A) (attempt calls : ℕ) (s : S) (next : Error → Run S A)
      → ((e : Error) → Excused (next e))
      → Excused (settle retryable ctx max r attempt calls s next)
  unfolding settle
  settle-Excused (ok a) attempt calls s next h = λ e f. absurd (cc)
  settle-Excused panic attempt calls s next h = λ e f. absurd (cc)
  settle-Excused (err e) attempt calls s next h = elim (Bool-cases (retryable e)) [
    | inr final ↦ rw final (λ e' f. inl (ground arith))
    | inl retry ↦ elim (Bool-cases (ltb attempt max)) [
      | inr last ↦ rw (retry, last) (h e)
      | inl more ↦ elim (Option-cases (ctx.slept attempt)) [
        | inl slept ↦ rw (retry, more, slept) (h e)
        | inr (x, cut) ↦ rw (retry, more, cut) (λ e' f. inr (inr (attempt, inr (ground arith))))
      ]
    ]
  ]

module _ {S A : Type 0} (retryable : Error → Bool) (op : S → S × Outcome Error A) (ctx : Context)
    (max : ℕ) where
  pub attempts_calls :
      (last : Outcome Error A) (left attempt calls : ℕ) (s : S)
      → (attempts retryable op ctx max last left attempt calls s).calls ≤ calls + left
  unfolding attempts
  attempts_calls last zero attempt calls s = omega arith
  attempts_calls last (suc left) attempt calls s = elim (Option-cases (ctx.done attempt)) [
    | inr (e, stop) ↦ rw (stop, attempts) (omega arith)
    | inl go ↦
        rw (go, attempts)
          (settle_calls retryable ctx max (op s).1 attempt (calls + 1) (calls + suc left) (op s).0 _
            (omega arith)
            λ e. omega (arith, attempts_calls (err e) left (attempt + 1) (calls + 1) (op s).0))
  ]

  pub attempts-Excused :
      (last : Outcome Error A) (left attempt calls : ℕ) (s : S)
      → calls + left ≡ max
      → Excused retryable ctx max (attempts retryable op ctx max last left attempt calls s)
  unfolding attempts
  attempts-Excused last zero attempt calls s total = λ e f. inr (inl (omega arith))
  attempts-Excused last (suc left) attempt calls s total = elim (Option-cases (ctx.done attempt)) [
    | inr (x, stop) ↦ rw (stop, attempts) (λ e f. inr (inr (attempt, inl (ground arith))))
    | inl go ↦
        rw (go, attempts)
          (settle-Excused retryable ctx max (op s).1 attempt (calls + 1) (op s).0 _
            λ e. attempts-Excused (err e) left (attempt + 1) (calls + 1) (op s).0 (omega arith))
  ]

  -- A retried failure is one call of the loop with one attempt less.
  attempts_retry :
      (last : Outcome Error A) (left attempt calls : ℕ) (s t : S) (e : Error)
      → IsQuiet ctx
      → op s ≡ (t, err e)
      → retryable e ≡ true
      → attempts retryable op ctx max last (suc left) attempt calls s
        ≡ attempts retryable op ctx max (err e) left (attempt + 1) (calls + 1) t
  unfolding attempts settle
  attempts_retry last left attempt calls s t e q step retry =
      rw (q.not_done attempt, attempts, step, retry)
        (elim (Bool-cases (ltb attempt max)) [
          | inr final ↦ rw final
          | inl more ↦ rw (more, q.not_cut attempt)
        ])

  -- `n` retried failures use up `n` attempts.
  pub attempts-FailsFor :
      (last : Outcome Error A) (e : Error) {n : ℕ} (all left attempt calls now made : ℕ) {s t : S}
      → IsQuiet ctx
      → FailsFor retryable op e n s t
      → all ≡ n + left
      → now ≡ attempt + n
      → made ≡ calls + n
      → attempts retryable op ctx max last all attempt calls s
        ≡ attempts retryable op ctx max (err e) left now made t
  attempts-FailsFor last e zero left attempt calls now made q (once step retry) a b c =
      absurd (omega arith)
  attempts-FailsFor last e zero left attempt calls now made q (again e' step retry f) a b c =
      absurd (omega arith)
  attempts-FailsFor last e (suc all) left attempt calls now made {s} {t} q (once step retry) a b c =
      let same : all ≡ left = omega arith in
      rw (b, c, ← same) (attempts_retry last all attempt calls s t e q step retry)
  attempts-FailsFor last e (suc all) left attempt calls now made {s} {t} q
        (again {s' = s'} e' step retry f) a b c =
      attempts_retry last all attempt calls s s' e' q step retry
      ∙ attempts-FailsFor (err e') e all left (attempt + 1) (calls + 1) now made q f (omega arith)
          (omega arith) (omega arith)

  -- A success after `n` retried failures is returned, if an attempt is left for it.
  pub attempts-recovers :
      (last : Outcome Error A) (e : Error) {n : ℕ} (all : ℕ) {s t : S} (t' : S) (a : A)
      → IsQuiet ctx
      → FailsFor retryable op e n s t
      → op t ≡ (t', ok a)
      → n < all
      → attempts retryable op ctx max last all 1 0 s
        ≡ record { state = t'; calls = n + 1; outcome = ok a }
  unfolding attempts settle
  attempts-recovers last e {n} all {s} {t} t' a q f done room =
      attempts-FailsFor last e all (suc (all - n - 1)) 1 0 (1 + n) n q f (omega arith) refl
        (omega arith)
      ∙ rw (attempts, q.not_done (1 + n), done)

module _ {S A : Type 0} (retryable : Error → Bool) (op : S → S × Outcome Error A) (ctx : Context)
    (max : ℕ) where
  -- A result of the loop that is not an error is that of the operation on some state, which it left as
  -- the loop leaves it, or what the loop started with, if it made no attempt.
  abbrev pub Genuine : Run S A → Type 0
  Genuine r = (a : A) → r.outcome ≡ ok a → (s' : S) × (op s' ≡ (r.state, ok a))

  settle-Genuine :
      (attempt calls : ℕ) (s : S) (next : Error → Run S A)
      → ((e : Error) → Genuine (next e))
      → Genuine (settle retryable ctx max (op s).1 attempt calls (op s).0 next)
  unfolding settle
  settle-Genuine attempt calls s next h = elim (Outcome-cases (op s).1) [
    | inl (a, done) ↦ rw (done, settle) (λ a' f. (s, ap (λ o. ((op s).0, o)) (done ∙ f)))
    | inr (inr crashed) ↦ rw (crashed, settle) (λ a' f. absurd (cc))
    | inr (inl (e, failed)) ↦ elim (Bool-cases (retryable e)) [
      | inr final ↦ rw (failed, settle, final) (λ a' f. absurd (cc))
      | inl retry ↦ elim (Bool-cases (ltb attempt max)) [
        | inr last ↦ rw (failed, settle, retry, last) (h e)
        | inl more ↦ elim (Option-cases (ctx.slept attempt)) [
          | inl slept ↦ rw (failed, settle, retry, more, slept) (h e)
          | inr (x, cut) ↦ rw (failed, settle, retry, more, cut) (λ a' f. absurd (cc))
        ]
      ]
    ]
  ]

  pub attempts-Genuine :
      (last : Outcome Error A) (left attempt calls : ℕ) (s : S)
      → ((a : A) → left ≡ 0 → last ≢ ok a)
      → Genuine (attempts retryable op ctx max last left attempt calls s)
  unfolding attempts
  attempts-Genuine last zero attempt calls s h = λ a f. absurd (h a refl f)
  attempts-Genuine last (suc left) attempt calls s h = elim (Option-cases (ctx.done attempt)) [
    | inr (x, stop) ↦ rw (stop, attempts) (λ a f. absurd (cc))
    | inl go ↦
        rw (go, attempts)
          (settle-Genuine attempt (calls + 1) s _ λ e.
            attempts-Genuine (err e) left (attempt + 1) (calls + 1) (op s).0 (λ a z f. absurd (cc)))
  ]
