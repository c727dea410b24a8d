-- ===== src/Degradation/Manual.antt =====
-- plugin/backend.go: how long degradation lasts, and since when it is said to last.
use openbao_teradata_secret.Common.{
  ℕ, ◌<◌, ◌≡◌, refl, Bool, true, false, not, List, [], ◌∷◌, ◌==◌, arith,
}
use openbao_teradata_secret.Degradation.{
  Flags, new_flags, is_degraded, set_graceful_degradation, set_manually_enabled_degradation,
  should_use_degradation, update_degradation,
}

-- The states that health checks and updates, in any order, lead to. The two calls of an update that
-- switches off are steps of their own, so that a check may come between them.
pub data Reach : Flags → Type 0 where
  start : Reach new_flags
  check :
      {b : Flags} (enabled : Bool) (now : ℕ)
      → 0 < now
      → Reach b
      → Reach (set_graceful_degradation b enabled now)
  manual :
      {b : Flags} (enabled : Bool) (now : ℕ)
      → 0 < now
      → Reach b
      → Reach (set_manually_enabled_degradation b enabled now)

-- A time is kept exactly while the backend is degraded.
abbrev pub IsTimed : Flags → Type 0
IsTimed b = is_degraded b ≡ not (b.degraded_since == 0)

graceful-IsTimed :
    (b : Flags) (enabled : Bool) (now : ℕ)
    → 0 < now
    → IsTimed b
    → IsTimed (set_graceful_degradation b enabled now)
unfolding set_graceful_degradation is_degraded
graceful-IsTimed b enabled now p h = ground (arith, h)

manually-IsTimed :
    (b : Flags) (enabled : Bool) (now : ℕ)
    → 0 < now
    → IsTimed b
    → IsTimed (set_manually_enabled_degradation b enabled now)
unfolding set_manually_enabled_degradation is_degraded
manually-IsTimed b true now p h = ground (arith, h)
manually-IsTimed b false now p h = h

-- In every state that health checks and manual switches after the zero time lead to, the backend
-- keeps the time since when it is degraded while it is degraded, and no time otherwise.
pub Reach-IsTimed : (b : Flags) → Reach b → IsTimed b
unfolding is_degraded
Reach-IsTimed b start = refl
Reach-IsTimed b (check {b = c} enabled now p r) =
    graceful-IsTimed c enabled now p (Reach-IsTimed c r)
Reach-IsTimed b (manual {b = c} enabled now p r) =
    manually-IsTimed c enabled now p (Reach-IsTimed c r)

-- Health checks, each with what it found and when.
abbrev pub after_checks : List (Bool × ℕ) → Flags → Flags
after_checks [] b = b
after_checks ((enabled, now) ∷ checks) b =
    after_checks checks (set_graceful_degradation b enabled now)

checks-manual :
    (checks : List (Bool × ℕ)) (b : Flags)
    → (after_checks checks b).manually_enabled_degradation ≡ b.manually_enabled_degradation
unfolding set_graceful_degradation
checks-manual [] b = refl
checks-manual ((enabled, now) ∷ checks) b =
    checks-manual checks (set_graceful_degradation b enabled now)

-- Degradation that an update has switched on is used through any health checks that follow, and
-- an update that switches it off ends its use at once.
pub should_use_degradation-update_degradation :
    (b : Flags) (now later : ℕ) (checks : List (Bool × ℕ))
    → (should_use_degradation (after_checks checks (update_degradation b true now)) ≡ true)
      × (should_use_degradation
            (update_degradation (after_checks checks (update_degradation b true now)) false later)
          ≡ false)
unfolding should_use_degradation update_degradation set_manually_enabled_degradation
    set_graceful_degradation
should_use_degradation-update_degradation b now later checks =
    (ground (arith, checks-manual checks (update_degradation b true now)), refl)
