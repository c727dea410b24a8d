-- ===== src/Degradation.antt =====
-- plugin/backend.go, lines 308-353: the flags of graceful degradation, each method of which holds the
-- lock; plugin/path_operational.go, `pathDegradationUpdate`, which calls two of them. Every reading
-- of the clock is an argument, 0 is the zero time, and logging is left out.
pub mod Manual
use openbao_teradata_secret.Common.{ℕ, Bool, true, false, not, ◌&&◌, ◌||◌, ◌==◌, if◌then◌else◌}

-- The fields of `Backend` that degradation is kept in.
pub record Flags : Type 0 where
  pub degraded_since : ℕ
  pub graceful_degradation : Bool
  pub manually_enabled_degradation : Bool

-- Those of a new backend.
abbrev pub new_flags : Flags
new_flags = record {
  degraded_since = 0;
  graceful_degradation = false;
  manually_enabled_degradation = false;
}

-- `IsDegraded`
unfoldable pub is_degraded : Flags → Bool
is_degraded b = b.graceful_degradation

-- `SetGracefulDegradation`
unfoldable pub set_graceful_degradation : Flags → Bool → ℕ → Flags
set_graceful_degradation b enabled now =
    let since =
      if enabled && not b.graceful_degradation
      then now
      else if not enabled
      then 0
      else b.degraded_since in
    record b { degraded_since = since; graceful_degradation = enabled }

-- `SetManuallyEnabledDegradation`
unfoldable pub set_manually_enabled_degradation : Flags → Bool → ℕ → Flags
set_manually_enabled_degradation b enabled now =
    if enabled
    then record {
      degraded_since = if b.degraded_since == 0 then now else b.degraded_since;
      graceful_degradation = true;
      manually_enabled_degradation = true;
    }
    else record b { manually_enabled_degradation = false }

-- `ShouldUseDegradation`
unfoldable pub should_use_degradation : Flags → Bool
should_use_degradation b = b.graceful_degradation || b.manually_enabled_degradation

-- `pathDegradationUpdate`
unfoldable pub update_degradation : Flags → Bool → ℕ → Flags
update_degradation b true now = set_manually_enabled_degradation b true now
update_degradation b false now =
    set_manually_enabled_degradation (set_graceful_degradation b false now) false now
