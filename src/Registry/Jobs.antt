-- ===== src/Registry/Jobs.antt =====
-- storage/db_registry.go: the background jobs and `Shutdown`, which cancels them and waits for each,
-- as a step relation. A goroutine that sees its job cancelled closes the job's channel; a second
-- goroutine of the job then closes it again, which is a panic of the process. The
-- three cancellations, none of which blocks, are one step.
use openbao_teradata_secret.Common.{ℕ, suc, ◌+◌, ◌<◌, ◌≡◌, Bool, true, false, if◌then◌else◌, ◌⊎◌}

-- A job: its goroutines that have not ended, whether its channel is closed, and whether its context is
-- cancelled.
pub record Job : Type 0 where
  pub running : ℕ
  pub closed : Bool
  pub cancelled : Bool

-- Where `Shutdown` is: before its first line, at one of its three receives, or behind them, or gone
-- with the process.
pub data Phase : Type 0 where
  begun on_health on_cleanup on_min_conns at_pools crashed : Phase

-- The jobs of `DBRegistry`, and a call of `Shutdown`.
pub record Jobs : Type 0 where
  pub health : Job
  pub cleanup : Job
  pub min_conns : Job
  pub phase : Phase

abbrev pub idle_job : Job
idle_job = record { running = 0; closed = false; cancelled = false }

-- Those of `NewDBRegistry`.
abbrev pub new_jobs : Jobs
new_jobs = record { health = idle_job; cleanup = idle_job; min_conns = idle_job; phase = begun }

unfoldable pub start_job : Job → Job
start_job j = record j { running = j.running + 1 }

-- `StartHealthChecks`, `StartCleanupJob` and `StartMinConnectionsJob`; the last does nothing once the
-- job is cancelled.
unfoldable pub start_health_checks : Jobs → Jobs
unfolding start_job
start_health_checks js = record js { health = start_job js.health }

unfoldable pub start_cleanup_job : Jobs → Jobs
unfolding start_job
start_cleanup_job js = record js { cleanup = start_job js.cleanup }

unfoldable pub start_min_connections_job : Jobs → Jobs
unfolding start_job
start_min_connections_job js =
    if js.min_conns.cancelled then js else record js { min_conns = start_job js.min_conns }

-- A goroutine closes the channel of its job, and ends.
pub data Ends (j : Job) : Job → Type 0 where
  closes :
      {j' : Job} (n : ℕ)
      → j.cancelled ≡ true
      → j.closed ≡ false
      → j.running ≡ suc n
      → j' ≡ record j { running = n; closed = true }
      → Ends j j'

-- A goroutine closes the channel of its job, which is closed.
abbrev pub ClosesTwice : Job → Type 0
ClosesTwice j = (j.cancelled ≡ true) × (j.closed ≡ true) × (0 < j.running)

abbrev pub cancel_job : Job → Job
cancel_job j = record j { cancelled = true }

-- A step of `Shutdown` or of a goroutine.
pub data Step (s : Jobs) : Jobs → Type 0 where
  cancels :
      {s' : Jobs}
      → s.phase ≡ begun
      → s' ≡ record {
        health = cancel_job s.health;
        cleanup = cancel_job s.cleanup;
        min_conns = cancel_job s.min_conns;
        phase = on_health;
      }
      → Step s s'
  health_ends : {s' : Jobs} (j : Job) → Ends s.health j → s' ≡ record s { health = j } → Step s s'
  cleanup_ends :
      {s' : Jobs} (j : Job) → Ends s.cleanup j → s' ≡ record s { cleanup = j } → Step s s'
  min_conns_ends :
      {s' : Jobs} (j : Job) → Ends s.min_conns j → s' ≡ record s { min_conns = j } → Step s s'
  receives_health :
      {s' : Jobs}
      → s.phase ≡ on_health
      → s.health.closed ≡ true
      → s' ≡ record s { phase = on_cleanup }
      → Step s s'
  receives_cleanup :
      {s' : Jobs}
      → s.phase ≡ on_cleanup
      → s.cleanup.closed ≡ true
      → s' ≡ record s { phase = on_min_conns }
      → Step s s'
  receives_min_conns :
      {s' : Jobs}
      → s.phase ≡ on_min_conns
      → s.min_conns.closed ≡ true
      → s' ≡ record s { phase = at_pools }
      → Step s s'
  crashes :
      {s' : Jobs}
      → ClosesTwice s.health ⊎ ClosesTwice s.cleanup ⊎ ClosesTwice s.min_conns
      → s' ≡ record s { phase = crashed }
      → Step s s'

pub data Reach (s : Jobs) : Jobs → Type 0 where
  here : Reach s s
  after : {t u : Jobs} → Reach s t → Step t u → Reach s u
