-- ===== src/Registry/Upkeep.antt =====
-- storage/db_registry.go: what the background jobs do to a connection, under its lock: the health
-- check, the cleanup of idle connections, the least number of connections, and the warm-up.
pub mod Idle
use openbao_teradata_secret.Common.{
  ℕ, zero, suc, ◌+◌, ◌-◌, Bool, true, false, ◌&&◌, ◌++◌, List, [], ◌∷◌, Option, none, some, ltb,
  leb, if◌then◌else◌,
}
use openbao_teradata_secret.Common.Bytes.{Bytes, codes}
use openbao_teradata_secret.Common.Int.{ℤ, pos, lebℤ, ltbℤ, sub_ℕ, pos_part, ◌-ℤ◌}
use openbao_teradata_secret.Common.Map.{Map}
use openbao_teradata_secret.Database.{Driver, DbStats}
use openbao_teradata_secret.Registry.{
  DbConfig, ConnectionState, healthy, unhealthy, closed, Connection, Registry,
}
use openbao_teradata_secret.Retry.{Error, plain, error_text}

module _ (d : Driver) where
  -- `CheckHealth` after the ping; `now` is read for `lastHealthCheck`.
  unfoldable pub checked : Connection d → Option Error → ℕ → Connection d
  checked c none now = record c {
    state = healthy;
    health_check_err = none;
    last_health_check = now;
  }
  checked c (some e) now = record c {
    state = unhealthy;
    health_check_err = some (plain (codes "health check failed: " ++ error_text e));
    last_health_check = now;
  }

  -- `CheckHealth`
  unfoldable pub check_health : Connection d → ℕ → d.State → d.State × Connection d
  unfolding checked
  check_health c now w = let (w', e) = d.ping c.database w in (w', checked c e now)

  -- `GetState`
  unfoldable pub get_state : Connection d → ConnectionState × Option Error
  get_state c = (c.state, c.health_check_err)

  -- The loop of `runHealthChecks`; `clock` is the reading at the check of each name.
  unfoldable pub check_all :
      (Bytes → ℕ) → Map (Connection d) → d.State → d.State × Map (Connection d)
  check_all clock [] w = (w, [])
  check_all clock ((name, c) ∷ m) w =
      let (w1, c1) = check_health c (clock name) w in
      let (w2, m2) = check_all clock m w1 in (w2, (name, c1) ∷ m2)

  -- `runHealthChecks`
  unfoldable pub run_health_checks : (Bytes → ℕ) → Registry d → Registry d
  unfolding check_all
  run_health_checks clock r =
      let (w, m) = check_all clock r.connections r.world in record { connections = m; world = w }

  -- `TouchLastUsed`
  unfoldable pub touch_last_used : Connection d → ℕ → Connection d
  touch_last_used c now = record c { last_used = now }

  -- The size of a batch of `cleanupIdleConnections`, for the idle connections there are.
  unfoldable pub batch_size : DbConfig → ℕ → ℕ
  batch_size config idle =
      if lebℤ config.eviction_batch_size (pos 0)
      then idle
      else if ltb idle (pos_part config.eviction_batch_size)
      then idle
      else pos_part config.eviction_batch_size

  -- Whether a pool last used at `last_used` has been idle for long enough at `now`.
  unfoldable pub is_evictable : DbConfig → ℕ → ℕ → Bool
  is_evictable config last_used now =
      let least =
        if lebℤ config.min_evictable_idle_time (pos 0)
        then config.idle_timeout
        else config.min_evictable_idle_time in
      let idle_duration = sub_ℕ now last_used in
      ltbℤ least idle_duration && ltbℤ least (idle_duration -ℤ config.eviction_grace_period)

  -- The loop of `cleanupIdleConnections`, with the rounds left, the number of the round, and the
  -- connections counted as evicted; `clock` is the reading of each round.
  unfoldable pub evict : Connection d → (ℕ → ℕ) → ℕ → ℕ → ℕ → ℕ → d.State → d.State × ℕ
  evict c clock idle zero i evicted w = (w, evicted)
  evict c clock idle (suc left) i evicted w = elim (ltb evicted idle) [
    | false ↦ (w, evicted)
    | true ↦ elim (is_evictable c.config c.last_used (clock i)) [
      | true ↦ evict c clock idle left (i + 1) (evicted + 1) (d.close c.database w)
      | false ↦ evict c clock idle left (i + 1) evicted w
    ]
  ]

  -- `cleanupIdleConnections`
  unfoldable pub cleanup_idle_connections :
      Connection d → (ℕ → ℕ) → d.State → d.State × Connection d
  unfolding evict
  cleanup_idle_connections c clock w =
      let idle = (d.stats c.database w).idle in
      if lebℤ c.config.idle_timeout (pos 0) && lebℤ c.config.min_evictable_idle_time (pos 0)
      then (w, c)
      else if leb idle 0
      then (w, c)
      else (let (w', evicted) = evict c clock idle (batch_size c.config idle) 0 0 w in
          (w', if ltb 0 evicted then record c { state = closed } else c))

  -- How many connections `ensureMinConnections` opens.
  unfoldable pub to_open : DbConfig → DbStats → ℕ
  to_open config stats =
      let min = pos_part config.min_connections in
      let max = pos_part config.max_open_connections in
      if lebℤ config.min_connections (pos 0)
      then 0
      else if leb min stats.idle
      then 0
      else if ltb stats.open_connections max
      then (if ltb (max - stats.open_connections) (min - stats.idle)
          then max - stats.open_connections
          else min - stats.idle)
      else 0

  -- The loop of `ensureMinConnections` over `pingAndTrackConnection`.
  unfoldable pub ping_each :
      ℕ → (ℕ → ℕ) → Connection d → d.State → d.State × Connection d × Option Error
  ping_each zero clock c w = (w, c, none)
  ping_each (suc left) clock c w =
      let (w', e) = d.ping c.database w in
      elim e [
        | some x ↦ (w', c, some (plain (codes "failed to open min connection: " ++ error_text x)))
        | none ↦ ping_each left clock (touch_last_used c (clock left)) w'
      ]

  -- `ensureMinConnections`
  unfoldable pub ensure_min_connections :
      (ℕ → ℕ) → Connection d → d.State → d.State × Connection d × Option Error
  unfolding ping_each
  ensure_min_connections clock c w = ping_each (to_open c.config (d.stats c.database w)) clock c w

  -- The loop of `EnsureMinConnections`, which ends with the first error.
  unfoldable pub ensure_all :
      (Bytes → ℕ → ℕ) → Map (Connection d) → d.State → d.State × Map (Connection d) × Option Error
  ensure_all clock [] w = (w, [], none)
  ensure_all clock ((name, c) ∷ m) w =
      let (w1, c1, e) = ensure_min_connections (clock name) c w in
      elim e [
        | some x ↦ (w1, (name, c1) ∷ m, some x)
        | none ↦ let (w2, m2, e2) = ensure_all clock m w1 in (w2, (name, c1) ∷ m2, e2)
      ]

  -- The loop of `warmupPool`; `done` is whether the context is done before each round.
  unfoldable pub warmup : d.Db → (ℕ → Bool) → ℕ → d.State → d.State
  warmup db done zero w = w
  warmup db done (suc left) w = if done left then w else warmup db done left (d.conn db w).0

  -- The loop of `runCleanup`.
  unfoldable pub cleanup_all :
      (Bytes → ℕ → ℕ) → Map (Connection d) → d.State → d.State × Map (Connection d)
  cleanup_all clock [] w = (w, [])
  cleanup_all clock ((name, c) ∷ m) w =
      let (w1, c1) = cleanup_idle_connections c (clock name) w in
      let (w2, m2) = cleanup_all clock m w1 in (w2, (name, c1) ∷ m2)
