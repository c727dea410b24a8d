-- ===== src/Registry.antt =====
-- storage/db_registry.go: the pools of connections. A registry is the map that its lock guards, and
-- the state of the database beside it, which is that of `Driver`. Durations are signed nanoseconds;
-- metrics, logging and tracing are left out, and so is the multiplier of the retries, which is
-- floating point and read by the backoff only.
pub mod Defaults
pub mod Pools
pub mod Upkeep
pub mod Runs
pub mod Jobs
pub mod Shutdown
use openbao_teradata_secret.Common.{ℕ, ◌*◌, Bool, Option, none, some, if◌then◌else◌}
use openbao_teradata_secret.Common.Bytes.{Bytes, codes, is_empty}
use openbao_teradata_secret.Common.Int.{ℤ, pos, lebℤ, ltbℤ}
use openbao_teradata_secret.Common.Map.{Map}
use openbao_teradata_secret.Database.{Driver}
use openbao_teradata_secret.Model.{second}
use openbao_teradata_secret.Retry.{Error}
use openbao_teradata_secret.Roles.{eqℤ}

-- `DBConfig`, less what is only handed on.
pub record DbConfig : Type 0 where
  pub name : Bytes
  pub connection_string : Bytes
  pub min_connections : ℤ
  pub max_open_connections : ℤ
  pub max_idle_connections : ℤ
  pub connection_timeout : ℤ
  pub max_connection_lifetime : ℤ
  pub idle_timeout : ℤ
  pub health_check_interval : ℤ
  pub health_check_timeout : ℤ
  pub eviction_policy : Bytes
  pub eviction_batch_size : ℤ
  pub eviction_grace_period : ℤ
  pub min_evictable_idle_time : ℤ
  pub max_retries : ℤ
  pub initial_retry_interval : ℤ
  pub max_retry_interval : ℤ

-- One millisecond, in nanoseconds.
abbrev pub millisecond : ℕ
millisecond = 1_000_000

-- `if c.F == 0 { c.F = d }` and `if c.F <= 0 { c.F = d }`
abbrev pub if_zero : ℤ → ℕ → ℤ
if_zero z d = if eqℤ z 0 then pos d else z

abbrev pub if_not_positive : ℤ → ℕ → ℤ
if_not_positive z d = if lebℤ z (pos 0) then pos d else z

-- `if a > b { a = b }`
abbrev pub at_most : ℤ → ℤ → ℤ
at_most a b = if ltbℤ b a then b else a

-- The numbers of connections that `AddConnection` and `UpdateConnection` set up: the least, the most
-- idle ones, for those asked for and the most open ones.
unfoldable pub fit_sizes : ℤ → ℤ → ℤ → ℤ × ℤ
fit_sizes min idle max =
    let min1 = if ltbℤ min (pos 0) then pos 0 else min in
    let min2 = at_most min1 max in
    let idle1 = at_most idle max in (min2, if ltbℤ idle1 min2 then min2 else idle1)

-- The defaults that both set.
unfoldable pub with_defaults : DbConfig → DbConfig
with_defaults c =
    let sizes = fit_sizes c.min_connections c.max_idle_connections c.max_open_connections in
    record c {
      health_check_interval = if_zero c.health_check_interval (30 * second);
      health_check_timeout = if_zero c.health_check_timeout (5 * second);
      connection_timeout = if_zero c.connection_timeout (10 * second);
      idle_timeout = if_zero c.idle_timeout (300 * second);
      max_connection_lifetime = if_zero c.max_connection_lifetime (3600 * second);
      min_connections = sizes.0;
      max_idle_connections = sizes.1;
      max_retries = if_zero c.max_retries 3;
      initial_retry_interval = if_zero c.initial_retry_interval (100 * millisecond);
      max_retry_interval = if_zero c.max_retry_interval (5 * second);
      eviction_policy = if is_empty c.eviction_policy then codes "lifo" else c.eviction_policy;
      eviction_batch_size = if_not_positive c.eviction_batch_size 1;
      eviction_grace_period = if_not_positive c.eviction_grace_period (30 * second);
    }

-- `ConnectionState`
pub data ConnectionState : Type 0 where
  unknown healthy unhealthy closed : ConnectionState

-- `DBConnection`, less the channel that the warm-up closes. The code never makes a connection with a nil database.
pub record Connection (d : Driver) : Type 0 where
  pub config : DbConfig
  pub database : d.Db
  pub state : ConnectionState
  pub last_health_check : ℕ
  pub last_used : ℕ
  pub health_check_err : Option Error

-- `DBRegistry`, less the jobs, with the state of the database.
pub record Registry (d : Driver) : Type 0 where
  pub connections : Map (Connection d)
  pub world : d.State
