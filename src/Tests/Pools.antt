-- ===== src/Tests/Pools.antt =====
-- storage/db_registry.go, plugin/backend.go and odbc/odbc.go on a database that counts the statements
-- that it executes, and on one whose statements time out as often as its state says.
use openbao_teradata_secret.Common.{
  ℕ, zero, suc, ◌+◌, ◌≡◌, ◌≢◌, ◌↔◌, ◌<◌, List, All, ◌⊎◌, refl, true, [], ◌∷◌, Option, none, some,
  arith, all, if◌then◌else◌,
}
use openbao_teradata_secret.Common.Bytes.{
  Bytes, codes, contains_byte, trim_space, bytes_eq, contains, ends_with,
}
use openbao_teradata_secret.Common.Int.{pos}
use openbao_teradata_secret.Common.Map.{lookup}
use openbao_teradata_secret.Database.{Driver}
use openbao_teradata_secret.Health.{is_pool_healthy, can_operate, unavailable}
use openbao_teradata_secret.Health.Operate.{can_operate_lem}
use openbao_teradata_secret.Odbc.Client.{
  Connection, open_database, execute, query_budget, has_indicator, connect_with_retry, send_all,
  execute_multiple_statements,
}
use openbao_teradata_secret.Odbc.Client.Sending.{
  fresh, IsMade, execute-recovers, connect_with_retry-ok,
}
use openbao_teradata_secret.Odbc.Client.Scripts.{execute_multiple_statements-ok}
use openbao_teradata_secret.Odbc.Statements.Script.{IsStatement, script, Sends}
use openbao_teradata_secret.Odbc.KeepAlive.{
  KeepAlive, Step, start, after, selecting, at_lock, tick, stop, stop_locked,
}
use openbao_teradata_secret.Odbc.KeepAlive.Stuck.{finished, deadlock, stuck_iff}
use openbao_teradata_secret.Odbc.Statements.{execute_multiple_once, parse_sql_statements, to_send}
use openbao_teradata_secret.Outcome.{ok, err, panic}
use openbao_teradata_secret.Registry
use openbao_teradata_secret.Registry.{DbConfig, with_defaults, Registry}
use openbao_teradata_secret.Registry.Jobs.{Jobs, Reach, at_pools, new_jobs, start_health_checks}
use openbao_teradata_secret.Registry.Shutdown.{shutdown_gets_on_iff}
use openbao_teradata_secret.Registry.Pools
use openbao_teradata_secret.Registry.Pools.{
  add_connection, update_connection, list_connections, add_opened, new_connection,
}
use openbao_teradata_secret.Registry.Pools.Added.{lookup-update_connection}
use openbao_teradata_secret.Registry.Runs
use openbao_teradata_secret.Registry.Runs.{update, run_op}
use openbao_teradata_secret.Registry.Runs.Invariant.{Reach-IsValid, IsValid}
use openbao_teradata_secret.Retry.{Error, plain, error_text, Context, attempts, settle}
use openbao_teradata_secret.Retry.Loop.{IsQuiet, once, again}

-- The state is the number of statements executed.
abbrev pub counting : Driver
counting = record {
  Db = ℕ;
  State = ℕ;
  open_db = λ s w. (w, ok 7);
  ping = λ db w. (w, none);
  conn = λ db w. (w, none);
  exec = λ db s w. (w + 1, none);
  Rows = ℕ;
  query = λ db s w. (w, ok 0);
  Row = ℕ;
  query_row = λ db s w. (w, 0);
  row_err = λ r. none;
  close = λ db w. w;
  close_err = λ db w. none;
  stats = λ db w. record { open_connections = 1; in_use = 0; idle = 1 };
  set_limits = λ db a b c w. w;
}

-- The state is the number of timeouts to come.
abbrev timing_out_exec : ℕ → ℕ × Option Error
timing_out_exec zero = (zero, none)
timing_out_exec (suc n) = (n, some (plain (codes "timeout")))

abbrev timing_out : Driver
timing_out = record {
  Db = ℕ;
  State = ℕ;
  open_db = λ s w. (w, ok 7);
  ping = λ db w. (w, none);
  conn = λ db w. (w, none);
  exec = λ db s w. timing_out_exec w;
  Rows = ℕ;
  query = λ db s w. (w, ok 0);
  Row = ℕ;
  query_row = λ db s w. (w, 0);
  row_err = λ r. none;
  close = λ db w. w;
  close_err = λ db w. none;
  stats = λ db w. record { open_connections = 1; in_use = 0; idle = 1 };
  set_limits = λ db a b c w. w;
}

abbrev pub quiet : Context
quiet = record { done = λ i. none; slept = λ i. none }

quiet-IsQuiet : IsQuiet quiet
quiet-IsQuiet = record { not_done = λ i. refl; not_cut = λ i. refl }

abbrev pool_config : DbConfig
pool_config = record {
  name = codes "a";
  connection_string = codes "DSN=a";
  min_connections = pos 3;
  max_open_connections = pos 2;
  max_idle_connections = pos 1;
  connection_timeout = pos 0;
  max_connection_lifetime = pos 0;
  idle_timeout = pos 0;
  health_check_interval = pos 0;
  health_check_timeout = pos 0;
  eviction_policy = [];
  eviction_batch_size = pos 0;
  eviction_grace_period = pos 0;
  min_evictable_idle_time = pos 0;
  max_retries = pos 0;
  initial_retry_interval = pos 0;
  max_retry_interval = pos 0;
}

abbrev pub no_pools : Registry counting
no_pools = record { connections = []; world = 0 }

abbrev pool_name : Bytes
pool_name = codes "a"

abbrev one_pool : Registry counting
one_pool = (update_connection counting no_pools pool_name pool_config 1 2).0

lookup-update_connection_example :
    ((c : Registry.Connection counting) × ((update_connection counting no_pools pool_name
          pool_config 1 2).1
        ≡ ok c)
      × (c.config ≡ with_defaults pool_config)
      × (lookup pool_name
            (update_connection counting no_pools pool_name pool_config 1 2).0.connections
          ≡ (if bytes_eq pool_name pool_name
              then some c
              else lookup pool_name no_pools.connections)))
    ⊎ ((((e : Error) × ((update_connection counting no_pools pool_name pool_config 1 2).1 ≡ err e))
          ⊎ ((update_connection counting no_pools pool_name pool_config 1 2).1 ≡ panic))
        × (lookup pool_name
              (update_connection counting no_pools pool_name pool_config 1 2).0.connections
            ≡ (if bytes_eq pool_name pool_name
                then none
                else lookup pool_name no_pools.connections)))
lookup-update_connection_example =
    lookup-update_connection counting no_pools pool_name pool_config 1 2 pool_name

Reach-IsValid_example :
    IsValid counting
      (record (run_op counting (update pool_name pool_config 1 2) (Pools.new counting 0)) {
        world = 5;
      }).connections
Reach-IsValid_example =
    Reach-IsValid counting _ (Runs.after (update pool_name pool_config 1 2) 5 (Runs.start 0))

abbrev health_started : Jobs
health_started = start_health_checks new_jobs

shutdown_gets_on_iff_example : ((t : Jobs) × Reach health_started t × (t.phase ≡ at_pools)) ↔ (
    (0 < health_started.health.running)
    × ((0 < health_started.cleanup.running) × (0 < health_started.min_conns.running)))
unfolding start_health_checks
shutdown_gets_on_iff_example =
    shutdown_gets_on_iff health_started
      (record { begins = refl; health_open = refl; cleanup_open = refl; min_conns_open = refl })

can_operate_lem_example :
    (can_operate counting none pool_name ≡ some unavailable)
    × ((r : Registry counting)
        → (can_operate counting (some r) pool_name ≡ none) ↔ (
            (all (is_pool_healthy counting (some r)) (list_connections counting r) ≡ true)
            ⊎ ((pool_name ≢ []) × (is_pool_healthy counting (some r) pool_name ≡ true))))
can_operate_lem_example = can_operate_lem counting pool_name

stuck_iff_example :
    ((t : KeepAlive) → ¬ (Step deadlock t)) ↔ ((deadlock ≡ finished) ⊎ (deadlock ≡ deadlock))
stuck_iff_example =
    stuck_iff deadlock
      (after (after (after start (stop selecting)) (tick at_lock)) (stop_locked at_lock refl))

abbrev made : Connection timing_out
made = fresh timing_out (codes "DSN=a") 7

execute-recovers_example :
    execute timing_out quiet made (codes "DROP USER u") 2
    ≡ record { state = 0; calls = 2 + 1; outcome = ok tt }
unfolding open_database query_budget has_indicator contains error_text
execute-recovers_example =
    execute-recovers timing_out quiet made 7 (codes "DROP USER u") (plain (codes "timeout")) 2 2 0 0
      refl quiet-IsQuiet (again (plain (codes "timeout")) refl refl (once refl refl)) refl
      (omega arith)

connect_with_retry-ok_example :
    IsMade counting
      (codes "DSN=a")
      (connect_with_retry counting (codes "DSN=a") none 0).0
      (fresh counting (codes "DSN=a") 7)
unfolding connect_with_retry attempts settle
connect_with_retry-ok_example =
    connect_with_retry-ok counting (codes "DSN=a") none 0 (fresh counting (codes "DSN=a") 7) refl

abbrev drop_users : List Bytes
drop_users = codes "DROP USER u" ∷ codes "DROP USER v" ∷ []

drop_users-IsStatement : All IsStatement drop_users
unfolding contains_byte ends_with
drop_users-IsStatement = (
  record { starts_dense = refl; ends_dense = refl; one_line = refl; unfinished = refl },
  (record { starts_dense = refl; ends_dense = refl; one_line = refl; unfinished = refl }, tt),
)

execute_multiple_statements-ok_example :
    (s : ℕ) × Sends counting 7 drop_users s
      (execute_multiple_statements counting quiet
        (fresh counting (codes "DSN=a") 7)
        (script drop_users)
        0).state
unfolding execute_multiple_statements send_all attempts settle query_budget execute_multiple_once
    trim_space parse_sql_statements ends_with to_send
execute_multiple_statements-ok_example =
    execute_multiple_statements-ok counting quiet (fresh counting (codes "DSN=a") 7) 7 drop_users 0
      refl (omega arith) drop_users-IsStatement refl
