-- ===== src/Execution.antt =====
-- plugin/path_creds.go, lines 672-803: how the handlers send SQL: the connection string of a
-- configuration, a connection for each attempt, and the statements on it. The contexts of the calls
-- that an attempt makes are read off the state of the database.
pub mod Sent
use openbao_teradata_secret.Common.{
  ℕ, suc, Bool, true, false, List, [], ◌∷◌, ◌++◌, Option, none, some, if◌then◌else◌,
}
use openbao_teradata_secret.Common.Bytes.{Bytes, codes, is_empty, trim_space}
use openbao_teradata_secret.Common.Decimal.{decimal}
use openbao_teradata_secret.Common.Int.{ℤ, pos, negsuc, lebℤ, ltbℤ}
use openbao_teradata_secret.Database.{Driver}
use openbao_teradata_secret.Model.{Config}
use openbao_teradata_secret.Odbc.Build.{
  append_session_timeout, append_time_zone, append_character_set, append_query_timeout,
  build_connection_string_from_template,
}
use openbao_teradata_secret.Odbc.Client.{
  Connection, connect, close, set_max_result_rows, execute_multiple_statements,
  execute_grant_statements,
}
use openbao_teradata_secret.Outcome.{Outcome, ok, err, panic}
use openbao_teradata_secret.Retry
use openbao_teradata_secret.Retry.{Error, plain, Context, Run, do_retry, wrap, default_max_attempts}

-- `%d`
unfoldable pub decimal_ℤ : ℤ → Bytes
decimal_ℤ (pos n) = decimal n
decimal_ℤ (negsuc n) = b'-' ∷ decimal (suc n)

-- The settings that `buildConnectionString` appends.
unfoldable pub append_settings : Config → Bytes → Bytes
append_settings cfg s =
    append_query_timeout
      (append_character_set
        (append_time_zone (append_session_timeout s cfg.session_timeout) cfg.time_zone)
        cfg.character_set)
      cfg.query_timeout

-- `params` of `buildConnectionString`.
abbrev pub template_params : Config → List (Bytes × Bytes)
template_params cfg =
    (codes "server", cfg.server)
    ∷ (codes "port", decimal_ℤ cfg.port)
    ∷ (codes "database", cfg.database)
    ∷ (codes "username", cfg.username)
    ∷ (codes "password", cfg.password)
    ∷ []

-- `buildConnectionString`; `range_order` puts the parameters in the order in which `range` visits them.
unfoldable pub build_connection_string :
    (List (Bytes × Bytes) → List (Bytes × Bytes)) → Config → Outcome Error Bytes
unfolding append_settings
build_connection_string range_order cfg =
    if is_empty cfg.connection_string
    then (if is_empty cfg.connection_string_template
        then err (plain (codes "no connection string or template configured"))
        else ok (
            append_settings cfg (
              build_connection_string_from_template cfg.connection_string_template
                (range_order (template_params cfg)))))
    else ok (append_settings cfg cfg.connection_string)

-- `buildRetryConfig`, as far as it says how often `Do` tries.
unfoldable pub build_retry_config : Config → Retry.Config
build_retry_config cfg = record {
  max_attempts = if lebℤ cfg.max_retries (pos 0) then pos default_max_attempts else cfg.max_retries;
}

module _ (d : Driver) where
  -- Closes the connection after a call on it; what `Close` answers is not read.
  abbrev pub closing : Connection d → Run d.State (Unit {0}) → d.State × Outcome Error (Unit {0})
  closing c run = ((close d c run.state).0.0, run.outcome)

  unfoldable pub limit_rows : Config → Connection d → Connection d
  limit_rows cfg conn =
      if ltbℤ (pos 0) cfg.max_result_rows
      then set_max_result_rows d conn cfg.max_result_rows
      else conn

module _ (d : Driver) (inner : d.State → Context) where
  -- The operation of `executeSQL`.
  unfoldable pub execute_once :
      Config → Bytes → Bytes → d.State → d.State × Outcome Error (Unit {0})
  unfolding limit_rows
  execute_once cfg conn_string sql w =
      let (w1, made) = connect d conn_string w in
      elim made [
        | err e ↦ (w1, err e)
        | panic ↦ (w1, panic)
        | ok conn ↦
            let c = limit_rows d cfg conn in
            closing d c (execute_multiple_statements d (inner w1) c sql w1)
      ]

  -- `executeGrantStatements`, which gives `Do` no configuration.
  unfoldable pub execute_grants :
      Context → Bytes → Bytes → d.State → d.State × Outcome Error (Unit {0})
  execute_grants ctx conn_string grants w =
      if is_empty (trim_space grants)
      then (w, ok tt)
      else (let run =
            do_retry ctx none
              (λ s.
                let (s1, made) = connect d conn_string s in
                elim made [
                  | err e ↦ (s1, err e)
                  | panic ↦ (s1, panic)
                  | ok c ↦ closing d c (execute_grant_statements d (inner s1) c grants s1)
                ])
              w in
          (run.state, wrap (codes "executeGrantStatements failed after retries: ") run.outcome))

module _ (d : Driver) (range_order : List (Bytes × Bytes) → List (Bytes × Bytes))
    (inner : d.State → Context) where
  -- `executeSQL`, whose first result is always nil.
  unfoldable pub execute_sql :
      Context → Config → Bytes → d.State → d.State × Outcome Error (Unit {0})
  unfolding execute_once
  execute_sql ctx cfg sql w = elim (build_connection_string range_order cfg) [
    | err e ↦ (w, wrap (codes "failed to build connection string: ") (err e))
    | panic ↦ (w, panic)
    | ok conn_string ↦
        let run =
          do_retry ctx (some (build_retry_config cfg)) (execute_once d inner cfg conn_string sql)
            w in
        (run.state, wrap (codes "executeSQL failed after retries: ") run.outcome)
  ]
