-- ===== src/Odbc/Client.antt =====
-- odbc/odbc.go: `Connection`, how it is opened, and how it sends statements, with the rounds of the
-- loops of retry/retry.go, which these repeat. How long a loop sleeps, the tracing calls and the
-- arguments of a statement, which are passed on as they are, are not modelled.
pub mod Lifecycle
pub mod Sending
pub mod Scripts
use openbao_teradata_secret.Common.{
  ℕ, Bool, true, false, not, ◌&&◌, ◌||◌, List, [], ◌∷◌, ◌++◌, Option, none, some, any, take, drop,
  if◌then◌else◌,
}
use openbao_teradata_secret.Common.Bytes.{
  Bytes, codes, contains, is_empty, trim_space, has_prefix, to_upper,
}
use openbao_teradata_secret.Common.Decimal.{decimal}
use openbao_teradata_secret.Common.Int.{ℤ, pos, lebℤ, ltbℤ, pos_part}
use openbao_teradata_secret.Database.{Driver, as_operation}
use openbao_teradata_secret.Odbc.Statements.{execute_multiple_once, execute_grants_once}
use openbao_teradata_secret.Outcome.{Outcome, ok, err, panic}
use openbao_teradata_secret.Retry.{
  Error, not_connected, plain, error_text, Context, Run, attempts, wrap,
}

-- The texts that `isRetryableError` looks for.
abbrev pub retryable_indicators : List Bytes
retryable_indicators =
    codes "ECONNREFUSED"
    ∷ codes "ECONNRESET"
    ∷ codes "ETIMEDOUT"
    ∷ codes "ENETUNREACH"
    ∷ codes "EHOSTUNREACH"
    ∷ codes "connection refused"
    ∷ codes "connection reset"
    ∷ codes "timeout"
    ∷ codes "temporary failure"
    ∷ codes "server declined"
    ∷ codes "unable to connect"
    ∷ codes "deadlock"
    ∷ codes "lock contention"
    ∷ codes "resource unavailable"
    ∷ codes "table is busy"
    ∷ []

-- `isRetryableError`, on an error that is not nil.
unfoldable pub has_indicator : Error → Bool
has_indicator e = any (contains (error_text e)) retryable_indicators

-- `ConnectConfig` and `QueryRetryConfig`, as far as they say how often the loops go round.
abbrev pub default_max_retries : ℤ
default_max_retries = pos 3

-- `applyResultLimit`. The test for `SELECT` is on the trimmed text and the cut is made in the text as
-- it came, six bytes in.
unfoldable pub apply_result_limit : Bytes → ℕ → Bytes
apply_result_limit query limit =
    let upper = to_upper (trim_space query) in
    if not (has_prefix upper (codes "SELECT"))
    then query
    else if contains upper (codes " TOP ") || contains upper (codes " SAMPLE ")
    then query
    else take 6 query ++ (codes " TOP " ++ decimal limit ++ codes " ") ++ drop 6 query

module _ (d : Driver) where
  -- `Connection`, without the fields of the keep-alive; `database` is `none` for nil, and the retry
  -- configuration is the maximum of retries in it.
  pub record Connection : Type 0 where
    pub conn_string : Bytes
    pub connected : Bool
    pub database : Option d.Db
    pub last_validated : Option ℕ
    pub max_result_rows : ℤ
    pub max_retries : Option ℤ

  -- The guard `!c.connected || c.db == nil`.
  unfoldable pub open_database : Connection → Option d.Db
  open_database c = if c.connected then c.database else none

  -- `IsHealthy`
  unfoldable pub is_healthy : Connection → Bool
  is_healthy c = elim c.database [ none ↦ false | some db ↦ c.connected ]

  -- `Close`, after `StopKeepAlive`.
  unfoldable pub close : Connection → d.State → (d.State × Connection) × Option Error
  unfolding open_database
  close c w = elim (open_database c) [
    | none ↦ ((w, c), some not_connected)
    | some db ↦ ((d.close db w, record c { connected = false; database = none }), d.close_err db w)
  ]

  -- `Ping`
  unfoldable pub ping : Connection → d.State → d.State × Option Error
  unfolding open_database
  ping c w = elim (open_database c) [ none ↦ (w, some not_connected) | some db ↦ d.ping db w ]

  -- `Validate`; `now` is read for `lastValidated`.
  unfoldable pub validate : Connection → ℕ → d.State → (d.State × Connection) × Option Error
  unfolding open_database
  validate c now w = elim (open_database c) [
    | none ↦ ((w, c), some not_connected)
    | some db ↦
        let (w', e) = d.ping db w in
        elim e [
          | some x ↦ (
            (w', record c { connected = false }),
            some (plain (codes "connection validation failed: " ++ error_text x)),
          )
          | none ↦ ((w', record c { last_validated = some now }), none)
        ]
  ]

  -- `SetMaxResultRows`
  unfoldable pub set_max_result_rows : Connection → ℤ → Connection
  set_max_result_rows c limit = record c { max_result_rows = limit }

  -- A round of `ConnectWithRetry`.
  unfoldable pub connect_once : Bytes → d.State → d.State × Outcome Error Connection
  connect_once conn_string w =
      let (w1, opened) = d.open_db conn_string w in
      elim opened [
        | panic ↦ (w1, panic)
        | err e ↦ (w1, err (plain (codes "failed to open ODBC connection: " ++ error_text e)))
        | ok db ↦
            let (w2, e) = d.ping db w1 in
            elim e [
              | some x ↦ (
                d.close db w2,
                err (plain (codes "failed to ping ODBC connection: " ++ error_text x)),
              )
              | none ↦ (
                w2,
                ok (record {
                  conn_string = conn_string;
                  connected = true;
                  database = some db;
                  last_validated = none;
                  max_result_rows = pos 0;
                  max_retries = none;
                }),
              )
            ]
      ]

  -- `cfg.MaxRetries` in `ConnectWithRetry`; no configuration is the default one.
  unfoldable pub connect_budget : Option ℤ → ℕ
  connect_budget none = pos_part default_max_retries
  connect_budget (some n) = if lebℤ n (pos 0) then pos_part default_max_retries else pos_part n

  -- No context ends the loop of `ConnectWithRetry`, and its sleep is not cut short.
  abbrev pub background : Context
  background = record { done = λ i. none; slept = λ i. none }

  -- `ConnectWithRetry`; `Connect` gives it no configuration.
  unfoldable pub connect_with_retry :
      Bytes → Option ℤ → d.State → d.State × Outcome Error Connection
  unfolding connect_once connect_budget
  connect_with_retry conn_string cfg w =
      let n = connect_budget cfg in
      let run = attempts has_indicator (connect_once conn_string) background n panic n 1 0 w in
      (
        run.state,
        wrap (codes "connect with retry failed after " ++ decimal n ++ codes " attempts: ")
            run.outcome,
      )

  unfoldable pub connect : Bytes → d.State → d.State × Outcome Error Connection
  unfolding connect_with_retry
  connect conn_string = connect_with_retry conn_string none

  -- `cfg.MaxRetries` in the methods that send statements.
  unfoldable pub query_budget : Connection → ℕ
  query_budget c = elim c.max_retries [ none ↦ pos_part default_max_retries | some n ↦ pos_part n ]

  -- `Execute`. With no attempt allowed, `lastErr.Error()` panics.
  unfoldable pub execute : Context → Connection → Bytes → d.State → Run d.State (Unit {0})
  unfolding open_database query_budget
  execute ctx c query w = elim (open_database c) [
    | none ↦ record { state = w; calls = 0; outcome = err not_connected }
    | some db ↦
        attempts has_indicator (λ s. as_operation (d.exec db query s)) ctx (query_budget c) panic
          (query_budget c) 1 0 w
  ]

  -- The text that `Query` and `QueryRow` send.
  unfoldable pub limited : Connection → Bytes → Bytes
  limited c query =
      if ltbℤ (pos 0) c.max_result_rows
      then apply_result_limit query (pos_part c.max_result_rows)
      else query

  -- `Query`
  unfoldable pub query : Context → Connection → Bytes → d.State → Run d.State d.Rows
  unfolding open_database query_budget limited
  query ctx c text w = elim (open_database c) [
    | none ↦ record { state = w; calls = 0; outcome = err not_connected }
    | some db ↦
        attempts has_indicator (d.query db (limited c text)) ctx (query_budget c) panic
          (query_budget c) 1 0 w
  ]

  -- `ExecuteMultipleStatements` and `ExecuteGrantStatements`: the guard does not ask whether the
  -- database is nil, which the call of the driver then panics on. With no attempt allowed, `lastErr` is
  -- nil. An attempt sends the statements that `once` makes of the text.
  unfoldable pub send_all :
      ((Bytes → d.State → d.State × Outcome Error (Unit {0}))
        → Bytes
        → d.State
        → d.State × Outcome Error (Unit {0}))
      → Context
      → Connection
      → Bytes
      → d.State
      → Run d.State (Unit {0})
  unfolding query_budget
  send_all once ctx c text w =
      if not c.connected
      then record { state = w; calls = 0; outcome = err (plain (codes "not connected")) }
      else if is_empty (trim_space text)
      then record { state = w; calls = 0; outcome = ok tt }
      else attempts has_indicator
          (once
            (λ sql s. elim c.database [
              | none ↦ (s, panic)
              | some db ↦ as_operation (d.exec db sql s)
            ])
            text)
          ctx (query_budget c) (ok tt) (query_budget c) 1 0 w

  unfoldable pub execute_multiple_statements :
      Context → Connection → Bytes → d.State → Run d.State (Unit {0})
  unfolding send_all
  execute_multiple_statements = send_all execute_multiple_once

  unfoldable pub execute_grant_statements :
      Context → Connection → Bytes → d.State → Run d.State (Unit {0})
  unfolding send_all
  execute_grant_statements = send_all execute_grants_once
