-- ===== src/Database.antt =====
-- What the plugin uses of database/sql with the ODBC driver, which are not part of the repository: a
-- parameter of the model. A call that talks to the database takes its state and returns the new one;
-- a nil error is `none`.
use openbao_teradata_secret.Common.{ℕ, Option, none, some}
use openbao_teradata_secret.Common.Bytes.{Bytes}
use openbao_teradata_secret.Common.Int.{ℤ}
use openbao_teradata_secret.Outcome.{Outcome, ok, err}
use openbao_teradata_secret.Retry.{Error}

-- `sql.DBStats`, as far as the plugin reads it to decide.
pub record DbStats : Type 0 where
  pub open_connections : ℕ
  pub in_use : ℕ
  pub idle : ℕ

-- `sql.Open("odbc", …)`, `PingContext`, `Conn` with its `Close`, `ExecContext`, `QueryContext`,
-- `QueryRowContext` with the row's `Err`, `Close` without and with its error, `Stats`, and the setters
-- of the pool's limits.
pub record Driver : Type 1 where
  pub Db : Type 0
  pub State : Type 0
  pub open_db : Bytes → State → State × Outcome Error Db
  pub ping : Db → State → State × Option Error
  pub conn : Db → State → State × Option Error
  pub exec : Db → Bytes → State → State × Option Error
  pub Rows : Type 0
  pub query : Db → Bytes → State → State × Outcome Error Rows
  pub Row : Type 0
  pub query_row : Db → Bytes → State → State × Row
  pub row_err : Row → Option Error
  pub close : Db → State → State
  pub close_err : Db → State → Option Error
  pub stats : Db → State → DbStats
  pub set_limits : Db → ℤ → ℤ → ℤ → State → State

-- A call as the operation of a retry loop.
abbrev pub as_operation {ℓ} : {S : Type ℓ} → S × Option Error → S × Outcome Error (Unit {0})
as_operation (s, none) = (s, ok tt)
as_operation (s, some e) = (s, err e)
