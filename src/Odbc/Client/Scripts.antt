-- ===== src/Odbc/Client/Scripts.antt =====
-- odbc/odbc.go: what `ExecuteMultipleStatements` has executed when it returns no error.
use openbao_teradata_secret.Common.{
  ◌<◌, ◌≡◌, refl, inl, inr, [], ◌∷◌, List, some, All, arith, Bool-cases, sym,
}
use openbao_teradata_secret.Common.Bytes.{Bytes, trim_space}
use openbao_teradata_secret.Database.{Driver}
use openbao_teradata_secret.Odbc.Client.{
  Connection, query_budget, send_all, execute_multiple_statements,
}
use openbao_teradata_secret.Odbc.Client.Sending.{send_all-ok}
use openbao_teradata_secret.Odbc.Statements.{execute_multiple_once}
use openbao_teradata_secret.Odbc.Statements.Script.{
  IsStatement, script, script_full, Sends, sent_none, execute_multiple_once-Sends,
}
use openbao_teradata_secret.Outcome.{ok}
use openbao_teradata_secret.Retry.{Context}

module _ (d : Driver) where
  blank_kept :
      (ctx : Context) (c : Connection d) (w : d.State)
      → (execute_multiple_statements d ctx c [] w).outcome ≡ ok tt
      → (execute_multiple_statements d ctx c [] w).state ≡ w
  unfolding execute_multiple_statements send_all trim_space
  blank_kept ctx c w = elim (Bool-cases c.connected) [
    | inl on ↦ rw on (λ h. refl)
    | inr off ↦ rw off (λ h. absurd (cc))
  ]

  -- If ExecuteMultipleStatements returns no error, on a connection with a database and a positive
  -- budget, for a text of statements, each on a line of its own with a semicolon behind all but
  -- the last, where no statement ends with one, then the database executed every one of the
  -- statements, in their order and each without an error, which left the state that the call
  -- leaves.
  pub execute_multiple_statements-ok :
      (ctx : Context) (c : Connection d) (db : d.Db) (stmts : List Bytes) (w : d.State)
      → c.database ≡ some db
      → 0 < query_budget d c
      → All IsStatement stmts
      → (execute_multiple_statements d ctx c (script stmts) w).outcome ≡ ok tt
      → (s : d.State) × Sends d db stmts s
          (execute_multiple_statements d ctx c (script stmts) w).state
  unfolding execute_multiple_statements
  execute_multiple_statements-ok ctx c db [] w there some_left a h =
      (w, sent_none (sym (blank_kept ctx c w h)))
  execute_multiple_statements-ok ctx c db (t ∷ ts) w there some_left a h =
      elim (send_all-ok d execute_multiple_once ctx c db (script (t ∷ ts)) w there h) [
        | inl blank ↦ absurd (cc (script_full t ts a.0))
        | inr (inl never) ↦ absurd (omega arith)
        | inr (inr (s, last)) ↦ (s, execute_multiple_once-Sends d db (t ∷ ts) s _ a last)
      ]
