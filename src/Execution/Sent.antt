-- ===== src/Execution/Sent.antt =====
-- plugin/path_creds.go: what it means that `executeSQL` returns no error.
use openbao_teradata_secret.Common.{
  ◌≡◌, refl, sym, ap, ◌∙◌, ◌⊎◌, inl, inr, true, List, ◌∷◌, All, none, some, Bool-cases, arith,
}
use openbao_teradata_secret.Common.Bytes.{Bytes, codes, is_empty, trim_space}
use openbao_teradata_secret.Common.Int.{ltbℤ, pos}
use openbao_teradata_secret.Database.{Driver}
use openbao_teradata_secret.Execution.{
  build_connection_string, build_retry_config, execute_once, execute_sql, limit_rows, closing,
}
use openbao_teradata_secret.Model.{Config}
use openbao_teradata_secret.Odbc.Client.{
  Connection, connect, open_database, close, query_budget, set_max_result_rows,
  execute_multiple_statements,
}
use openbao_teradata_secret.Odbc.Client.Sending.{
  fresh, connect_with_retry-ok, send_once, send_all-ok,
}
use openbao_teradata_secret.Odbc.Statements.Script.{
  IsStatement, script, script_full, Sends, execute_multiple_once-Sends,
}
use openbao_teradata_secret.Odbc.Statements.{execute_multiple_once}
use openbao_teradata_secret.Outcome.{Outcome, ok, err, panic, Outcome-cases}
use openbao_teradata_secret.Retry.{Error, Context, is_retryable_error, do_retry, budget, wrap}
use openbao_teradata_secret.Retry.Loop.{attempts-Genuine}

module _ (d : Driver) where
  -- The text is blank, or all its statements were sent to the database from the first to the last with
  -- no error, and it was then closed, which left `w`.
  abbrev pub AllSent : d.Db → Bytes → d.State → Type 0
  AllSent db sql w =
      (is_empty (trim_space sql) ≡ true)
      ⊎ ((t : d.State) × (t' : d.State) × (send_once d execute_multiple_once db sql t ≡ (t', ok tt))
          × (w ≡ d.close db t'))

  -- That, and the database was opened with the connection string and pinged before, with no error.
  abbrev pub IsSent : Bytes → Bytes → d.State → Type 0
  IsSent conn_string sql w =
      (db : d.Db) × (s : d.State) × (s' : d.State) × (s'' : d.State) × (d.open_db conn_string s
        ≡ (s', ok db))
      × (d.ping db s' ≡ (s'', none))
      × AllSent db sql w

  -- The database was opened with the connection string and pinged; then it executed the statements, one
  -- after the other, each without an error; then it was closed, which left `w`.
  abbrev pub AreExecuted : Bytes → List Bytes → d.State → Type 0
  AreExecuted conn_string stmts w =
      (db : d.Db) × (s : d.State) × (s' : d.State) × (s'' : d.State) × (d.open_db conn_string s
        ≡ (s', ok db))
      × (d.ping db s' ≡ (s'', none))
      × ((t : d.State) × (t' : d.State) × Sends d db stmts t t' × (w ≡ d.close db t'))

  IsSent-AreExecuted :
      (conn_string t : Bytes) (ts : List Bytes) (w : d.State)
      → All IsStatement (t ∷ ts)
      → IsSent conn_string (script (t ∷ ts)) w
      → AreExecuted conn_string (t ∷ ts) w
  IsSent-AreExecuted conn_string t ts w a (db, s, s', s'', opened, pinged, inl blank) =
      absurd (cc (script_full t ts a.0))
  IsSent-AreExecuted conn_string t ts w a
        (db, s, s', s'', opened, pinged, inr (u, u', last, shut)) =
      (
        db,
        s,
        s',
        s'',
        opened,
        pinged,
        (u, u', execute_multiple_once-Sends d db (t ∷ ts) u u' a last, shut),
      )

  limited-lem :
      (cfg : Config) (conn_string : Bytes) (db : d.Db)
      → (open_database d (limit_rows d cfg (fresh d conn_string db)) ≡ some db)
        × ((limit_rows d cfg (fresh d conn_string db)).database ≡ some db)
        × (query_budget d (limit_rows d cfg (fresh d conn_string db)) ≡ 3)
  unfolding limit_rows open_database query_budget set_max_result_rows
  limited-lem cfg conn_string db = elim (Bool-cases (ltbℤ (pos 0) cfg.max_result_rows)) [
    | inl some_limit ↦ rw (limit_rows, some_limit) (refl, refl, refl)
    | inr no_limit ↦ rw (limit_rows, no_limit) (refl, refl, refl)
  ]

  close_open :
      (c : Connection d) (db : d.Db) (s : d.State)
      → open_database d c ≡ some db
      → (close d c s).0.0 ≡ d.close db s
  unfolding close
  close_open c db s is_open = rw (close, is_open)

  closing-AllSent :
      (ctx : Context) (c : Connection d) (db : d.Db) (sql : Bytes) (s w : d.State)
      → open_database d c ≡ some db
      → c.database ≡ some db
      → query_budget d c ≡ 3
      → closing d c (execute_multiple_statements d ctx c sql s) ≡ (w, ok tt)
      → AllSent db sql w
  unfolding execute_multiple_statements
  closing-AllSent ctx c db sql s w is_open there three h =
      let run = execute_multiple_statements d ctx c sql s in
      let shut : d.close db run.state ≡ w =
        sym (close_open c db run.state is_open)
        ∙ ap (λ (x : d.State × Outcome Error (Unit {0})). x.0) h in
      elim (send_all-ok d execute_multiple_once ctx c db sql s there
        (ap (λ (x : d.State × Outcome Error (Unit {0})). x.1) h)) [
          | inl blank ↦ inl blank
          | inr (inl never) ↦ absurd (omega arith)
          | inr (inr (t, last)) ↦ inr (t, run.state, last, sym shut)
        ]

  limited-AllSent :
      (cfg : Config) (conn_string : Bytes) (c : Connection d) (db : d.Db) (sql : Bytes)
      (ctx : Context) (s w : d.State)
      → c ≡ fresh d conn_string db
      → closing d
          (limit_rows d cfg c)
          (execute_multiple_statements d ctx (limit_rows d cfg c) sql s)
        ≡ (w, ok tt)
      → AllSent db sql w
  limited-AllSent cfg conn_string c db sql ctx s w same h =
      let (is_open, there, three) = limited-lem cfg conn_string db in
      closing-AllSent ctx (limit_rows d cfg (fresh d conn_string db)) db sql s w is_open there three
        (rw same at h)

  execute_once-ok :
      (inner : d.State → Context) (cfg : Config) (conn_string sql : Bytes) (s w : d.State)
      → execute_once d inner cfg conn_string sql s ≡ (w, ok tt)
      → IsSent conn_string sql w
  unfolding execute_once connect
  execute_once-ok inner cfg conn_string sql s w = elim (Outcome-cases (connect d conn_string s).1) [
    | inr (inl (e, failed)) ↦ rw (execute_once, failed) (λ h. absurd (cc))
    | inr (inr failed) ↦ rw (execute_once, failed) (λ h. absurd (cc))
    | inl (c, made) ↦
        rw (execute_once, made)
          (λ h.
            let (db, s1, s2, same, opened, pinged) =
              (connect_with_retry-ok d conn_string none s c made).2 in
            let s' = (connect d conn_string s).0 in
            (
              db,
              s1,
              s2,
              s',
              opened,
              pinged,
              limited-AllSent cfg conn_string c db sql (inner s') s' w same h,
            ))
  ]

  wrap-ok : (text : Bytes) (o : Outcome Error (Unit {0})) → wrap text o ≡ ok tt → o ≡ ok tt
  wrap-ok text (ok x) h = refl
  wrap-ok text (err e) h = absurd (cc)
  wrap-ok text panic h = absurd (cc)

  -- What holds of any text.
  execute_sql-IsSent :
      (range_order : List (Bytes × Bytes) → List (Bytes × Bytes)) (inner : d.State → Context)
      (ctx : Context) (cfg : Config) (sql : Bytes) (w : d.State)
      → (execute_sql d range_order inner ctx cfg sql w).1 ≡ ok tt
      → (conn_string : Bytes) × (build_connection_string range_order cfg ≡ ok conn_string)
        × IsSent conn_string sql (execute_sql d range_order inner ctx cfg sql w).0
  unfolding execute_sql do_retry
  execute_sql-IsSent range_order inner ctx cfg sql w =
      elim (Outcome-cases (build_connection_string range_order cfg)) [
        | inr (inl (e, failed)) ↦ rw (execute_sql, failed) (λ h. absurd (cc))
        | inr (inr failed) ↦ rw (execute_sql, failed) (λ h. absurd (cc))
        | inl (conn_string, built) ↦
            rw (execute_sql, built)
              (λ h.
                let n = budget (build_retry_config cfg) in
                let (s, last) =
                  attempts-Genuine is_retryable_error (execute_once d inner cfg conn_string sql) ctx
                    n panic n 1 0 w (λ a z f. absurd (cc)) tt
                    (wrap-ok (codes "executeSQL failed after retries: ") _ h) in
                (conn_string, refl, execute_once-ok inner cfg conn_string sql s _ last))
      ]

  -- If executeSQL returns no error for a text of one or more statements, each on a line of its
  -- own with a semicolon behind all but the last, where no statement ends with one, then the
  -- database was opened with the connection string built from the configuration and pinged, it
  -- executed every one of the statements, in their order and each without an error, and it was
  -- then closed.
  pub execute_sql-ok :
      (range_order : List (Bytes × Bytes) → List (Bytes × Bytes)) (inner : d.State → Context)
      (ctx : Context) (cfg : Config) (stmt : Bytes) (stmts : List Bytes) (w : d.State)
      → All IsStatement (stmt ∷ stmts)
      → (execute_sql d range_order inner ctx cfg (script (stmt ∷ stmts)) w).1 ≡ ok tt
      → (conn_string : Bytes) × (build_connection_string range_order cfg ≡ ok conn_string)
        × AreExecuted conn_string
            (stmt ∷ stmts)
            (execute_sql d range_order inner ctx cfg (script (stmt ∷ stmts)) w).0
  execute_sql-ok range_order inner ctx cfg stmt stmts w a h =
      let (conn_string, built, all_sent) =
        execute_sql-IsSent range_order inner ctx cfg (script (stmt ∷ stmts)) w h in
      (conn_string, built, IsSent-AreExecuted conn_string stmt stmts _ a all_sent)
