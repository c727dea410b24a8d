-- ===== src/Odbc/Client/Sending.antt =====
-- odbc/odbc.go: what it means that a statement was executed and that a connection was made.
use openbao_teradata_secret.Common.{
  ℕ, ◌+◌, ◌<◌, ◌==◌, true, false, ◌≡◌, refl, ap, ◌⊎◌, inl, inr, Option, none, some, ◌++◌,
  Bool-cases, Option-cases, arith,
}
use openbao_teradata_secret.Common.Bytes.{Bytes, codes, is_empty, trim_space}
use openbao_teradata_secret.Common.Decimal.{decimal}
use openbao_teradata_secret.Common.Int.{ℤ, pos}
use openbao_teradata_secret.Database.{Driver, as_operation}
use openbao_teradata_secret.Odbc.Client.{
  Connection, open_database, execute, query_budget, has_indicator, is_healthy, connect_once,
  connect_budget, connect_with_retry, send_all, background,
}
use openbao_teradata_secret.Outcome.{Outcome, ok, err, panic, Outcome-cases}
use openbao_teradata_secret.Retry.{Error, not_connected, Context, wrap}
use openbao_teradata_secret.Retry.Loop.{
  IsQuiet, FailsFor, attempts-Genuine, attempts-Excused, attempts-recovers,
}

as_operation-ok :
    {S : Type 0} (r : S × Option Error) (s : S) → as_operation r ≡ (s, ok tt) → r ≡ (s, none)
as_operation-ok (s', none) s h = ap (λ (x : _ × Outcome Error (Unit {0})). (x.0, none)) h
as_operation-ok (s', some e) s h =
    absurd (ground (arith, ap (λ (x : _ × Outcome Error (Unit {0})). x.1) h))

module _ (d : Driver) where
  -- If `Execute` returns no error, the connection was open, and the last call of the driver was with
  -- the statement and returned no error; what it left is what `Execute` leaves.
  pub execute-ok :
      (ctx : Context) (c : Connection d) (text : Bytes) (w : d.State)
      → (execute d ctx c text w).outcome ≡ ok tt
      → (db : d.Db) × (s : d.State) × (open_database d c ≡ some db)
        × (d.exec db text s ≡ ((execute d ctx c text w).state, none))
  unfolding execute
  execute-ok ctx c text w = elim (Option-cases (open_database d c)) [
    | inl gone ↦ rw (execute, gone) (λ h. absurd (cc))
    | inr (db, there) ↦
        rw (execute, there)
          (λ h.
            let n = query_budget d c in
            let (s', last) =
              attempts-Genuine has_indicator (λ s. as_operation (d.exec db text s)) ctx n panic n 1
                0 w (λ a z f. absurd (cc)) tt h in
            (db, s', refl, as_operation-ok (d.exec db text s') _ last))
  ]

  -- An error of `Execute` says that the connection is not open, or it is one that is not retried, or
  -- the driver was called as often as the budget allows, or the context ended the loop with it.
  pub execute-err :
      (ctx : Context) (c : Connection d) (text : Bytes) (w : d.State) (e : Error)
      → (execute d ctx c text w).outcome ≡ err e
      → ((open_database d c ≡ none) × (e ≡ not_connected))
        ⊎ (has_indicator e ≡ false)
        ⊎ ((execute d ctx c text w).calls ≡ query_budget d c)
        ⊎ ((i : ℕ) × ((ctx.done i ≡ some e) ⊎ (ctx.slept i ≡ some e)))
  unfolding execute
  execute-err ctx c text w e = elim (Option-cases (open_database d c)) [
    | inl gone ↦ rw (execute, gone) (λ h. inl (refl, ground arith))
    | inr (db, there) ↦
        rw (execute, there)
          (λ h. inr (
            attempts-Excused has_indicator (λ s. as_operation (d.exec db text s)) ctx
              (query_budget d c) panic (query_budget d c) 1 0 w (omega arith) e h))
  ]

  -- The connection that is made of a database.
  abbrev pub fresh : Bytes → d.Db → Connection d
  fresh conn_string db = record {
    conn_string = conn_string;
    connected = true;
    database = some db;
    last_validated = none;
    max_result_rows = pos 0;
    max_retries = none;
  }

  fresh_made :
      (conn_string : Bytes) (db : d.Db) (s w : d.State) (c : Connection d)
      → Path (d.State × Outcome Error (Connection d)) (s, ok (fresh conn_string db)) (w, ok c)
      → fresh conn_string db ≡ c
  fresh_made conn_string db s w c h = cc

  -- The connection is healthy, is on the connection string, and its database was opened and then
  -- pinged without an error, which left `w`.
  abbrev pub IsMade : Bytes → d.State → Connection d → Type 0
  IsMade conn_string w c =
      (is_healthy d c ≡ true)
      × (c.conn_string ≡ conn_string)
      × ((db : d.Db) × (s : d.State) × (s' : d.State) × (c ≡ fresh conn_string db)
          × (d.open_db conn_string s ≡ (s', ok db))
          × (d.ping db s' ≡ (w, none)))

  connect_once-ok :
      (conn_string : Bytes) (s w : d.State) (c : Connection d)
      → connect_once d conn_string s ≡ (w, ok c)
      → IsMade conn_string w c
  unfolding connect_once is_healthy
  connect_once-ok conn_string s w c = elim (Outcome-cases (d.open_db conn_string s).1) [
    | inr (inl (e, failed)) ↦ rw (connect_once, failed) (λ h. absurd (cc))
    | inr (inr failed) ↦ rw (connect_once, failed) (λ h. absurd (cc))
    | inl (db, done) ↦ elim (Option-cases (d.ping db (d.open_db conn_string s).0).1) [
      | inr (e, down) ↦ rw (connect_once, done, down) (λ h. absurd (cc))
      | inl up ↦
          rw (connect_once, done, up)
            (λ h.
              let w1 = (d.open_db conn_string s).0 in
              rw
                (
                  ← ap (λ (x : _ × Outcome Error (Connection d)). x.0) h,
                  ← fresh_made conn_string db _ w c h,
                )
                (
                  refl,
                  refl,
                  (db, s, w1, refl, ap (λ o. (w1, o)) done, ap (λ o. ((d.ping db w1).0, o)) up),
                ))
    ]
  ]

  wrap-ok :
      {A : Type 0} (text : Bytes) (o : Outcome Error A) (a : A) → wrap text o ≡ ok a → o ≡ ok a
  wrap-ok text (ok x) a h = h
  wrap-ok text (err e) a h = absurd (cc)
  wrap-ok text panic a h = absurd (cc)

  -- A connection that ConnectWithRetry answers is healthy, is on the connection string, and its
  -- database was opened and then pinged without an error in the last round.
  pub connect_with_retry-ok :
      (conn_string : Bytes) (cfg : Option ℤ) (w : d.State) (c : Connection d)
      → (connect_with_retry d conn_string cfg w).1 ≡ ok c
      → IsMade conn_string (connect_with_retry d conn_string cfg w).0 c
  unfolding connect_with_retry
  connect_with_retry-ok conn_string cfg w c h =
      let n = connect_budget d cfg in
      let (s, made) =
        attempts-Genuine has_indicator (connect_once d conn_string) (background d) n panic n 1 0 w
          (λ a z f. absurd (cc)) c
          (wrap-ok (codes "connect with retry failed after " ++ decimal n ++ codes " attempts: ") _
            c h) in
      connect_once-ok conn_string s _ c made

  -- On an open connection and a context that never ends, Execute rides out fewer errors with one
  -- of the indicators of isRetryableError than its budget, returns no error, and has called the
  -- driver once more than it failed.
  pub execute-recovers :
      (ctx : Context) (c : Connection d) (db : d.Db) (text : Bytes) (e : Error) (n : ℕ)
      (w t t' : d.State)
      → open_database d c ≡ some db
      → IsQuiet ctx
      → FailsFor has_indicator (λ s. as_operation (d.exec db text s)) e n w t
      → d.exec db text t ≡ (t', none)
      → n < query_budget d c
      → execute d ctx c text w ≡ record { state = t'; calls = n + 1; outcome = ok tt }
  unfolding execute
  execute-recovers ctx c db text e n w t t' there q f done room =
      rw (execute, there)
        (attempts-recovers has_indicator (λ s. as_operation (d.exec db text s)) ctx
          (query_budget d c) panic e (query_budget d c) t' tt q f (ap as_operation done) room)

  -- The operation that `send_all` repeats.
  abbrev pub send_once :
      ((Bytes → d.State → d.State × Outcome Error (Unit {0}))
        → Bytes
        → d.State
        → d.State × Outcome Error (Unit {0}))
      → d.Db
      → Bytes
      → d.State
      → d.State × Outcome Error (Unit {0})
  send_once once db = once (λ sql s. as_operation (d.exec db sql s))

  -- If ExecuteMultipleStatements or ExecuteGrantStatements returns no error on a connection with
  -- a database, then the text is blank, or the budget is zero, or the last attempt sent
  -- everything that the text asks for, from the first statement on, with no error.
  pub send_all-ok :
      (once : (Bytes → d.State → d.State × Outcome Error (Unit {0}))
        → Bytes
        → d.State
        → d.State × Outcome Error (Unit {0}))
      (ctx : Context) (c : Connection d) (db : d.Db) (text : Bytes) (w : d.State)
      → c.database ≡ some db
      → (send_all d once ctx c text w).outcome ≡ ok tt
      → (is_empty (trim_space text) ≡ true)
        ⊎ (query_budget d c ≡ 0)
        ⊎ ((s : d.State) × (send_once once db text s
              ≡ ((send_all d once ctx c text w).state, ok tt)))
  unfolding send_all
  send_all-ok once ctx c db text w there = elim (Bool-cases c.connected) [
    | inr off ↦ rw (send_all, off) (λ h. absurd (cc))
    | inl on ↦ elim (Bool-cases (is_empty (trim_space text))) [
      | inl blank ↦ λ h. inl blank
      | inr full ↦ elim (Bool-cases (query_budget d c == 0)) [
        | inl never ↦ λ h. inr (inl (ground arith))
        | inr some_left ↦
            rw (send_all, on, full, there)
              (λ h.
                let n = query_budget d c in
                inr (
                  inr (
                    attempts-Genuine has_indicator (send_once once db text) ctx n (ok tt) n 1 0 w
                      (λ a z f. absurd (ground arith)) tt h)))
      ]
    ]
  ]
