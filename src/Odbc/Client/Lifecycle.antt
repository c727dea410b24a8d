-- ===== src/Odbc/Client/Lifecycle.antt =====
-- odbc/odbc.go: what a `Connection` does once it is closed, or once a validation of it has failed.
use openbao_teradata_secret.Common.{ℕ, false, ◌≡◌, refl, inl, inr, none, some, Option-cases, arith}
use openbao_teradata_secret.Common.Bytes.{Bytes}
use openbao_teradata_secret.Database.{Driver}
use openbao_teradata_secret.Odbc.Client.{
  Connection, open_database, close, ping, validate, execute, query, is_healthy,
}
use openbao_teradata_secret.Outcome.{err}
use openbao_teradata_secret.Retry.{Error, not_connected, Context}

module _ (d : Driver) where
  -- Every operation on the connection says that it is not connected, and leaves the database alone.
  pub record IsOff (c : Connection d) : Type 0 where
    pub not_healthy : is_healthy d c ≡ false
    pub no_close : (w : d.State) → close d c w ≡ ((w, c), some not_connected)
    pub no_ping : (w : d.State) → ping d c w ≡ (w, some not_connected)
    pub no_validate : (now : ℕ) (w : d.State) → validate d c now w ≡ ((w, c), some not_connected)
    pub no_execute :
        (ctx : Context) (text : Bytes) (w : d.State)
        → execute d ctx c text w ≡ record { state = w; calls = 0; outcome = err not_connected }
    pub no_query :
        (ctx : Context) (text : Bytes) (w : d.State)
        → query d ctx c text w ≡ record { state = w; calls = 0; outcome = err not_connected }

  is_healthy_off : (c : Connection d) → open_database d c ≡ none → is_healthy d c ≡ false
  unfolding open_database is_healthy
  is_healthy_off c h = elim (Option-cases c.database) [
    | inl gone ↦ rw (gone, is_healthy)
    | inr (db, there) ↦ rw (there, is_healthy) (ground arith)
  ]

  off : (c : Connection d) → open_database d c ≡ none → IsOff c
  unfolding close ping validate execute query
  off c h = record {
    not_healthy = is_healthy_off c h;
    no_close = λ w. rw (close, h);
    no_ping = λ w. rw (ping, h);
    no_validate = λ now w. rw (validate, h);
    no_execute = λ ctx text w. rw (execute, h);
    no_query = λ ctx text w. rw (query, h);
  }

  off_disconnected : (c : Connection d) → c.connected ≡ false → open_database d c ≡ none
  unfolding open_database
  off_disconnected c h = rw h

  -- After `Close`, whatever it answers, every operation on the connection says that it is not
  -- connected and leaves the database alone, a second `Close` included.
  pub close-IsOff : (c : Connection d) (w : d.State) → IsOff (close d c w).0.1
  unfolding close
  close-IsOff c w = elim (Option-cases (open_database d c)) [
    | inl gone ↦ rw (close, gone) (off c gone)
    | inr (db, there) ↦
        let c' : Connection d = record c { connected = false; database = none } in
        rw (close, there) (off c' (off_disconnected c' refl))
  ]

  -- Once the ping of `Validate` has failed, every operation on the connection says that it is not
  -- connected and leaves the database alone, `Close` included: the database is not closed.
  pub validate-IsOff :
      (c : Connection d) (db : d.Db) (now : ℕ) (w w' : d.State) (e : Error)
      → open_database d c ≡ some db
      → d.ping db w ≡ (w', some e)
      → IsOff (validate d c now w).0.1 × ((validate d c now w).0.1.database ≡ c.database)
  unfolding validate
  validate-IsOff c db now w w' e there down =
      rw (validate, there, down)
        (let c' = record c { connected = false } in off c' (off_disconnected c' refl), refl)
