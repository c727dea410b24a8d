-- ===== src/Renew.antt =====
-- plugin/path_renew_creds.go: `pathRenewCredsHandler`, which gives a user a new password. Every call of
-- `retry.Do` gets no configuration. What the random sources give and the readings of the clock are
-- arguments, and the map of the response is a record.
pub mod Unrenewed
use openbao_teradata_secret.Common.{
  ℕ, Bool, true, false, List, [], ◌∷◌, ◌++◌, Option, none, some, if◌then◌else◌,
}
use openbao_teradata_secret.Common.Bytes.{Bytes, codes, is_empty}
use openbao_teradata_secret.Common.Int.{ℤ}
use openbao_teradata_secret.Credentials.{
  World, SetTimes, get_cached_credential, store_credential, cache_credential,
}
use openbao_teradata_secret.Database.{Driver, as_operation}
use openbao_teradata_secret.Issue.{
  PasswordDraws, drawn_password, checked, present, fill_in, or_else,
}
use openbao_teradata_secret.Issue.Making.{State}
use openbao_teradata_secret.Leases.{add_time, seconds}
use openbao_teradata_secret.Loaded.{get_config, get_statement}
use openbao_teradata_secret.Model.{Credential, Config, Role}
use openbao_teradata_secret.Odbc.Build.{append_session_timeout, append_query_timeout}
use openbao_teradata_secret.Odbc.Client.{Connection, close}
use openbao_teradata_secret.Odbc.Username.{validate_username}
use openbao_teradata_secret.Outcome.{Outcome, ok, err, panic, ◌>>=◌}
use openbao_teradata_secret.Retry.{Error, plain, Context, do_retry, wrap}
use openbao_teradata_secret.Revoke.{connect_to, run_statement}
use openbao_teradata_secret.Roles.{get_role}
use openbao_teradata_secret.Security.Password.{validate_password}
use openbao_teradata_secret.Storage.{Storage}

-- The readings of the clock.
pub record Times : Type 0 where
  pub at_lookup : ℕ
  pub at_lookup_cache : SetTimes
  pub at_renewal : ℕ
  pub at_expiry : ℕ
  pub at_cache : SetTimes

-- What the handler has read before it connects.
pub record Plan : Type 0 where
  pub role : Role
  pub config : Config

pub record Renewed : Type 0 where
  pub password : Bytes
  pub credential : Credential
  pub ttl : ℤ
  pub max_ttl : ℤ

module _ (d : Driver) where
  -- `AlterUserPassword`
  unfoldable pub alter_user_password :
      d.Db → Bytes → Bytes → d.State → d.State × Outcome Error (Unit {0})
  alter_user_password db username password w =
      let (w', e) = as_operation (
        d.exec db
          (codes "MODIFY USER " ++ username ++ codes " AS PASSWORD = '" ++ password ++ codes "'")
          w) in
      (w', wrap (codes "failed to alter user password: ") e)

  -- On `conn.DB()`, which panics on a nil database.
  unfoldable pub alter_on :
      Connection d → Bytes → Bytes → d.State → d.State × Outcome Error (Unit {0})
  unfolding alter_user_password
  alter_on c username password w = elim c.database [
    | none ↦ (w, panic)
    | some db ↦ alter_user_password db username password w
  ]

module _ (st : Storage) (d : Driver) (inner : d.State → Context) where
  -- What is read and checked once the credential is there.
  unfoldable pub renewal_plan : Credential → Bytes → st.State → Outcome Error Plan
  renewal_plan cred password s =
      wrap (codes "failed to retrieve role: ") (get_role st cred.role_name s) >>= λ found.
      present (codes "role not found for credential") found >>= λ role.
      get_config st s >>= λ found_config.
      present (codes "database configuration not found") found_config >>= λ cfg.
      checked (codes "generated password validation failed: ") (validate_password password) >>= λ u.
      ok (record { role = role; config = cfg })

  -- The renewal statement, read after the password was changed.
  unfoldable pub renewal_statement_of : Role → st.State → Outcome Error Bytes
  renewal_statement_of role s =
      if is_empty role.statement_template
      then ok role.renewal_statement
      else (wrap (codes "failed to load statement template: ")
            (get_statement st role.statement_template s)
          >>= λ found. elim found [
            | none ↦ ok role.renewal_statement
            | some statement ↦ ok (or_else statement.renewal_statement role.renewal_statement)
          ])

  -- The calls on the connection.
  unfoldable pub renew_on :
      Context
      → Connection d
      → Role
      → Bytes
      → Bytes
      → st.State
      → d.State
      → d.State × Outcome Error (Unit {0})
  unfolding alter_on renewal_statement_of run_statement
  renew_on ctx c role username password s w =
      let altered = do_retry ctx none (alter_on d c username password) w in
      elim altered.outcome [
        | err e ↦ (altered.state, wrap (codes "failed to rotate password: ") (err e))
        | panic ↦ (altered.state, panic)
        | ok u ↦ elim (renewal_statement_of role s) [
          | err e ↦ (altered.state, err e)
          | panic ↦ (altered.state, panic)
          | ok statement ↦
              let (w', renewed) =
                run_statement d inner ctx c (fill_in username password statement) altered.state in
              (w', wrap (codes "failed to execute renewal statement: ") renewed)
        ]
      ]

  -- A connection for the time of these calls; a call that panics closes it too.
  unfoldable pub renew_user :
      Context
      → Bytes
      → Role
      → Bytes
      → Bytes
      → st.State
      → d.State
      → d.State × Outcome Error (Unit {0})
  unfolding renew_on connect_to
  renew_user ctx conn_string role username password s w =
      let run = do_retry ctx none (connect_to d conn_string) (w, none) in
      elim run.outcome [
        | err e ↦
            (run.state.0, wrap (codes "failed to connect to database after retries: ") (err e))
        | panic ↦ (run.state.0, panic)
        | ok u ↦ elim run.state.1 [
          | none ↦ (run.state.0, panic)
          | some c ↦
              let (w', result) = renew_on ctx c role username password s run.state.0 in
              ((close d c w').0.0, result)
        ]
      ]

  -- The credential with its new times, stored and cached.
  unfoldable pub store_renewed :
      Credential → Role → Bytes → Bytes → Times → State st d → State st d × Outcome Error Renewed
  store_renewed cred role username password times s =
      let cred' : Credential = record cred {
        last_renewed = times.at_renewal;
        expires_at = add_time times.at_expiry (seconds role.default_ttl);
      } in
      let (store', stored) = store_credential st username cred' s.creds.store in
      let creds' = record s.creds { store = store' } in
      elim stored [
        | err e ↦
            (record s { creds = creds' }, wrap (codes "failed to update credential: ") (err e))
        | panic ↦ (record s { creds = creds' }, panic)
        | ok u ↦ (
          record s { creds = cache_credential st username cred' times.at_cache creds' },
          ok (record {
            password = password;
            credential = cred';
            ttl = role.default_ttl;
            max_ttl = role.max_ttl;
          }),
        )
      ]

  -- The handler once the plan is made.
  unfoldable pub renew_planned :
      Context
      → Plan
      → Credential
      → Bytes
      → Bytes
      → Times
      → State st d
      → State st d × Outcome Error Renewed
  unfolding renew_user store_renewed
  renew_planned ctx p cred username password times s =
      let conn_string =
        append_query_timeout
          (append_session_timeout p.config.connection_string p.config.session_timeout)
          p.config.query_timeout in
      let (w, renewed) =
        renew_user ctx conn_string p.role username password s.creds.store s.world in
      elim renewed [
        | err e ↦ (record s { world = w }, err e)
        | panic ↦ (record s { world = w }, panic)
        | ok u ↦ store_renewed cred p.role username password times (record s { world = w })
      ]

  -- `pathRenewCredsHandler`
  unfoldable pub path_renew_creds :
      Context → Bytes → PasswordDraws → Times → State st d → State st d × Outcome Error Renewed
  unfolding renewal_plan renew_planned
  path_renew_creds ctx username draws times s = elim (validate_username username) [
    | some e ↦ (s, err (plain (codes "invalid username: ")))
    | none ↦
        let (creds', found) =
          get_cached_credential st username times.at_lookup times.at_lookup_cache s.creds in
        let s1 = record s { creds = creds' } in
        elim found [
          | err e ↦ (s1, wrap (codes "failed to retrieve credential: ") (err e))
          | panic ↦ (s1, panic)
          | ok none ↦ (s1, err (plain (codes "credential for user not found")))
          | ok (some cred) ↦ elim (renewal_plan cred (drawn_password draws) creds'.store) [
            | err e ↦ (s1, err e)
            | panic ↦ (s1, panic)
            | ok p ↦ renew_planned ctx p cred username (drawn_password draws) times s1
          ]
        ]
  ]
