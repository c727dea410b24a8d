-- ===== src/Revoke.antt =====
-- plugin/path_revoke_creds.go and plugin/path_bulk_revoke.go: how a user is dropped and its credential
-- deleted. Every call of `retry.Do` gets no configuration. The audit log and the webhook are not
-- modelled. The contexts of the calls on a connection are read off the state of the database.
pub mod Variables
pub mod Bulk
pub mod Never
pub mod Lease
use openbao_teradata_secret.Common.{
  ℕ, zero, suc, ◌+◌, Bool, true, false, List, [], ◌∷◌, ◌++◌, Option, none, some, ◌==◌,
  if◌then◌else◌,
}
use openbao_teradata_secret.Common.Bytes.{Bytes, codes, is_empty, bytes_eq}
use openbao_teradata_secret.Credentials.{
  World, SetTimes, get_cached_credential, delete_credential, invalidate_cached_credential,
}
use openbao_teradata_secret.Database.{Driver, as_operation}
use openbao_teradata_secret.Issue.Making.{State}
use openbao_teradata_secret.Loaded.{get_config}
use openbao_teradata_secret.Model.{Credential, Config, Role}
use openbao_teradata_secret.Odbc.Build.{replace_all, append_session_timeout, append_query_timeout}
use openbao_teradata_secret.Odbc.Client.{Connection, connect, close, execute_multiple_statements}
use openbao_teradata_secret.Odbc.Username.{validate_username}
use openbao_teradata_secret.Outcome.{Outcome, ok, err, panic, ◌>>=◌}
use openbao_teradata_secret.Retry.{Error, plain, Context, Run, do_retry, wrap}
use openbao_teradata_secret.Roles.{get_role}
use openbao_teradata_secret.Storage.{Storage}

-- How often a byte stands in a text.
abbrev pub count_byte : ℕ → Bytes → ℕ
count_byte b [] = 0
count_byte b (c ∷ s) = (if c == b then 1 else 0) + count_byte b s

-- The loop of `replaceVariable`, with the rounds left.
unfoldable pub replace_rounds : ℕ → Bytes → Bytes → Bytes → Bytes
replace_rounds zero placeholder value result = result
replace_rounds (suc left) placeholder value result =
    let next = replace_all placeholder value 0 result in
    elim (bytes_eq result next) [ true ↦ next | false ↦ replace_rounds left placeholder value next ]

-- `replaceVariable`, with `replaceAllString`: as many rounds as the text has braces, and one more.
unfoldable pub replace_variable : Bytes → Bytes → Bytes → Bytes
unfolding replace_rounds
replace_variable sql placeholder value =
    if is_empty value then sql else replace_rounds (suc (count_byte b'{' sql)) placeholder value sql

-- `replaceVariables`
unfoldable pub replace_variables : Bytes → Bytes → Bytes → Bytes
unfolding replace_variable
replace_variables sql username password =
    replace_variable (replace_variable sql (codes "{{username}}") username) (codes "{{password}}")
      password

module _ (d : Driver) where
  -- `DropUser`
  unfoldable pub drop_user : d.Db → Bytes → d.State → d.State × Outcome Error (Unit {0})
  drop_user db username w =
      let (w', e) = as_operation (d.exec db (codes "DROP USER " ++ username) w) in
      (w', wrap (codes "failed to drop user: ") e)

  -- `DropUser` on `conn.DB()`, which panics on a nil database.
  unfoldable pub drop_user_on : Connection d → Bytes → d.State → d.State × Outcome Error (Unit {0})
  unfolding drop_user
  drop_user_on c username w = elim c.database [
    | none ↦ (w, panic)
    | some db ↦ drop_user db username w
  ]

  -- `conn, err = odbc.Connect(connString)`: the variable keeps the connection made last.
  unfoldable pub connect_to :
      Bytes
      → d.State × Option (Connection d)
      → (d.State × Option (Connection d)) × Outcome Error (Unit {0})
  connect_to conn_string (w, made) =
      let (w', result) = connect d conn_string w in
      elim result [
        | ok c ↦ ((w', some c), ok tt)
        | err e ↦ ((w', none), err e)
        | panic ↦ ((w', made), panic)
      ]

module _ (d : Driver) (inner : d.State → Context) where
  unfoldable pub run_statement :
      Context → Connection d → Bytes → d.State → d.State × Outcome Error (Unit {0})
  run_statement ctx c statement w =
      if is_empty statement
      then (w, ok tt)
      else (let run =
            do_retry ctx none
              (λ s.
                let r = execute_multiple_statements d (inner s) c statement s in
                (r.state, r.outcome))
              w in
          (run.state, run.outcome))

  -- The calls on the connection: the revocation statement, unless it is empty, and the drop.
  unfoldable pub revoke_on :
      Context → Connection d → Bytes → Bytes → d.State → d.State × Outcome Error (Unit {0})
  unfolding run_statement
  revoke_on ctx c statement username w =
      let (w1, revoked) = run_statement ctx c statement w in
      elim revoked [
        | err e ↦ (w1, wrap (codes "failed to execute revocation statement: ") (err e))
        | panic ↦ (w1, panic)
        | ok u ↦
            let dropped = do_retry ctx none (drop_user_on d c username) w1 in
            (dropped.state, wrap (codes "failed to drop user: ") dropped.outcome)
      ]

  -- A connection for the time of these calls; a call that panics closes it here too.
  unfoldable pub revoke_user :
      Context → Bytes → Bytes → Bytes → d.State → d.State × Outcome Error (Unit {0})
  unfolding revoke_on connect_to
  revoke_user ctx conn_string statement username w =
      let run = do_retry ctx none (connect_to d conn_string) (w, none) in
      elim run.outcome [
        | err e ↦ (run.state.0, wrap (codes "failed to connect to database: ") (err e))
        | panic ↦ (run.state.0, panic)
        | ok u ↦ elim run.state.1 [
          | none ↦ (run.state.0, panic)
          | some c ↦
              let (w', result) = revoke_on ctx c statement username run.state.0 in
              ((close d c w').0.0, result)
        ]
      ]

-- The revocation statement of a role that may be gone, for a user.
abbrev pub revocation_of : Option Role → Bytes → Bytes
revocation_of none username = []
revocation_of (some role) username =
    if is_empty role.revocation_statement
    then []
    else replace_variables role.revocation_statement username []

module _ (st : Storage) (d : Driver) (inner : d.State → Context) where
  -- The user is dropped, and then its credential is deleted and no longer cached.
  unfoldable pub revoke_credential :
      Context → Bytes → Option Role → Bytes → State st d → State st d × Outcome Error (Unit {0})
  unfolding revoke_user
  revoke_credential ctx conn_string role username s =
      let (w, dropped) =
        revoke_user d inner ctx conn_string (revocation_of role username) username s.world in
      let s1 = record s { world = w } in
      elim dropped [
        | err e ↦ (s1, err e)
        | panic ↦ (s1, panic)
        | ok u ↦
            let (store', deleted) = delete_credential st username s.creds.store in
            let creds' = record s.creds { store = store' } in
            elim deleted [
              | err e ↦ (
                record s1 { creds = creds' },
                wrap (codes "failed to delete credential: ") (err e),
              )
              | panic ↦ (record s1 { creds = creds' }, panic)
              | ok u ↦
                  (record s1 { creds = invalidate_cached_credential st username creds' }, ok tt)
            ]
      ]

  -- What `pathRevokeCredsHandler` reads once it has the credential.
  unfoldable pub revocation_plan : Credential → st.State → Outcome Error (Option Role × Config)
  revocation_plan cred s =
      wrap (codes "failed to retrieve role: ") (get_role st cred.role_name s) >>= λ role.
      get_config st s >>= λ found. elim found [
        | none ↦ err (plain (codes "database configuration not found"))
        | some cfg ↦ ok (role, cfg)
      ]

  -- `pathRevokeCredsHandler`; `now` and `times` are read by the cache.
  unfoldable pub path_revoke_creds :
      Context → Bytes → ℕ → SetTimes → State st d → State st d × Outcome Error (Unit {0})
  unfolding revoke_credential revocation_plan
  path_revoke_creds ctx username now times s = elim (validate_username username) [
    | some e ↦ (s, err (plain (codes "invalid username: ")))
    | none ↦
        let (creds', found) = get_cached_credential st username now times s.creds in
        let s1 = record s { creds = creds' } in
        elim found [
          | err e ↦ (s1, wrap (codes "failed to retrieve credential: ") (err e))
          | panic ↦ (s1, panic)
          | ok none ↦ (s1, err (plain (codes "credential for user not found")))
          | ok (some cred) ↦ elim (revocation_plan cred creds'.store) [
            | err e ↦ (s1, err e)
            | panic ↦ (s1, panic)
            | ok (role, cfg) ↦
                revoke_credential ctx
                  (append_query_timeout
                    (append_session_timeout cfg.connection_string cfg.session_timeout)
                    cfg.query_timeout)
                  role username s1
          ]
        ]
  ]
