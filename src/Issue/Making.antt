-- ===== src/Issue/Making.antt =====
-- plugin/path_creds.go: how `pathCredsRead` makes a user and hands out its credentials. The readings
-- of the clock are arguments, and `sql` is `executeSQL`. The audit log and the webhook at the end are
-- not modelled, and the maps of a response are records.
use openbao_teradata_secret.Common.{Bool, [], ◌∷◌, ◌++◌, Option, none, some, if◌then◌else◌}
use openbao_teradata_secret.Common.Bytes.{Bytes, codes, is_empty}
use openbao_teradata_secret.Common.Int.{ℤ, pos, ltbℤ}
use openbao_teradata_secret.Common.Map.{Map}
use openbao_teradata_secret.Credentials.{World, store_credential, cache_credential}
use openbao_teradata_secret.Database.{Driver}
use openbao_teradata_secret.Degradation.{Flags}
use openbao_teradata_secret.Issue.{
  Plan, Draws, Times, Made, plan, fill_in, drop_user_sql, build_teradata_create_user_sql,
  generate_username, password_for, checked,
}
use openbao_teradata_secret.Leases.{add_time, seconds}
use openbao_teradata_secret.Model.{Credential, Config}
use openbao_teradata_secret.Odbc.Username.{validate_username}
use openbao_teradata_secret.Outcome.{Outcome, ok, err, panic, ◌>>=◌}
use openbao_teradata_secret.Registry.{Registry}
use openbao_teradata_secret.Retry.{Error, wrap}
use openbao_teradata_secret.Security.Password.{validate_password}
use openbao_teradata_secret.Security.Session.{merge_session_variables}
use openbao_teradata_secret.Storage.{Storage}

-- What the handlers change: storage with the credential cache, and the database.
pub record State (st : Storage) (d : Driver) : Type 0 where
  pub creds : World st
  pub world : d.State

-- `executeSQL` as the handlers call it.
abbrev pub Sql : Driver → Type 0
Sql d = Config → Bytes → d.State → d.State × Outcome Error (Unit {0})

module _ (d : Driver) (sql : Sql d) where
  -- What is done when the creation statement fails; its errors are not read.
  unfoldable pub undo_user : Plan → Bytes → Bytes → d.State → d.State
  undo_user p username password w =
      let w' =
        if is_empty p.rollback
        then w
        else (sql p.config (fill_in username password p.rollback) w).0 in
      (sql p.config (drop_user_sql username) w').0

  -- The calls of `executeSQL` that make a user.
  unfoldable pub create_user : Plan → Bytes → Bytes → d.State → d.State × Outcome Error (Unit {0})
  unfolding undo_user
  create_user p username password w =
      let (w1, created) = sql p.config (build_teradata_create_user_sql username password) w in
      elim created [
        | panic ↦ (w1, panic)
        | err e ↦ (w1, wrap (codes "failed to create user: ") (err e))
        | ok u ↦
            if is_empty p.creation
            then (w1, ok tt)
            else (let (w2, extended) = sql p.config (fill_in username password p.creation) w1 in
                elim extended [
                  | ok u ↦ (w2, ok tt)
                  | panic ↦ (w2, panic)
                  | err e ↦ (
                    undo_user p username password w2,
                    wrap (codes "failed to run creation statement: ") (err e),
                  )
                ])
      ]

module _ (st : Storage) (d : Driver) (sql : Sql d) where
  -- The record of a credential.
  abbrev pub new_credential : Plan → Bytes → Bytes → Bytes → Times → Credential
  new_credential p name region username times = record {
    lease_id = codes "teradata/creds/" ++ name ++ b'/' ∷ username;
    username = username;
    role_name = name;
    region = region;
    created_at = times.at_creation;
    expires_at = add_time times.at_expiry (seconds p.role.default_ttl);
    last_renewed = 0;
  }

  -- The credential, stored and cached.
  unfoldable pub record_credential :
      Plan → Bytes → Bytes → Bytes → Bytes → Times → State st d → State st d × Outcome Error Made
  record_credential p name region username password times s =
      let cred = new_credential p name region username times in
      let (store', stored) = store_credential st username cred s.creds.store in
      let creds' = record s.creds { store = store' } in
      elim stored [
        | err e ↦ (record s { creds = creds' }, wrap (codes "failed to store credential: ") (err e))
        | panic ↦ (record s { creds = creds' }, panic)
        | ok u ↦ (
          record s { creds = cache_credential st username cred times.at_cache creds' },
          ok (record { password = password; credential = cred }),
        )
      ]

  -- A user with a credential of its own.
  unfoldable pub issue :
      Plan → Bytes → Bytes → Draws → Times → State st d → State st d × Outcome Error Made
  unfolding create_user record_credential
  issue p name region draws times s =
      let username = generate_username p.role.username_prefix p.role.username_suffix draws.suffix in
      let password = password_for p.role draws in
      elim (checked (codes "generated username validation failed: ") (validate_username username)
        >>= λ u.
            checked (codes "generated password validation failed: ") (validate_password password)) [
              | err e ↦ (s, err e)
              | panic ↦ (s, panic)
              | ok u ↦
                  let (w, created) = create_user d sql p username password s.world in
                  elim created [
                    | err e ↦ (record s { world = w }, err e)
                    | panic ↦ (record s { world = w }, panic)
                    | ok u ↦
                        record_credential p name region username password times
                          (record s { world = w })
                  ]
            ]

  -- The response of `pathCredsRead`; TTLs are those of the role, in seconds.
  pub record Response : Type 0 where
    pub made : Made
    pub ttl : ℤ
    pub max_ttl : ℤ
    pub session_variables : Map Bytes
    pub has_secret : Bool

  abbrev pub variables_of : Plan → Map Bytes
  variables_of p =
      merge_session_variables p.config.session_variables
        (elim p.role.session_variables [ none ↦ [] | some vars ↦ vars ])

  -- `pathCredsRead`
  unfoldable pub path_creds_read :
      Flags
      → Option (Registry d)
      → Bytes
      → Bytes
      → Draws
      → Times
      → State st d
      → State st d × Outcome Error Response
  unfolding issue plan
  path_creds_read flags registry name region draws times s =
      elim (plan st d flags registry name region s.creds.store) [
        | err e ↦ (s, err e)
        | panic ↦ (s, panic)
        | ok p ↦
            let (s', made) = issue p name region draws times s in
            (
              s',
              made >>= λ m. ok (record {
                made = m;
                ttl = p.role.default_ttl;
                max_ttl = p.role.max_ttl;
                session_variables = variables_of p;
                has_secret = ltbℤ (pos 0) p.role.default_ttl;
              }),
            )
      ]
