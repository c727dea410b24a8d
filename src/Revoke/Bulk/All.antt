-- ===== src/Revoke/Bulk/All.antt =====
-- plugin/path_bulk_revoke.go: `pathRevokeAllCredsHandler`, with its map of the roles that it has read.
use openbao_teradata_secret.Common.{List, [], ◌∷◌, Option, none, some}
use openbao_teradata_secret.Common.Bytes.{Bytes, codes}
use openbao_teradata_secret.Common.Map.{Map, lookup, insert}
use openbao_teradata_secret.Credentials.{credential_prefix, trim_prefix, get_credential}
use openbao_teradata_secret.Database.{Driver}
use openbao_teradata_secret.Issue.Making.{State}
use openbao_teradata_secret.Loaded.{get_config}
use openbao_teradata_secret.Model.{Credential, Config, Role}
use openbao_teradata_secret.Odbc.Build.{append_query_timeout}
use openbao_teradata_secret.Outcome.{Outcome, ok, err, panic, ◌>>=◌}
use openbao_teradata_secret.Retry.{Error, Context, wrap}
use openbao_teradata_secret.Revoke.{revoke_credential}
use openbao_teradata_secret.Revoke.Bulk.{Result, and_next, required_config}
use openbao_teradata_secret.Roles.{get_role}
use openbao_teradata_secret.Storage.{Storage}

module _ (st : Storage) (d : Driver) (inner : d.State → Context) (ctx : Context) where
  -- The credentials that can be read.
  unfoldable pub readable_credentials : List Bytes → st.State → Outcome Error (List Credential)
  readable_credentials [] s = ok []
  readable_credentials (entry ∷ entries) s =
      let rest = readable_credentials entries s in
      elim (get_credential st (trim_prefix entry) s) [
        | panic ↦ panic
        | err e ↦ rest
        | ok none ↦ rest
        | ok (some cred) ↦ rest >>= λ creds. ok (cred ∷ creds)
      ]

  -- `getRoleCached`; a role that is gone is kept as nil.
  unfoldable pub get_role_cached :
      Map (Option Role) → Bytes → st.State → Map (Option Role) × Outcome Error (Option Role)
  get_role_cached roles name s = elim (lookup name roles) [
    | some role ↦ (roles, ok role)
    | none ↦ elim (get_role st name s) [
      | ok role ↦ (insert name role roles, ok role)
      | err e ↦ (roles, err e)
      | panic ↦ (roles, panic)
    ]
  ]

  -- The round of a credential whose role was read, or was not.
  unfoldable pub revoke_read :
      Bytes
      → Outcome Error (Option Role)
      → Bytes
      → State st d
      → State st d × Outcome Error (Unit {0})
  revoke_read conn_string (ok role) username s =
      revoke_credential st d inner ctx conn_string role username s
  revoke_read conn_string (err e) username s = (s, wrap (codes "failed to retrieve role: ") (err e))
  revoke_read conn_string panic username s = (s, panic)

  -- The loop.
  unfoldable pub revoke_all_creds :
      Bytes
      → Map (Option Role)
      → List Credential
      → State st d
      → State st d × Outcome Error (List Result)
  unfolding revoke_read get_role_cached
  revoke_all_creds conn_string roles [] s = (s, ok [])
  revoke_all_creds conn_string roles (cred ∷ creds) s =
      let (roles', role) = get_role_cached roles cred.role_name s.creds.store in
      and_next cred.username (revoke_read conn_string role cred.username s)
        (revoke_all_creds conn_string roles' creds)

  -- What is read before: the configuration and the credentials.
  unfoldable pub all_revocation_plan : st.State → Outcome Error (Config × List Credential)
  unfolding readable_credentials
  all_revocation_plan s = required_config (get_config st s) >>= λ cfg.
      wrap (codes "failed to list credentials: ") (st.list credential_prefix s) >>= λ entries.
      readable_credentials entries s >>= λ creds. ok (cfg, creds)

  -- `pathRevokeAllCredsHandler`
  unfoldable pub path_revoke_all_creds : State st d → State st d × Outcome Error (List Result)
  unfolding all_revocation_plan revoke_all_creds
  path_revoke_all_creds s = elim (all_revocation_plan s.creds.store) [
    | err e ↦ (s, err e)
    | panic ↦ (s, panic)
    | ok (cfg, creds) ↦
        revoke_all_creds (append_query_timeout cfg.connection_string cfg.query_timeout) [] creds s
  ]
