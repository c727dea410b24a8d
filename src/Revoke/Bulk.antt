-- ===== src/Revoke/Bulk.antt =====
-- plugin/path_bulk_revoke.go: the handlers that revoke many credentials. A result is a user name with
-- nothing or the error, and a panic ends the handler.
pub mod All
use openbao_teradata_secret.Common.{ℕ, ◌+◌, List, [], ◌∷◌, Option, none, some, if◌then◌else◌}
use openbao_teradata_secret.Common.Bytes.{Bytes, codes, is_empty, bytes_eq}
use openbao_teradata_secret.Credentials.{
  SetTimes, credential_prefix, trim_prefix, get_credential, get_cached_credential,
}
use openbao_teradata_secret.Database.{Driver}
use openbao_teradata_secret.Issue.Making.{State}
use openbao_teradata_secret.Loaded.{get_config}
use openbao_teradata_secret.Model.{Config, Role}
use openbao_teradata_secret.Odbc.Build.{append_query_timeout}
use openbao_teradata_secret.Odbc.Username.{validate_username}
use openbao_teradata_secret.Outcome.{Outcome, ok, err, panic, ◌>>=◌}
use openbao_teradata_secret.Retry.{Error, plain, Context, wrap}
use openbao_teradata_secret.Revoke.{revoke_credential}
use openbao_teradata_secret.Roles.{get_role}
use openbao_teradata_secret.Storage.{Storage}

-- `bulkRevokeResult`; the counts of the response are those of the results.
abbrev pub Result : Type 0
Result = Bytes × Option Error

abbrev pub count_revoked : List Result → ℕ
count_revoked [] = 0
count_revoked ((username, none) ∷ rs) = 1 + count_revoked rs
count_revoked ((username, some e) ∷ rs) = count_revoked rs

-- Goes on with the next name, unless the last one ended in a panic.
abbrev pub and_next :
    {S : Type 0}
    → Bytes
    → S × Outcome Error (Unit {0})
    → (S → S × Outcome Error (List Result))
    → S × Outcome Error (List Result)
and_next username (s, panic) next = (s, panic)
and_next username (s, ok u) next =
    let (s', rest) = next s in (s', rest >>= λ rs. ok ((username, none) ∷ rs))
and_next username (s, err e) next =
    let (s', rest) = next s in (s', rest >>= λ rs. ok ((username, some e) ∷ rs))

-- A configuration that must be there.
abbrev pub required_config : Outcome Error (Option Config) → Outcome Error Config
required_config found = found >>= λ c. elim c [
  | none ↦ err (plain (codes "database configuration not found"))
  | some cfg ↦ ok cfg
]

module _ (st : Storage) (d : Driver) (inner : d.State → Context) (ctx : Context) where
  -- The round of `pathBulkRevokeCredsHandler`.
  unfoldable pub revoke_named :
      Bytes → Bytes → ℕ → SetTimes → State st d → State st d × Outcome Error (Unit {0})
  revoke_named conn_string username now times s = elim (validate_username username) [
    | some e ↦ (s, err (plain (codes "invalid username: ")))
    | none ↦
        let (creds', found) = get_cached_credential st username now times s.creds in
        let s1 = record s { creds = creds' } in
        elim found [
          | err e ↦ (s1, wrap (codes "failed to retrieve credential: ") (err e))
          | panic ↦ (s1, panic)
          | ok none ↦ (s1, err (plain (codes "credential not found")))
          | ok (some cred) ↦ elim (get_role st cred.role_name creds'.store) [
            | err e ↦ (s1, wrap (codes "failed to retrieve role: ") (err e))
            | panic ↦ (s1, panic)
            | ok role ↦ revoke_credential st d inner ctx conn_string role username s1
          ]
        ]
  ]

  -- The loop over the names; the readings of the clock are for the names left.
  unfoldable pub revoke_each :
      Bytes
      → (List Bytes → ℕ × SetTimes)
      → List Bytes
      → State st d
      → State st d × Outcome Error (List Result)
  unfolding revoke_named
  revoke_each conn_string clock [] s = (s, ok [])
  revoke_each conn_string clock (username ∷ names) s =
      and_next username (revoke_named conn_string username (clock names).0 (clock names).1 s)
        (revoke_each conn_string clock names)

  -- `pathBulkRevokeCredsHandler`; `none` is a parameter that is missing or no list of texts.
  unfoldable pub path_bulk_revoke_creds :
      Option (List Bytes)
      → (List Bytes → ℕ × SetTimes)
      → State st d
      → State st d × Outcome Error (List Result)
  unfolding revoke_each
  path_bulk_revoke_creds none clock s = (s, err (plain (codes "usernames parameter is required")))
  path_bulk_revoke_creds (some []) clock s =
      (s, err (plain (codes "usernames must be a non-empty list")))
  path_bulk_revoke_creds (some (n ∷ ns)) clock s =
      elim (required_config (get_config st s.creds.store)) [
        | err e ↦ (s, err e)
        | panic ↦ (s, panic)
        | ok cfg ↦
            revoke_each (append_query_timeout cfg.connection_string cfg.query_timeout) clock
              (n ∷ ns) s
      ]

  -- The user names of a role's credentials; an entry that cannot be read is passed over.
  unfoldable pub names_of_role : Bytes → List Bytes → st.State → Outcome Error (List Bytes)
  names_of_role role_name [] s = ok []
  names_of_role role_name (entry ∷ entries) s =
      let rest = names_of_role role_name entries s in
      elim (get_credential st (trim_prefix entry) s) [
        | panic ↦ panic
        | err e ↦ rest
        | ok none ↦ rest
        | ok (some cred) ↦
            if bytes_eq cred.role_name role_name
            then (rest >>= λ ns. ok (trim_prefix entry ∷ ns))
            else rest
      ]

  -- The loop of `pathBulkRevokeByRoleHandler`.
  unfoldable pub revoke_all_of :
      Bytes → Option Role → List Bytes → State st d → State st d × Outcome Error (List Result)
  revoke_all_of conn_string role [] s = (s, ok [])
  revoke_all_of conn_string role (username ∷ names) s =
      and_next username (revoke_credential st d inner ctx conn_string role username s)
        (revoke_all_of conn_string role names)

  -- What `pathBulkRevokeByRoleHandler` reads: the configuration, the role, and the names.
  unfoldable pub role_revocation_plan :
      Bytes → st.State → Outcome Error (Config × Role × List Bytes)
  unfolding names_of_role
  role_revocation_plan role_name s = required_config (get_config st s) >>= λ cfg.
      wrap (codes "failed to retrieve role: ") (get_role st role_name s) >>= λ found. elim found [
        | none ↦ err (plain (codes "role not found"))
        | some role ↦
            wrap (codes "failed to list credentials: ") (st.list credential_prefix s) >>= λ entries.
            names_of_role role_name entries s >>= λ names. ok (cfg, role, names)
      ]

  -- `pathBulkRevokeByRoleHandler`
  unfoldable pub path_bulk_revoke_by_role :
      Bytes → State st d → State st d × Outcome Error (List Result)
  unfolding role_revocation_plan revoke_all_of
  path_bulk_revoke_by_role role_name s =
      if is_empty role_name
      then (s, err (plain (codes "role parameter is required")))
      else (elim (role_revocation_plan role_name s.creds.store) [
        | err e ↦ (s, err e)
        | panic ↦ (s, panic)
        | ok (cfg, role, names) ↦
            revoke_all_of (append_query_timeout cfg.connection_string cfg.query_timeout) (some role)
              names s
      ])
