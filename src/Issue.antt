-- ===== src/Issue.antt =====
-- plugin/path_creds.go: what `pathCredsRead` and `pathCredsBatchRead` read and check before they make
-- a user, and the texts that they make. What the random sources give is an argument. The response
-- that goes with the error of a degraded backend is not modelled.
pub mod Names
pub mod Batch
pub mod Making
pub mod Permitted
pub mod Issued
pub mod Filled
use openbao_teradata_secret.Common.{
  ℕ, ◌/◌, ◌%◌, ◌+◌, ◌-◌, Bool, true, false, not, ◌&&◌, ◌||◌, List, [], ◌∷◌, ◌++◌, Option, none,
  some, any, ltb, if◌then◌else◌,
}
use openbao_teradata_secret.Common.Bytes.{Bytes, codes, is_empty, bytes_eq}
use openbao_teradata_secret.Common.Int.{ℤ, pos, lebℤ, ltbℤ}
use openbao_teradata_secret.Common.Map.{Map}
use openbao_teradata_secret.Credentials.{
  World, SetTimes, count_credentials_by_role, store_credential, cache_credential,
}
use openbao_teradata_secret.Database.{Driver}
use openbao_teradata_secret.Degradation.{Flags, should_use_degradation}
use openbao_teradata_secret.Execution.{execute_sql}
use openbao_teradata_secret.Health.{is_pool_healthy, can_operate}
use openbao_teradata_secret.Leases.{add_time, seconds}
use openbao_teradata_secret.Loaded.{get_config, get_config_by_name, get_statement}
use openbao_teradata_secret.Model.{Credential, Config, Role, Statement}
use openbao_teradata_secret.Odbc.Build.{replace_all}
use openbao_teradata_secret.Odbc.Username.{validate_username, UsernameError}
use openbao_teradata_secret.Outcome.{Outcome, ok, err, panic, ◌>>=◌}
use openbao_teradata_secret.Registry.{Registry}
use openbao_teradata_secret.Retry.{Error, plain, Context, wrap}
use openbao_teradata_secret.Roles.{get_role}
use openbao_teradata_secret.Security.Password.{validate_password, PasswordError, generate_password}
use openbao_teradata_secret.Security.Session.{merge_session_variables}
use openbao_teradata_secret.Storage.{Storage}

-- `hex.EncodeToString`
abbrev pub hex_digit : ℕ → ℕ
hex_digit n = if ltb n 10 then b'0' + n else b'a' + (n - 10)

unfoldable pub hex : List ℕ → Bytes
hex [] = []
hex (b ∷ bs) = hex_digit (b / 16 % 16) ∷ hex_digit (b % 16) ∷ hex bs

-- `generateUsername`; `none` is a `rand.Read` that fails.
unfoldable pub generate_username : Bytes → Bytes → Option (List ℕ) → Bytes
generate_username prefix suffix drawn =
    let first = if is_empty prefix then codes "vault" else prefix in
    if is_empty suffix
    then (elim drawn [ none ↦ [] | some bytes ↦ first ++ b'_' ∷ hex bytes ])
    else first ++ b'_' ∷ suffix

-- `buildTeradataCreateUserSQL`, which does not read the role.
unfoldable pub build_teradata_create_user_sql : Bytes → Bytes → Bytes
build_teradata_create_user_sql username password =
    codes "CREATE USER "
    ++ username
    ++ codes " FROM DBC AS PASSWORD = "
    ++ (34 ∷ password)
    ++ (34 ∷ codes " DEFAULT DATABASE = ")
    ++ username
    ++ codes " PERM = 1000000"

-- The text of a statement for a user.
unfoldable pub fill_in : Bytes → Bytes → Bytes → Bytes
fill_in username password text =
    replace_all (codes "{{password}}") password 0
      (replace_all (codes "{{username}}") username 0 text)

unfoldable pub drop_user_sql : Bytes → Bytes
drop_user_sql username = codes "DROP USER " ++ username

-- Whether a configuration lets a role in.
unfoldable pub is_role_allowed : Config → Bytes → Bool
is_role_allowed cfg name = elim cfg.allowed_roles [
  | [] ↦ true
  | r ∷ rs ↦ any (λ allowed_role. bytes_eq allowed_role name) (r ∷ rs)
]

-- What the random sources give for a credential: the suffix, and what `generatePassword` draws, for
-- its call and for the one by `generatePasswordWithPolicy`.
pub record PasswordDraws : Type 0 where
  pub read : Bool
  pub draws : List ℕ
  pub fix : ℕ → ℕ → ℕ

pub record Draws : Type 0 where
  pub suffix : Option (List ℕ)
  pub password : PasswordDraws
  pub policy_password : PasswordDraws

-- The readings of the clock for a credential.
pub record Times : Type 0 where
  pub at_expiry : ℕ
  pub at_creation : ℕ
  pub at_cache : SetTimes

abbrev pub drawn_password : PasswordDraws → Bytes
drawn_password p = generate_password p.read p.draws p.fix

-- The password of a credential; `generatePasswordWithPolicy` does not read the policy.
unfoldable pub password_for : Role → Draws → Bytes
password_for role draws =
    if is_empty role.password_policy
    then drawn_password draws.password
    else drawn_password draws.policy_password

-- A nil error, or one whose text is not modelled.
abbrev pub checked {ℓ} : {E : Type ℓ} → Bytes → Option E → Outcome Error (Unit {0})
checked text none = ok tt
checked text (some e) = err (plain text)

-- A value that was read and must be there.
abbrev pub present {ℓ} : {A : Type ℓ} → Bytes → Option A → Outcome Error A
present text none = err (plain text)
present text (some a) = ok a

-- A test that must hold.
abbrev pub require : Bytes → Bool → Outcome Error (Unit {0})
require text true = ok tt
require text false = err (plain text)

-- A credential just made: what the response says of it, and its record.
pub record Made : Type 0 where
  pub password : Bytes
  pub credential : Credential

-- What the handler has read before it makes a user.
pub record Plan : Type 0 where
  pub role : Role
  pub config : Config
  pub creation : Bytes
  pub rollback : Bytes

abbrev pub or_else : Bytes → Bytes → Bytes
or_else s t = if is_empty s then t else s

module _ (st : Storage) where
  -- The quota of `pathCredsRead`.
  unfoldable pub check_quota : Role → Bytes → st.State → Outcome Error (Unit {0})
  check_quota role name s =
      if ltbℤ (pos 0) role.max_credentials
      then (wrap (codes "failed to count credentials: ") (count_credentials_by_role st name s)
          >>= λ n.
              require (codes "credential quota exceeded") (not (lebℤ role.max_credentials (pos n))))
      else ok tt

  unfoldable pub check_prefix : Role → Outcome Error (Unit {0})
  check_prefix role =
      if is_empty role.username_prefix
      then ok tt
      else checked (codes "invalid username_prefix: ") (validate_username role.username_prefix)

  unfoldable pub find_config : Bytes → st.State → Outcome Error Config
  find_config region s =
      if is_empty region
      then (get_config st s >>= present (codes "database configuration not found"))
      else (wrap (codes "failed to get region config: ") (get_config_by_name st region s)
          >>= present (codes "configuration for region not found"))

  -- The creation and the rollback statement.
  unfoldable pub find_statements : Role → st.State → Outcome Error (Bytes × Bytes)
  find_statements role s =
      if is_empty role.statement_template
      then ok (role.creation_statement, role.rollback_statement)
      else (wrap (codes "failed to load statement template: ")
            (get_statement st role.statement_template s)
          >>= λ found. present (codes "statement template not found") found >>= λ statement. ok (
            or_else statement.creation_statement role.creation_statement,
            or_else statement.rollback_statement role.rollback_statement,
          ))

module _ (st : Storage) (d : Driver) where
  -- The test for graceful degradation.
  unfoldable pub check_degradation : Flags → Option (Registry d) → Bytes → Outcome Error (Unit {0})
  check_degradation flags registry region =
      if should_use_degradation flags || not (is_pool_healthy d registry region)
      then (elim (can_operate d registry region) [
        | none ↦ ok tt
        | some reason ↦ err (plain (codes "cannot create credentials: "))
      ])
      else ok tt

  -- `pathCredsRead` up to the statements; only this much reads the registry.
  unfoldable pub plan : Flags → Option (Registry d) → Bytes → Bytes → st.State → Outcome Error Plan
  plan flags registry name region s = get_role st name s >>= λ found.
      present (codes "role not found") found >>= λ role. check_quota st role name s >>= λ u1.
      check_prefix st role >>= λ u2. find_config st region s >>= λ cfg.
      require (codes "role is not allowed for this connection") (is_role_allowed cfg name) >>= λ u3.
      check_degradation flags registry region >>= λ u4. find_statements st role s >>= λ stmts.
      ok (record { role = role; config = cfg; creation = stmts.0; rollback = stmts.1 })
