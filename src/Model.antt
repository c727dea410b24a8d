-- ===== src/Model.antt =====
-- models/credential.go and models/config.go: the stored data. Times are nanoseconds since the zero
-- time (0 is the zero time, as `LastRenewed` has it before a renewal), TTLs are whole seconds.
-- Of `Config` and `Role` the model has the fields that the modelled code reads or writes.
use openbao_teradata_secret.Common.{ℕ, Bool, List, Option, ltb}
use openbao_teradata_secret.Common.Bytes.{Bytes}
use openbao_teradata_secret.Common.Int.{ℤ, pos}
use openbao_teradata_secret.Common.Map.{Map}

pub record Credential : Type 0 where
  pub lease_id : Bytes
  pub username : Bytes
  pub role_name : Bytes
  pub region : Bytes
  pub created_at : ℕ
  pub expires_at : ℕ
  pub last_renewed : ℕ

-- `IsExpired`, at the time that it reads.
unfoldable pub is_expired : Credential → ℕ → Bool
is_expired c now = ltb c.expires_at now

pub record Config : Type 0 where
  pub name : Bytes
  pub connection_string : Bytes
  pub allowed_roles : List Bytes
  pub session_variables : Map Bytes
  pub connection_string_template : Bytes
  pub server : Bytes
  pub port : ℤ
  pub database : Bytes
  pub username : Bytes
  pub password : Bytes
  pub session_timeout : ℤ
  pub query_timeout : ℤ
  pub time_zone : Bytes
  pub character_set : Bytes
  pub max_result_rows : ℤ
  pub max_retries : ℤ

pub record Role : Type 0 where
  pub name : Bytes
  pub version : ℤ
  pub username_prefix : Bytes
  pub username_suffix : Bytes
  pub default_ttl : ℤ
  pub max_ttl : ℤ
  pub statement_template : Bytes
  pub creation_statement : Bytes
  pub revocation_statement : Bytes
  pub rollback_statement : Bytes
  pub renewal_statement : Bytes
  pub default_database : Bytes
  pub perm_space : ℤ
  pub spool_space : ℤ
  pub max_credentials : ℤ
  pub session_variables : Option (Map Bytes)
  pub password_policy : Bytes

-- `RoleVersion`
abbrev pub role_version : ℤ
role_version = pos 4

pub record Statement : Type 0 where
  pub name : Bytes
  pub creation_statement : Bytes
  pub revocation_statement : Bytes
  pub rollback_statement : Bytes
  pub renewal_statement : Bytes

-- One second, in nanoseconds.
abbrev pub second : ℕ
second = 1_000_000_000
