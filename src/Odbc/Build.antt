-- ===== src/Odbc/Build.antt =====
-- odbc/odbc.go: how a connection string is put together from a configuration, from SSL settings, by
-- appending a setting, and from a template.
pub mod Joined
pub mod Fields
pub mod Settings
use openbao_teradata_secret.Common.{
  ℕ, zero, suc, ◌-◌, Bool, true, false, List, [], ◌∷◌, ◌++◌, map, Option, none, some, length,
  if◌then◌else◌,
}
use openbao_teradata_secret.Common.Bytes.{Bytes, codes, is_empty, trim_space, has_prefix}
use openbao_teradata_secret.Common.Decimal.{decimal}
use openbao_teradata_secret.Common.Int.{ℤ, pos, ltbℤ, pos_part}

-- `TeradataConnectionConfig`, less `MaxResultRows`, which the string does not have.
pub record TeradataConnectionConfig : Type 0 where
  pub dsn : Bytes
  pub server : Bytes
  pub servers : Bytes
  pub port : ℤ
  pub database : Bytes
  pub username : Bytes
  pub password : Bytes
  pub connection_timeout : ℤ
  pub query_timeout : ℤ
  pub session_mode : Bytes
  pub account : Bytes
  pub ssl_mode : Bytes
  pub ssl_cert : Bytes
  pub ssl_key : Bytes
  pub ssl_root_cert : Bytes
  pub ssl_key_password : Bytes
  pub ssl_cipher_suites : Bytes
  pub ssl_secure : Bool
  pub ssl_version : Bytes

-- `SSLConfig`
pub record SslConfig : Type 0 where
  pub mode : Bytes
  pub cert : Bytes
  pub key : Bytes
  pub root_cert : Bytes
  pub key_password : Bytes
  pub cipher_suites : Bytes
  pub secure : Bool
  pub version : Bytes

-- A setting, if its value is not empty, or positive, or set.
abbrev pub text_setting : Bytes → Bytes → List (Bytes × Bytes)
text_setting key value = if is_empty value then [] else (key, value) ∷ []

abbrev pub number_setting : Bytes → ℤ → List (Bytes × Bytes)
number_setting key n = if ltbℤ (pos 0) n then (key, decimal (pos_part n)) ∷ [] else []

abbrev pub flag_setting : Bytes → Bool → List (Bytes × Bytes)
flag_setting key on = if on then (key, codes "1") ∷ [] else []

-- The settings in the order in which they are appended.
unfoldable pub settings : TeradataConnectionConfig → List (Bytes × Bytes)
settings cfg =
    text_setting (codes "DSN") cfg.dsn
    ++ text_setting (codes "SERVER") cfg.server
    ++ text_setting (codes "SERVERS") cfg.servers
    ++ number_setting (codes "PORT") cfg.port
    ++ text_setting (codes "DATABASE") cfg.database
    ++ text_setting (codes "UID") cfg.username
    ++ text_setting (codes "PWD") cfg.password
    ++ number_setting (codes "CONNTIMEOUT") cfg.connection_timeout
    ++ number_setting (codes "QUERYTIMEOUT") cfg.query_timeout
    ++ text_setting (codes "SESSIONMODE") cfg.session_mode
    ++ text_setting (codes "ACCOUNT") cfg.account
    ++ text_setting (codes "SSLMODE") cfg.ssl_mode
    ++ flag_setting (codes "SSL") cfg.ssl_secure
    ++ text_setting (codes "SSLCERT") cfg.ssl_cert
    ++ text_setting (codes "SSLKEY") cfg.ssl_key
    ++ text_setting (codes "SSLROOTCERT") cfg.ssl_root_cert
    ++ text_setting (codes "SSLKEYPASSWORD") cfg.ssl_key_password
    ++ text_setting (codes "SSLCIPHERSUITE") cfg.ssl_cipher_suites
    ++ text_setting (codes "SSLVERSION") cfg.ssl_version

unfoldable pub ssl_settings : SslConfig → List (Bytes × Bytes)
ssl_settings ssl =
    text_setting (codes "SSLMODE") ssl.mode
    ++ flag_setting (codes "SSL") ssl.secure
    ++ text_setting (codes "SSLCERT") ssl.cert
    ++ text_setting (codes "SSLKEY") ssl.key
    ++ text_setting (codes "SSLROOTCERT") ssl.root_cert
    ++ text_setting (codes "SSLKEYPASSWORD") ssl.key_password
    ++ text_setting (codes "SSLCIPHERSUITE") ssl.cipher_suites
    ++ text_setting (codes "SSLVERSION") ssl.version

-- `fmt.Sprintf("KEY=%s", value)`
abbrev pub param : Bytes × Bytes → Bytes
param (key, value) = key ++ b'=' ∷ value

-- `strings.Join(params, ";")`
abbrev pub join : List Bytes → Bytes
join [] = []
join (p ∷ []) = p
join (p ∷ q ∷ ps) = p ++ b';' ∷ join (q ∷ ps)

abbrev pub joined : List (Bytes × Bytes) → Bytes
joined pairs = join (map param pairs)

-- `BuildTeradataConnectionString`
unfoldable pub build_teradata_connection_string : TeradataConnectionConfig → Bytes
unfolding settings
build_teradata_connection_string cfg = joined (settings cfg)

-- What is appended to a string that may be blank.
abbrev pub append_text : Bytes → Bytes → Bytes
append_text base text = if is_empty (trim_space base) then text else base ++ b';' ∷ text

abbrev pub append_all : Bytes → List (Bytes × Bytes) → Bytes
append_all base [] = base
append_all base (p ∷ ps) = append_text base (joined (p ∷ ps))

-- `BuildConnectionString`
unfoldable pub build_ssl_connection_string : Bytes → Option SslConfig → Bytes
unfolding ssl_settings
build_ssl_connection_string base none = base
build_ssl_connection_string base (some ssl) = append_all base (ssl_settings ssl)

-- `AppendQueryTimeout`, `AppendSessionTimeout`, `AppendTimeZone` and `AppendCharacterSet`
unfoldable pub append_query_timeout : Bytes → ℤ → Bytes
append_query_timeout base n = append_all base (number_setting (codes "QUERYTIMEOUT") n)

unfoldable pub append_session_timeout : Bytes → ℤ → Bytes
append_session_timeout base n = append_all base (number_setting (codes "SESSIONTIMEOUT") n)

unfoldable pub append_time_zone : Bytes → Bytes → Bytes
append_time_zone base zone = append_all base (text_setting (codes "TIMEZONE") zone)

unfoldable pub append_character_set : Bytes → Bytes → Bytes
append_character_set base set = append_all base (text_setting (codes "CHARSET") set)

-- `strings.ReplaceAll` with an `old` that is not empty; `skip` bytes of it are still to be passed.
unfoldable pub replace_all : Bytes → Bytes → ℕ → Bytes → Bytes
replace_all old new skip [] = []
replace_all old new (suc skip) (c ∷ s) = replace_all old new skip s
replace_all old new zero (c ∷ s) = elim (has_prefix (c ∷ s) old) [
  | true ↦ new ++ replace_all old new (length old - 1) s
  | false ↦ c ∷ replace_all old new zero s
]

-- `BuildConnectionStringFromTemplate`, with the parameters in the order in which `range` visits them.
unfoldable pub build_connection_string_from_template : Bytes → List (Bytes × Bytes) → Bytes
unfolding replace_all
build_connection_string_from_template result [] = result
build_connection_string_from_template result ((key, value) ∷ params) =
    build_connection_string_from_template (replace_all (b'{' ∷ key ++ b'}' ∷ []) value 0 result)
      params
