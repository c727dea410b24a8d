-- ===== src/Odbc/Build/Settings.antt =====
-- odbc/odbc.go: which setting of a configuration the parser of security/connection.go finds under
-- which key of the string that `BuildTeradataConnectionString` builds.
use openbao_teradata_secret.Common.{◌⊹◌, ◌≡◌, refl, ◌∙◌, ap, List, [], ◌∷◌, Option, none, some, All}
use openbao_teradata_secret.Common.Bytes.{Bytes, codes, to_lower, lower_byte, bytes_eq}
use openbao_teradata_secret.Common.Map.{Map, lookup}
use openbao_teradata_secret.Odbc.Build.{
  TeradataConnectionConfig, settings, text_setting, number_setting, flag_setting,
  build_teradata_connection_string,
}
use openbao_teradata_secret.Odbc.Build.Joined.{parse-build_teradata_connection_string}
use openbao_teradata_secret.Security.Connection.{parse_connection_string}
use openbao_teradata_secret.Security.Connection.Parsed.{IsPlainPair, stored}
use openbao_teradata_secret.Odbc.Build.Fields.{
  Fields, optional, or_kept, last_of, lookup-stored, text_of, number_of, flag_of, text_part,
  number_part, flag_part, append_parts-optional,
}

-- The settings with their keys.
abbrev fields : TeradataConnectionConfig → Fields
fields cfg =
    (codes "DSN", text_of cfg.dsn)
    ∷ (codes "SERVER", text_of cfg.server)
    ∷ (codes "SERVERS", text_of cfg.servers)
    ∷ (codes "PORT", number_of cfg.port)
    ∷ (codes "DATABASE", text_of cfg.database)
    ∷ (codes "UID", text_of cfg.username)
    ∷ (codes "PWD", text_of cfg.password)
    ∷ (codes "CONNTIMEOUT", number_of cfg.connection_timeout)
    ∷ (codes "QUERYTIMEOUT", number_of cfg.query_timeout)
    ∷ (codes "SESSIONMODE", text_of cfg.session_mode)
    ∷ (codes "ACCOUNT", text_of cfg.account)
    ∷ (codes "SSLMODE", text_of cfg.ssl_mode)
    ∷ (codes "SSL", flag_of cfg.ssl_secure)
    ∷ (codes "SSLCERT", text_of cfg.ssl_cert)
    ∷ (codes "SSLKEY", text_of cfg.ssl_key)
    ∷ (codes "SSLROOTCERT", text_of cfg.ssl_root_cert)
    ∷ (codes "SSLKEYPASSWORD", text_of cfg.ssl_key_password)
    ∷ (codes "SSLCIPHERSUITE", text_of cfg.ssl_cipher_suites)
    ∷ (codes "SSLVERSION", text_of cfg.ssl_version)
    ∷ []

settings-optional : (cfg : TeradataConnectionConfig) → settings cfg ≡ optional (fields cfg)
unfolding settings
settings-optional cfg =
    append_parts-optional (text_setting (codes "DSN") cfg.dsn) ((codes "DSN", text_of cfg.dsn) ∷ [])
      (text_setting (codes "SERVER") cfg.server
        ∷ text_setting (codes "SERVERS") cfg.servers
        ∷ number_setting (codes "PORT") cfg.port
        ∷ text_setting (codes "DATABASE") cfg.database
        ∷ text_setting (codes "UID") cfg.username
        ∷ text_setting (codes "PWD") cfg.password
        ∷ number_setting (codes "CONNTIMEOUT") cfg.connection_timeout
        ∷ number_setting (codes "QUERYTIMEOUT") cfg.query_timeout
        ∷ text_setting (codes "SESSIONMODE") cfg.session_mode
        ∷ text_setting (codes "ACCOUNT") cfg.account
        ∷ text_setting (codes "SSLMODE") cfg.ssl_mode
        ∷ flag_setting (codes "SSL") cfg.ssl_secure
        ∷ text_setting (codes "SSLCERT") cfg.ssl_cert
        ∷ text_setting (codes "SSLKEY") cfg.ssl_key
        ∷ text_setting (codes "SSLROOTCERT") cfg.ssl_root_cert
        ∷ text_setting (codes "SSLKEYPASSWORD") cfg.ssl_key_password
        ∷ text_setting (codes "SSLCIPHERSUITE") cfg.ssl_cipher_suites
        ∷ text_setting (codes "SSLVERSION") cfg.ssl_version
        ∷ [])
      ((codes "SERVER", text_of cfg.server)
        ∷ (codes "SERVERS", text_of cfg.servers)
        ∷ (codes "PORT", number_of cfg.port)
        ∷ (codes "DATABASE", text_of cfg.database)
        ∷ (codes "UID", text_of cfg.username)
        ∷ (codes "PWD", text_of cfg.password)
        ∷ (codes "CONNTIMEOUT", number_of cfg.connection_timeout)
        ∷ (codes "QUERYTIMEOUT", number_of cfg.query_timeout)
        ∷ (codes "SESSIONMODE", text_of cfg.session_mode)
        ∷ (codes "ACCOUNT", text_of cfg.account)
        ∷ (codes "SSLMODE", text_of cfg.ssl_mode)
        ∷ (codes "SSL", flag_of cfg.ssl_secure)
        ∷ (codes "SSLCERT", text_of cfg.ssl_cert)
        ∷ (codes "SSLKEY", text_of cfg.ssl_key)
        ∷ (codes "SSLROOTCERT", text_of cfg.ssl_root_cert)
        ∷ (codes "SSLKEYPASSWORD", text_of cfg.ssl_key_password)
        ∷ (codes "SSLCIPHERSUITE", text_of cfg.ssl_cipher_suites)
        ∷ (codes "SSLVERSION", text_of cfg.ssl_version)
        ∷ [])
      (text_part (codes "DSN") cfg.dsn)
      (text_part (codes "SERVER") cfg.server
        ⊹ text_part (codes "SERVERS") cfg.servers
        ⊹ number_part (codes "PORT") cfg.port
        ⊹ text_part (codes "DATABASE") cfg.database
        ⊹ text_part (codes "UID") cfg.username
        ⊹ text_part (codes "PWD") cfg.password
        ⊹ number_part (codes "CONNTIMEOUT") cfg.connection_timeout
        ⊹ number_part (codes "QUERYTIMEOUT") cfg.query_timeout
        ⊹ text_part (codes "SESSIONMODE") cfg.session_mode
        ⊹ text_part (codes "ACCOUNT") cfg.account
        ⊹ text_part (codes "SSLMODE") cfg.ssl_mode
        ⊹ flag_part (codes "SSL") cfg.ssl_secure
        ⊹ text_part (codes "SSLCERT") cfg.ssl_cert
        ⊹ text_part (codes "SSLKEY") cfg.ssl_key
        ⊹ text_part (codes "SSLROOTCERT") cfg.ssl_root_cert
        ⊹ text_part (codes "SSLKEYPASSWORD") cfg.ssl_key_password
        ⊹ text_part (codes "SSLCIPHERSUITE") cfg.ssl_cipher_suites
        ⊹ text_part (codes "SSLVERSION") cfg.ssl_version
        ⊹ tt)

-- Each setting is found under its key, and one that is left out is not found.
pub record IsReadBack (cfg : TeradataConnectionConfig) (m : Map Bytes) : Type 0 where
  pub dsn : lookup (codes "dsn") m ≡ text_of cfg.dsn
  pub server : lookup (codes "server") m ≡ text_of cfg.server
  pub servers : lookup (codes "servers") m ≡ text_of cfg.servers
  pub port : lookup (codes "port") m ≡ number_of cfg.port
  pub database : lookup (codes "database") m ≡ text_of cfg.database
  pub username : lookup (codes "uid") m ≡ text_of cfg.username
  pub password : lookup (codes "pwd") m ≡ text_of cfg.password
  pub connection_timeout : lookup (codes "conntimeout") m ≡ number_of cfg.connection_timeout
  pub query_timeout : lookup (codes "querytimeout") m ≡ number_of cfg.query_timeout
  pub session_mode : lookup (codes "sessionmode") m ≡ text_of cfg.session_mode
  pub account : lookup (codes "account") m ≡ text_of cfg.account
  pub ssl_mode : lookup (codes "sslmode") m ≡ text_of cfg.ssl_mode
  pub ssl_secure : lookup (codes "ssl") m ≡ flag_of cfg.ssl_secure
  pub ssl_cert : lookup (codes "sslcert") m ≡ text_of cfg.ssl_cert
  pub ssl_key : lookup (codes "sslkey") m ≡ text_of cfg.ssl_key
  pub ssl_root_cert : lookup (codes "sslrootcert") m ≡ text_of cfg.ssl_root_cert
  pub ssl_key_password : lookup (codes "sslkeypassword") m ≡ text_of cfg.ssl_key_password
  pub ssl_cipher_suites : lookup (codes "sslciphersuite") m ≡ text_of cfg.ssl_cipher_suites
  pub ssl_version : lookup (codes "sslversion") m ≡ text_of cfg.ssl_version

found :
    (cfg : TeradataConnectionConfig) (k : Bytes)
    → lookup k (stored (settings cfg) []) ≡ last_of k (fields cfg) none
unfolding lookup
found cfg k =
    ap (λ (x : List (Bytes × Bytes)). lookup k (stored x [])) (settings-optional cfg)
    ∙ lookup-stored k (fields cfg) []

or_kept-none : (o : Option Bytes) → or_kept o none ≡ o
or_kept-none none = refl
or_kept-none (some v) = refl

settings-IsReadBack : (cfg : TeradataConnectionConfig) → IsReadBack cfg (stored (settings cfg) [])
unfolding bytes_eq to_lower lower_byte
settings-IsReadBack cfg = record {
  dsn = found cfg (codes "dsn") ∙ or_kept-none (text_of cfg.dsn);
  server = found cfg (codes "server") ∙ or_kept-none (text_of cfg.server);
  servers = found cfg (codes "servers") ∙ or_kept-none (text_of cfg.servers);
  port = found cfg (codes "port") ∙ or_kept-none (number_of cfg.port);
  database = found cfg (codes "database") ∙ or_kept-none (text_of cfg.database);
  username = found cfg (codes "uid") ∙ or_kept-none (text_of cfg.username);
  password = found cfg (codes "pwd") ∙ or_kept-none (text_of cfg.password);
  connection_timeout =
      found cfg (codes "conntimeout") ∙ or_kept-none (number_of cfg.connection_timeout);
  query_timeout = found cfg (codes "querytimeout") ∙ or_kept-none (number_of cfg.query_timeout);
  session_mode = found cfg (codes "sessionmode") ∙ or_kept-none (text_of cfg.session_mode);
  account = found cfg (codes "account") ∙ or_kept-none (text_of cfg.account);
  ssl_mode = found cfg (codes "sslmode") ∙ or_kept-none (text_of cfg.ssl_mode);
  ssl_secure = found cfg (codes "ssl") ∙ or_kept-none (flag_of cfg.ssl_secure);
  ssl_cert = found cfg (codes "sslcert") ∙ or_kept-none (text_of cfg.ssl_cert);
  ssl_key = found cfg (codes "sslkey") ∙ or_kept-none (text_of cfg.ssl_key);
  ssl_root_cert = found cfg (codes "sslrootcert") ∙ or_kept-none (text_of cfg.ssl_root_cert);
  ssl_key_password =
      found cfg (codes "sslkeypassword") ∙ or_kept-none (text_of cfg.ssl_key_password);
  ssl_cipher_suites =
      found cfg (codes "sslciphersuite") ∙ or_kept-none (text_of cfg.ssl_cipher_suites);
  ssl_version = found cfg (codes "sslversion") ∙ or_kept-none (text_of cfg.ssl_version);
}

-- If its values have no space, quote, backslash or semicolon, the string that
-- BuildTeradataConnectionString builds is parsed, and each of the nineteen settings is found
-- under its own key: the user name under uid, the password under pwd, and so on; a setting that
-- is empty, not positive or not set is not found.
pub parse-build_teradata_connection_string-IsReadBack :
    (cfg : TeradataConnectionConfig)
    → All IsPlainPair (settings cfg)
    → (m : Map Bytes) × (parse_connection_string (build_teradata_connection_string cfg) ≡ some m)
      × IsReadBack cfg m
parse-build_teradata_connection_string-IsReadBack cfg a = (
  stored (settings cfg) [],
  parse-build_teradata_connection_string cfg a,
  settings-IsReadBack cfg,
)
