-- ===== src/Security/Mask.antt =====
-- security/connection.go: `MaskConnectionString`, `isSensitiveKey` and `GetConnectionStringInfo`;
-- security/sql_validation.go: `SanitizeStringForSQL`. A map is in the order in which `range` visits it.
pub mod Hidden
use openbao_teradata_secret.Common.{
  ℕ, Bool, true, false, ◌||◌, List, [], ◌∷◌, ◌++◌, Option, none, some, any, ◌==◌, if◌then◌else◌,
}
use openbao_teradata_secret.Common.Bytes.{Bytes, codes, bytes_eq, is_empty, contains, to_lower}
use openbao_teradata_secret.Common.Map.{Map}
use openbao_teradata_secret.Security.Connection.{parse_connection_string}

-- `sensitiveKeywords`
abbrev pub sensitive_keywords : List Bytes
sensitive_keywords =
    codes "password"
    ∷ codes "pwd"
    ∷ codes "pass"
    ∷ codes "secret"
    ∷ codes "token"
    ∷ codes "auth"
    ∷ codes "credential"
    ∷ codes "key"
    ∷ codes "private"
    ∷ codes "ssl_key_password"
    ∷ codes "sslkeypassword"
    ∷ codes "keypassword"
    ∷ []

unfoldable pub is_sensitive_key : Bytes → Bool
is_sensitive_key key = any (contains (to_lower key)) sensitive_keywords

-- What the loop of `MaskConnectionString` appends for a pair.
unfoldable pub mask_pair : Bytes → Bytes → Bytes
mask_pair key value =
    if is_sensitive_key key
    then key ++ codes "=***"
    else if is_empty value
    then key
    else key ++ b'=' ∷ value

unfoldable pub mask_pairs : Map Bytes → List Bytes
mask_pairs [] = []
mask_pairs ((key, value) ∷ pairs) = mask_pair key value ∷ mask_pairs pairs

-- `strings.Join(result, ";")`
unfoldable pub join : List Bytes → Bytes
join [] = []
join (s ∷ []) = s
join (s ∷ t ∷ rest) = s ++ b';' ∷ join (t ∷ rest)

-- `MaskConnectionString`
unfoldable pub mask_connection_string : Bytes → Bytes
unfolding mask_pairs join
mask_connection_string conn_string =
    if is_empty conn_string then [] else (elim (parse_connection_string conn_string) [
      | none ↦ codes "***"
      | some pairs ↦ join (mask_pairs pairs)
    ])

-- The keys of a server.
abbrev pub is_server_key : Bytes → Bool
is_server_key key =
    bytes_eq key (codes "server") || (bytes_eq key (codes "servers") || bytes_eq key (codes "dsn"))

-- Whether a pair has a key of a kind.
unfoldable pub any_key : (Bytes → Bool) → Map Bytes → Bool
any_key p [] = false
any_key p ((key, value) ∷ pairs) = p key || any_key p pairs

-- `GetConnectionStringInfo`; `none` is its error.
unfoldable pub get_connection_string_info : Bytes → Option (Bool × Bool)
unfolding any_key
get_connection_string_info conn_string =
    if is_empty conn_string
    then some (false, false)
    else (elim (parse_connection_string conn_string) [
      | none ↦ none
      | some pairs ↦ some (any_key is_sensitive_key pairs, any_key is_server_key pairs)
    ])

-- `SanitizeStringForSQL`: a quote, a double quote and a backslash are doubled.
abbrev pub is_doubled : ℕ → Bool
is_doubled r = r == 39 || (r == 34 || r == 92)

unfoldable pub sanitize_string_for_sql : Bytes → Bytes
sanitize_string_for_sql [] = []
sanitize_string_for_sql (r ∷ input) =
    let rest = sanitize_string_for_sql input in if is_doubled r then r ∷ r ∷ rest else r ∷ rest
