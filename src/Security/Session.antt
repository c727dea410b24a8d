-- ===== src/Security/Session.antt =====
-- security/sql_validation.go: `ValidateSessionVariables`; plugin/path_creds.go:
-- `mergeSessionVariables` and `buildSessionVariableSQL`. The order of the entries is that in which
-- `range` visits them. A nil error is `none`, and an error stands without the texts that it quotes.
pub mod Safe
use openbao_teradata_secret.Common.{
  ℕ, Bool, true, false, not, List, [], ◌∷◌, ◌++◌, Option, none, some, any, find, length, ltb,
  if◌then◌else◌,
}
use openbao_teradata_secret.Common.Bytes.{Bytes, codes, contains, contains_byte, to_upper}
use openbao_teradata_secret.Common.Map.{Map, insert}
use openbao_teradata_secret.Security.Sql.{keyword_stands}

pub data SessionError : Type 0 where
  invalid_session_var session_var_too_long dangerous_pattern : SessionError

abbrev pub max_session_vars : ℕ
max_session_vars = 50

abbrev pub max_session_var_name_length : ℕ
max_session_var_name_length = 128

abbrev pub max_session_var_value_length : ℕ
max_session_var_value_length = 1024

-- `validNameChars`
abbrev pub valid_name_chars : Bytes
valid_name_chars = codes "abcdefghijklmnopqrstuvwxyzABCDEFGHIJKLMNOPQRSTUVWXYZ0123456789_"

-- `dangerousPatterns`: those without a letter, with quote, double quote, backslash and NUL by their
-- codes, then those with one.
abbrev pub symbol_patterns : List Bytes
symbol_patterns =
    codes "--"
    ∷ codes "/*"
    ∷ codes "*/"
    ∷ codes ";"
    ∷ (39 ∷ [])
    ∷ (34 ∷ [])
    ∷ (92 ∷ [])
    ∷ (0 ∷ [])
    ∷ []

abbrev pub word_patterns : List Bytes
word_patterns = codes "0x" ∷ codes "char(" ∷ codes "nchar(" ∷ codes "varchar(" ∷ []

abbrev pub session_patterns : List Bytes
session_patterns = symbol_patterns ++ word_patterns

-- `dangerousKeywords`
abbrev pub session_keywords : List Bytes
session_keywords =
    codes "SELECT"
    ∷ codes "INSERT"
    ∷ codes "UPDATE"
    ∷ codes "DELETE"
    ∷ codes "DROP"
    ∷ codes "CREATE"
    ∷ codes "ALTER"
    ∷ codes "GRANT"
    ∷ codes "REVOKE"
    ∷ codes "EXEC"
    ∷ codes "EXECUTE"
    ∷ []

-- The body of the loop.
unfoldable pub validate_session_variable : Bytes → Bytes → Option SessionError
unfolding keyword_stands
validate_session_variable name value =
    if ltb max_session_var_name_length (length name)
    then some session_var_too_long
    else if ltb max_session_var_value_length (length value)
    then some session_var_too_long
    else if any (λ c. not (contains_byte valid_name_chars c)) name
    then some invalid_session_var
    else if any (contains (to_upper value)) session_patterns
    then some dangerous_pattern
    else if any (keyword_stands (codes "_(") (to_upper value)) session_keywords
    then some dangerous_pattern
    else none

unfoldable pub validate_each : Map Bytes → Option SessionError
validate_each [] = none
validate_each ((name, value) ∷ vars) =
    let rest = validate_each vars in
    elim (validate_session_variable name value) [ some e ↦ some e | none ↦ rest ]

-- `ValidateSessionVariables`
unfoldable pub validate_session_variables : Map Bytes → Option SessionError
validate_session_variables vars =
    if ltb max_session_vars (length vars) then some invalid_session_var else validate_each vars

-- `for k, v := range vars { result[k] = v }`
unfoldable pub copy_into : Map Bytes → Map Bytes → Map Bytes
copy_into [] result = result
copy_into ((k, v) ∷ vars) result = copy_into vars (insert k v result)

-- `mergeSessionVariables`
unfoldable pub merge_session_variables : Map Bytes → Map Bytes → Map Bytes
unfolding copy_into
merge_session_variables config_vars role_vars = copy_into role_vars (copy_into config_vars [])

-- `buildSessionVariableSQL`
unfoldable pub build_session_variable_sql : Map Bytes → List Bytes
build_session_variable_sql [] = []
build_session_variable_sql ((name, value) ∷ vars) =
    (codes "SET " ++ (name ++ (codes " = " ++ value))) ∷ build_session_variable_sql vars
