-- ===== src/Odbc/Username.antt =====
-- odbc/odbc.go: `ValidateUsername`. A nil error is `none`, and an error stands without the text that
-- it quotes.
use openbao_teradata_secret.Common.{
  ℕ, ◌≤◌, ◌<◌, ◌≡◌, Bool, true, false, not, List, [], ◌∷◌, Option, none, some, any, All, length,
  ltb, if◌then◌else◌, arith,
}
use openbao_teradata_secret.Common.Bytes.{Bytes, codes, is_empty, contains, contains_byte, to_upper}

pub data UsernameError : Type 0 where
  empty_username username_too_long sql_injection invalid_username : UsernameError

-- `sqlInjectionPatterns`
abbrev pub sql_injection_patterns : List Bytes
sql_injection_patterns =
    codes ";"
    ∷ codes "--"
    ∷ codes "/*"
    ∷ codes "*/"
    ∷ codes "xp_"
    ∷ codes "sp_"
    ∷ codes "sys."
    ∷ codes "sysobjects"
    ∷ codes "waitfor"
    ∷ codes "delay"
    ∷ codes "0x"
    ∷ codes "char("
    ∷ codes "nchar("
    ∷ codes "varchar("
    ∷ []

-- `sqlKeywords`
abbrev pub sql_keywords : List Bytes
sql_keywords =
    codes "SELECT"
    ∷ codes "INSERT"
    ∷ codes "UPDATE"
    ∷ codes "DELETE"
    ∷ codes "DROP"
    ∷ codes "CREATE"
    ∷ codes "ALTER"
    ∷ codes "TRUNCATE"
    ∷ codes "GRANT"
    ∷ codes "REVOKE"
    ∷ codes "EXEC"
    ∷ codes "EXECUTE"
    ∷ codes "CALL"
    ∷ codes "DECLARE"
    ∷ codes "MERGE"
    ∷ codes "UNION"
    ∷ codes "INTO"
    ∷ codes "FROM"
    ∷ codes "WHERE"
    ∷ codes "JOIN"
    ∷ codes "GROUP BY"
    ∷ codes "ORDER BY"
    ∷ []

-- `validChars`
abbrev pub valid_chars : Bytes
valid_chars = codes "abcdefghijklmnopqrstuvwxyzABCDEFGHIJKLMNOPQRSTUVWXYZ0123456789_$"

-- Whether a name has a pattern, or a keyword, in it, in any case.
unfoldable pub has_injection_pattern : Bytes → Bool
has_injection_pattern name =
    any (λ pattern. contains (to_upper name) (to_upper pattern)) sql_injection_patterns

unfoldable pub has_sql_keyword : Bytes → Bool
has_sql_keyword name = any (contains (to_upper name)) sql_keywords

-- `ValidateUsername`
unfoldable pub validate_username : Bytes → Option UsernameError
validate_username username =
    if is_empty username
    then some empty_username
    else if ltb 30 (length username)
    then some username_too_long
    else if has_injection_pattern username
    then some sql_injection
    else if has_sql_keyword username
    then some sql_injection
    else if any (λ c. not (contains_byte valid_chars c)) username
    then some invalid_username
    else none

-- A byte of a name that passes.
abbrev pub IsNameByte : ℕ → Type 0
IsNameByte c = contains_byte valid_chars c ≡ true

any-not-All :
    (s : Bytes) → any (λ c. not (contains_byte valid_chars c)) s ≡ false → All IsNameByte s
any-not-All [] h = tt
any-not-All (c ∷ s) h = (ground arith, any-not-All s (ground arith))

-- A name that `ValidateUsername` accepts has one to thirty bytes, each a letter, a digit, `_` or `$`,
-- and no pattern and no keyword of the lists in it, in any case.
pub validate_username-accepts :
    (s : Bytes)
    → validate_username s ≡ none
    → (0 < length s)
      × (length s ≤ 30)
      × All IsNameByte s
      × (has_injection_pattern s ≡ false)
      × (has_sql_keyword s ≡ false)
unfolding validate_username
validate_username-accepts [] h = absurd (ground arith)
validate_username-accepts (c ∷ s) h =
    (omega arith, ground arith, any-not-All (c ∷ s) (ground arith), ground arith, ground arith)
