-- ===== src/Security/Sql.antt =====
-- security/sql_validation.go: `ValidateSQLStatement`, `ValidateUsername` and
-- `ValidateStatementTemplates`. A nil error is `none`. The regular expressions `--` and `/\*` are
-- searches for a text.
pub mod Accepted
pub mod Refused
use openbao_teradata_secret.Common.{
  ℕ, zero, suc, ◌+◌, ◌-◌, Bool, true, false, not, ◌&&◌, ◌||◌, List, [], ◌∷◌, Option, none, some,
  any, all, find, length, ltb, ◌==◌, if◌then◌else◌,
}
use openbao_teradata_secret.Common.Bytes.{
  Bytes, codes, bytes_eq, is_empty, has_prefix, contains, contains_byte, index, byte_at, is_letter,
  to_upper, trim_space,
}

pub data SqlError : Type 0 where
  empty_statement statement_too_long comment_detected : SqlError
  empty_username username_too_long : SqlError
  invalid_character : ℕ → SqlError
  dangerous_pattern dangerous_keyword : Bytes → SqlError

abbrev pub max_statement_length : ℕ
max_statement_length = 10000

abbrev pub sql_injection_patterns : List Bytes
sql_injection_patterns =
    codes "--"
    ∷ codes "/*"
    ∷ codes "*/"
    ∷ codes "xp_"
    ∷ codes "sp_"
    ∷ codes "sys."
    ∷ codes "sysobjects"
    ∷ codes "syscolumns"
    ∷ codes "waitfor"
    ∷ codes "delay"
    ∷ codes "0x"
    ∷ codes "char("
    ∷ codes "nchar("
    ∷ codes "varchar("
    ∷ codes "nvarchar("
    ∷ codes "exec("
    ∷ codes "execute("
    ∷ codes "eval("
    ∷ []

abbrev pub dangerous_statement_keywords : List Bytes
dangerous_statement_keywords =
    codes "SELECT"
    ∷ codes "INSERT"
    ∷ codes "UPDATE"
    ∷ codes "DELETE"
    ∷ codes "DROP"
    ∷ codes "CREATE"
    ∷ codes "ALTER"
    ∷ codes "TRUNCATE"
    ∷ codes "EXEC"
    ∷ codes "EXECUTE"
    ∷ codes "CALL"
    ∷ codes "DECLARE"
    ∷ codes "MERGE"
    ∷ codes "UNION"
    ∷ codes "INTO"
    ∷ codes "FROM"
    ∷ codes "WHERE"
    ∷ codes "JOIN"
    ∷ codes "GROUP BY"
    ∷ codes "ORDER BY"
    ∷ []

-- `commentPatterns`
abbrev pub comment_patterns : List Bytes
comment_patterns = codes "--" ∷ codes "/*" ∷ []

-- `dangerousPatterns`
abbrev pub dangerous_patterns : List Bytes
dangerous_patterns = codes ";" ∷ []

pub data StatementType : Type 0 where
  unknown grant revoke call : StatementType

unfoldable pub detect_statement_type : Bytes → StatementType
detect_statement_type stmt =
    let upper = to_upper (trim_space stmt) in
    if has_prefix upper (codes "GRANT")
    then grant
    else if has_prefix upper (codes "REVOKE")
    then revoke
    else if has_prefix upper (codes "CALL")
    then call
    else unknown

-- `isWordBoundary`, on the bytes before and after; `extra` are the other bytes that may not follow.
unfoldable pub is_word_boundary : Option ℕ → Option ℕ → Bytes → Bool
is_word_boundary before after extra =
    (elim before [ none ↦ true | some b ↦ not (is_letter b) ])
    && (elim after [ none ↦ true | some a ↦ not (is_letter a) && not (contains_byte extra a) ])

-- The test in the loops over keywords: the first occurrence of the keyword stands alone.
unfoldable pub keyword_stands : Bytes → Bytes → Bytes → Bool
unfolding is_word_boundary
keyword_stands extra upper keyword = elim (index upper keyword) [
  | none ↦ false
  | some zero ↦ is_word_boundary none (byte_at upper (length keyword)) extra
  | some (suc i) ↦ is_word_boundary (byte_at upper i) (byte_at upper (suc i + length keyword)) extra
]

-- `skipKeywords` and `callSkipKeywords`
abbrev pub grant_skip_keywords : List Bytes
grant_skip_keywords =
    codes "SELECT"
    ∷ codes "INSERT"
    ∷ codes "UPDATE"
    ∷ codes "DELETE"
    ∷ codes "EXECUTE"
    ∷ codes "FROM"
    ∷ codes "ON"
    ∷ codes "TO"
    ∷ codes "BY"
    ∷ codes "WITH"
    ∷ codes "GRANT"
    ∷ codes "REVOKE"
    ∷ []

abbrev pub call_skip_keywords : List Bytes
call_skip_keywords = codes "CALL" ∷ codes "EXECUTE" ∷ codes "ON" ∷ codes "WITH" ∷ []

-- The keywords that a statement of a type may use.
abbrev pub skip_keywords : StatementType → List Bytes
skip_keywords grant = grant_skip_keywords
skip_keywords revoke = grant_skip_keywords
skip_keywords call = call_skip_keywords
skip_keywords unknown = []

-- The bytes, beside letters, that make a keyword a part of a word where they follow it.
abbrev pub word_bytes : StatementType → Bytes
word_bytes grant = codes "_(,"
word_bytes revoke = codes "_(,"
word_bytes call = codes "_("
word_bytes unknown = codes "_("

-- Whether the loop over keywords stops at a keyword.
unfoldable pub keyword_rejected : StatementType → Bytes → Bytes → Bool
unfolding keyword_stands
keyword_rejected type upper keyword =
    not (any (bytes_eq keyword) (skip_keywords type))
    && keyword_stands (word_bytes type) upper keyword

-- `strings.Contains(upper, strings.ToUpper(pattern))`
unfoldable pub contains_upper : Bytes → Bytes → Bool
contains_upper upper pattern = contains upper (to_upper pattern)

-- The tests of `ValidateSQLStatement` after those of the patterns.
unfoldable pub validate_keywords : Bytes → Option SqlError
unfolding keyword_rejected
validate_keywords statement =
    elim (find (keyword_rejected (detect_statement_type statement) (to_upper statement))
      dangerous_statement_keywords) [
        | some keyword ↦ some (dangerous_keyword keyword)
        | none ↦ none
      ]

unfoldable pub validate_patterns : Bytes → Option SqlError
unfolding contains_upper
validate_patterns statement =
    elim (find (contains_upper (to_upper statement)) sql_injection_patterns) [
      | some pattern ↦ some (dangerous_pattern pattern)
      | none ↦ elim (find (contains_upper (to_upper statement)) dangerous_patterns) [
        | some pattern ↦ some (dangerous_pattern pattern)
        | none ↦ validate_keywords statement
      ]
    ]

-- `ValidateSQLStatement`
unfoldable pub validate_sql_statement : Bytes → Option SqlError
validate_sql_statement statement =
    if is_empty (trim_space statement)
    then some empty_statement
    else if ltb max_statement_length (length statement)
    then some statement_too_long
    else if any (contains statement) comment_patterns
    then some comment_detected
    else validate_patterns statement

abbrev pub valid_username_chars : Bytes
valid_username_chars = codes "abcdefghijklmnopqrstuvwxyzABCDEFGHIJKLMNOPQRSTUVWXYZ0123456789_$"

abbrev pub dangerous_username_keywords : List Bytes
dangerous_username_keywords =
    codes "SELECT"
    ∷ codes "INSERT"
    ∷ codes "UPDATE"
    ∷ codes "DELETE"
    ∷ codes "DROP"
    ∷ codes "CREATE"
    ∷ codes "ALTER"
    ∷ codes "TRUNCATE"
    ∷ codes "GRANT"
    ∷ codes "REVOKE"
    ∷ codes "EXEC"
    ∷ codes "EXECUTE"
    ∷ codes "CALL"
    ∷ codes "DECLARE"
    ∷ codes "MERGE"
    ∷ codes "UNION"
    ∷ codes "INTO"
    ∷ codes "FROM"
    ∷ codes "WHERE"
    ∷ codes "JOIN"
    ∷ codes "GROUP BY"
    ∷ codes "ORDER BY"
    ∷ []

-- `ValidateUsername`
unfoldable pub validate_username : Bytes → Option SqlError
unfolding contains_upper
validate_username username =
    if is_empty username
    then some empty_username
    else if ltb 30 (length username)
    then some username_too_long
    else (elim (find (λ c. not (contains_byte valid_username_chars c)) username) [
      | some c ↦ some (invalid_character c)
      | none ↦ elim (find (contains_upper (to_upper username)) sql_injection_patterns) [
        | some pattern ↦ some (dangerous_pattern pattern)
        | none ↦ elim (find (contains (to_upper username)) dangerous_username_keywords) [
          | some keyword ↦ some (dangerous_pattern keyword)
          | none ↦ none
        ]
      ]
    ])

-- A template that is not empty is a statement; an empty one is left out.
unfoldable pub validate_template : Bytes → Option SqlError
unfolding validate_sql_statement
validate_template template = if is_empty template then none else validate_sql_statement template

-- The first of two errors.
abbrev or_else : Option SqlError → Option SqlError → Option SqlError
or_else (some e) later = some e
or_else none later = later

-- `ValidateStatementTemplates`; its errors wrap those of the statements.
unfoldable pub validate_statement_templates : Bytes → Bytes → Bytes → Bytes → Option SqlError
validate_statement_templates creation revocation rollback renewal =
    or_else (validate_template creation) (
      or_else (validate_template revocation)
        (or_else (validate_template rollback) (validate_template renewal)))
