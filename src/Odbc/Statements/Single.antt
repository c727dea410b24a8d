-- ===== src/Odbc/Statements/Single.antt =====
-- odbc/odbc.go: how many statements a text without semicolons is cut into.
use openbao_teradata_secret.Common.{
  ℕ, ◌≤◌, ◌≡◌, refl, inl, inr, false, List, [], ◌∷◌, ◌++◌, none, length, ◌==◌, All, arith,
  Bool-cases,
}
use openbao_teradata_secret.Common.Bytes.{
  Bytes, codes, has_prefix, contains, contains_byte, to_upper, trim_space, trim_left, trim_right,
  ends_with,
}
use openbao_teradata_secret.Odbc.Statements.{grow, split_lines, parse_lines, parse_sql_statements}
use openbao_teradata_secret.Security.Sql.{contains_upper, validate_sql_statement}
use openbao_teradata_secret.Security.Sql.Accepted.{validate_sql_statement-IsClean}

abbrev semicolon : ℕ
semicolon = b';'

-- No byte of the text is a semicolon.
abbrev pub NoSemicolon : Bytes → Type 0
NoSemicolon s = contains_byte s semicolon ≡ false

trim_left-NoSemicolon : (s : Bytes) → NoSemicolon s → NoSemicolon (trim_left s)
unfolding contains_byte trim_left
trim_left-NoSemicolon [] h = refl
trim_left-NoSemicolon (c ∷ s) h = ground (arith, trim_left-NoSemicolon s)

trim_right-NoSemicolon : (s : Bytes) → NoSemicolon s → NoSemicolon (trim_right s)
unfolding contains_byte trim_right
trim_right-NoSemicolon [] h = refl
trim_right-NoSemicolon (c ∷ s) h = ground (arith, trim_right-NoSemicolon s)

ends_with-NoSemicolon : (s : Bytes) → NoSemicolon s → ends_with s semicolon ≡ false
unfolding contains_byte ends_with
ends_with-NoSemicolon [] h = refl
ends_with-NoSemicolon (c ∷ []) h = ground arith
ends_with-NoSemicolon (c ∷ d ∷ s) h = ends_with-NoSemicolon (d ∷ s) (ground arith)

line_open : (s : Bytes) → NoSemicolon s → ends_with (trim_space s) semicolon ≡ false
unfolding trim_space
line_open s h = ends_with-NoSemicolon _ (trim_right-NoSemicolon _ (trim_left-NoSemicolon s h))

grow-NoSemicolon :
    (c : ℕ) (lines : List Bytes)
    → (c == semicolon) ≡ false
    → All NoSemicolon lines
    → All NoSemicolon (grow c lines)
unfolding contains_byte
grow-NoSemicolon c [] h a = (ground arith, tt)
grow-NoSemicolon c (line ∷ lines) h a = (ground arith, a.1)

split_lines-NoSemicolon : (s : Bytes) → NoSemicolon s → All NoSemicolon (split_lines s)
unfolding contains_byte split_lines
split_lines-NoSemicolon [] h = (refl, tt)
split_lines-NoSemicolon (c ∷ s) h =
    let rest = split_lines-NoSemicolon s (ground arith) in
    elim (Bool-cases (c == b'\n')) [
      | inl newline ↦ rw newline (refl, rest)
      | inr other ↦ rw other (grow-NoSemicolon c (split_lines s) (ground arith) rest)
    ]

-- Lines without a semicolon flush nothing before the end.
parse_lines-single :
    (lines : List Bytes) (current : Bytes)
    → All NoSemicolon lines
    → length (parse_lines current lines) ≤ 1
unfolding parse_lines
parse_lines-single [] current a = ground arith
parse_lines-single (line ∷ lines) current a = ground (
  arith,
  line_open line a.0,
  parse_lines-single lines current a.1,
  parse_lines-single lines (current ++ (line ++ b'\n' ∷ [])) a.1,
)

-- A test for a text of one byte is a test for the byte, and upper case keeps a semicolon.
NoSemicolon-contains_upper :
    (s : Bytes) → contains_upper (to_upper s) (codes ";") ≡ false → NoSemicolon s
unfolding contains_upper contains contains_byte to_upper has_prefix
NoSemicolon-contains_upper [] h = refl
NoSemicolon-contains_upper (c ∷ s) h = ground (arith, NoSemicolon-contains_upper s)

-- A statement that ValidateSQLStatement accepts is cut into at most one statement by
-- parseSQLStatements.
pub parse_accepted :
    (s : Bytes) → validate_sql_statement s ≡ none → length (parse_sql_statements s) ≤ 1
unfolding parse_sql_statements
parse_accepted s h =
    let clean = validate_sql_statement-IsClean s h in
    parse_lines-single (split_lines s) []
      (split_lines-NoSemicolon s (NoSemicolon-contains_upper s clean.no_separator))
