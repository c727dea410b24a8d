-- ===== src/Odbc/Statements.antt =====
-- odbc/odbc.go: how a text of several statements is cut up before it is sent
-- (`parseSQLStatements`, `executeMultipleStatementsOnce`, `normalizeGrantStatement`,
-- `executeGrantStatementsOnce`). The driver's `ExecContext` is the parameter `exec`.
pub mod Single
pub mod Script
use openbao_teradata_secret.Common.{
  ℕ, Bool, true, false, not, ◌&&◌, List, [], ◌∷◌, ◌++◌, Option, none, some, ◌==◌, if◌then◌else◌,
}
use openbao_teradata_secret.Common.Bytes.{
  Bytes, codes, is_empty, has_prefix, to_upper, trim_space, ends_with,
}
use openbao_teradata_secret.Outcome.{Outcome, ok, err, panic, ◌>>=◌}
use openbao_teradata_secret.Retry.{Error}

-- Puts a byte before the first line.
abbrev pub grow : ℕ → List Bytes → List Bytes
grow c [] = (c ∷ []) ∷ []
grow c (line ∷ lines) = (c ∷ line) ∷ lines

-- `strings.Split(sql, "\n")`
unfoldable pub split_lines : Bytes → List Bytes
split_lines [] = [] ∷ []
split_lines (c ∷ s) = let lines = split_lines s in if c == b'\n' then [] ∷ lines else grow c lines

-- The loop of `parseSQLStatements` over the lines, with the text gathered so far.
unfoldable pub parse_lines : Bytes → List Bytes → List Bytes
parse_lines current [] = if is_empty current then [] else current ∷ []
parse_lines current (line ∷ lines) =
    let trimmed = trim_space line in
    let gathered = current ++ (line ++ b'\n' ∷ []) in
    let skipped = parse_lines current lines in
    let flushed = parse_lines [] lines in
    let kept = parse_lines gathered lines in
    if is_empty trimmed
    then skipped
    else if ends_with trimmed b';'
    then gathered ∷ flushed
    else kept

-- `parseSQLStatements`
unfoldable pub parse_sql_statements : Bytes → List Bytes
unfolding parse_lines split_lines
parse_sql_statements sql = parse_lines [] (split_lines sql)

-- `strings.TrimSuffix(s, ";")`
unfoldable pub trim_semicolon : Bytes → Bytes
trim_semicolon [] = []
trim_semicolon (c ∷ s) = if c == b';' && is_empty s then [] else c ∷ trim_semicolon s

-- What the loop of `executeMultipleStatementsOnce` makes of a statement; `none` is `continue`.
unfoldable pub to_send : Bytes → Option Bytes
unfolding trim_semicolon
to_send stmt =
    let trimmed = trim_space stmt in
    if is_empty trimmed
    then none
    else (let bare = trim_space (trim_semicolon trimmed) in
        if is_empty bare then none else some bare)

-- `normalizeGrantStatement`, and what `executeGrantStatementsOnce` makes of a statement.
unfoldable pub normalize_grant_statement : Bytes → Bytes
normalize_grant_statement stmt =
    let trimmed = trim_space stmt in
    if not (has_prefix (trim_space (to_upper trimmed)) (codes "GRANT")) then [] else trimmed

unfoldable pub grant_to_send : Bytes → Option Bytes
unfolding normalize_grant_statement
grant_to_send stmt =
    let trimmed = trim_space stmt in
    if is_empty trimmed
    then none
    else (let grant = normalize_grant_statement trimmed in
        if is_empty grant then none else some grant)

-- Sends the statements in order, up to the first error.
module _ {S : Type 0} (exec : Bytes → S → S × Outcome Error (Unit {0})) where
  unfoldable pub send : (Bytes → Option Bytes) → List Bytes → S → S × Outcome Error (Unit {0})
  send prepare [] s = (s, ok tt)
  send prepare (stmt ∷ stmts) s = elim (prepare stmt) [
    | none ↦ send prepare stmts s
    | some text ↦
        let (s', result) = exec text s in
        elim result [ ok _ ↦ send prepare stmts s' | err e ↦ (s', err e) | panic ↦ (s', panic) ]
  ]

  -- `executeMultipleStatementsOnce`
  unfoldable pub execute_multiple_once : Bytes → S → S × Outcome Error (Unit {0})
  unfolding send
  execute_multiple_once sql = send to_send (parse_sql_statements sql)

  -- `executeGrantStatementsOnce`
  unfoldable pub execute_grants_once : Bytes → S → S × Outcome Error (Unit {0})
  unfolding send
  execute_grants_once sql = send grant_to_send (parse_sql_statements sql)
