-- ===== src/Tests/Texts.antt =====
-- security/sql_validation.go, security/connection.go, odbc/odbc.go and plugin/role_migrations.go on concrete inputs.
use openbao_teradata_secret.Common.{
  ℕ, ◌≤◌, ◌≡◌, ◌≢◌, ◌++◌, refl, ◌⊎◌, inl, inr, List, [], ◌∷◌, none, some, All, arith, length,
}
use openbao_teradata_secret.Common.Bytes.{
  Bytes, codes, trim_space, contains, upper_byte, has_prefix, contains_byte, to_upper, to_lower,
  bytes_eq, index,
}
use openbao_teradata_secret.Common.Int.{pos, ltbℤ, ◌≤ℤ◌}
use openbao_teradata_secret.Model.{Role, role_version}
use openbao_teradata_secret.Odbc.Statements.{parse_sql_statements}
use openbao_teradata_secret.Odbc.Statements.Single.{parse_accepted}
use mathlib.Core.Bool.{true}
use openbao_teradata_secret.Outcome.{ok, err}
use openbao_teradata_secret.Retry.{Error, plain}
use openbao_teradata_secret.Roles.{migrate_role}
use openbao_teradata_secret.Roles.Migration.{no_path, migrate_role_lem}
use openbao_teradata_secret.Security.Mask.{
  mask_connection_string, is_sensitive_key, sanitize_string_for_sql,
}
use openbao_teradata_secret.Security.Mask.Hidden.{
  mask_connection_string-Alike, read_literal, others_doubled, read_literal-sanitize_string_for_sql,
}
use openbao_teradata_secret.Security.Password.{validate_password, generate_password}
use openbao_teradata_secret.Security.Password.Generated.{generate_password_lem}
use openbao_teradata_secret.Security.Sql.{
  validate_sql_statement, validate_patterns, validate_keywords, detect_statement_type,
}
use openbao_teradata_secret.Security.Sql.Refused.{opens, IsForbidden-refused}
use openbao_teradata_secret.Security.Connection.{parse_connection_string}
use openbao_teradata_secret.Security.Connection.Parsed.{
  IsPlainPair, render, stored, parse_connection_string-render,
}
use openbao_teradata_secret.Security.Session.{
  validate_session_variables, validate_each, validate_session_variable, build_session_variable_sql,
}
use openbao_teradata_secret.Security.Session.Safe.{IsWhole, build_session_variable_sql-IsWhole}
use openbao_teradata_secret.Common.Map.{Map, insert}
use openbao_teradata_secret.Storage.{Storage}

abbrev grant_text : Bytes
grant_text = codes "GRANT SELECT ON db TO u"

abbrev create_text : Bytes
create_text = codes "Create user u"

IsForbidden-refused_example : validate_sql_statement create_text ≢ none
unfolding bytes_eq to_upper upper_byte
IsForbidden-refused_example =
    IsForbidden-refused create_text
      (opens (codes "Create") (codes "user u") b' ' refl refl refl refl refl)

grant_text-accepted : validate_sql_statement grant_text ≡ none
unfolding validate_sql_statement trim_space contains validate_patterns to_upper validate_keywords
    detect_statement_type bytes_eq index
grant_text-accepted = refl

parse_accepted_example : length (parse_sql_statements grant_text) ≤ 1
parse_accepted_example = parse_accepted grant_text grant_text-accepted

abbrev password : Bytes
password = codes "Abc123!x"

abbrev sixteen_draws : List ℕ
sixteen_draws = 0 ∷ 1 ∷ 2 ∷ 3 ∷ 4 ∷ 5 ∷ 6 ∷ 7 ∷ 8 ∷ 9 ∷ 10 ∷ 11 ∷ 12 ∷ 13 ∷ 14 ∷ 63 ∷ []

abbrev first_draw : ℕ → ℕ → ℕ
first_draw i n = 0

generate_password_lem_example :
    (validate_password (generate_password true sixteen_draws first_draw) ≡ none)
    × (length (generate_password true sixteen_draws first_draw) ≡ length sixteen_draws)
generate_password_lem_example =
    generate_password_lem sixteen_draws first_draw (omega arith) (omega arith) (omega arith)
      (λ i n h. h)

abbrev old_role : Role
old_role = record {
  name = codes "r";
  version = pos 3;
  username_prefix = [];
  username_suffix = [];
  default_ttl = pos 5;
  max_ttl = pos 10;
  statement_template = [];
  creation_statement = [];
  revocation_statement = [];
  rollback_statement = [];
  renewal_statement = [];
  default_database = [];
  perm_space = pos 0;
  spool_space = pos 0;
  max_credentials = pos 0;
  session_variables = none;
  password_policy = [];
}

migrate_role_lem_example :
    ((role_version ≤ℤ old_role.version) × (migrate_role old_role ≡ ok old_role))
    ⊎ ((ltbℤ old_role.version role_version ≡ true) × (migrate_role old_role ≡ err no_path))
migrate_role_lem_example = migrate_role_lem old_role

-- A storage that holds one role under every key.
abbrev unknown_error : Error
unknown_error = plain []

abbrev one_role : Storage
one_role = record {
  State = Unit;
  Entry = Role;
  get = λ k s. ok (some old_role);
  put = λ k e s. (s, err unknown_error);
  delete = λ k s. (s, err unknown_error);
  list = λ k s. ok [];
  encode_credential = λ c. err unknown_error;
  decode_credential = λ e. err unknown_error;
  encode_role = λ r. ok r;
  decode_role = λ e. ok e;
  decode_config = λ e. err unknown_error;
  decode_statement = λ e. err unknown_error;
}

abbrev pairs : List (Bytes × Bytes)
pairs = (codes "A", codes "b=") ∷ (codes "c", codes "d") ∷ []

pairs-IsPlain : All IsPlainPair pairs
pairs-IsPlain = (
  (refl, (refl, tt), ((refl, refl, refl, refl), ((refl, refl, refl, refl), tt))),
  ((refl, (refl, tt), ((refl, refl, refl, refl), tt)), tt),
)

parse_connection_string-render_example :
    parse_connection_string (render pairs) ≡ some (stored pairs [])
parse_connection_string-render_example = parse_connection_string-render pairs pairs-IsPlain

abbrev connection_text : Bytes
connection_text = codes "DSN=a;uid=b"

abbrev variables : Map Bytes
variables = (codes "zone", codes "utc") ∷ []

build_session_variable_sql-IsWhole_example : All IsWhole (build_session_variable_sql variables)
unfolding validate_session_variables validate_each validate_session_variable contains_byte contains
    to_upper index
build_session_variable_sql-IsWhole_example = build_session_variable_sql-IsWhole variables refl

-- Two connection strings that differ in their password.
abbrev first_secret : Bytes
first_secret = codes "pwd=a;b=c"

abbrev second_secret : Bytes
second_secret = codes "pwd=x;b=c"

mask_connection_string-Alike_example :
    mask_connection_string first_secret ≡ mask_connection_string second_secret
unfolding parse_connection_string is_sensitive_key trim_space to_lower insert bytes_eq contains
mask_connection_string-Alike_example =
    mask_connection_string-Alike first_secret second_secret
      ((codes "pwd", codes "a") ∷ (codes "b", codes "c") ∷ [])
      ((codes "pwd", codes "x") ∷ (codes "b", codes "c") ∷ []) refl refl refl refl
      (refl, inl refl, (refl, inr refl, tt))

read_literal-sanitize_string_for_sql_example :
    read_literal 39 (sanitize_string_for_sql (39 ∷ 34 ∷ []) ++ 39 ∷ codes " OR")
    ≡ some (others_doubled 39 (39 ∷ 34 ∷ []), codes " OR")
unfolding has_prefix
read_literal-sanitize_string_for_sql_example =
    read_literal-sanitize_string_for_sql 39 (39 ∷ 34 ∷ []) (codes " OR") (inl refl) refl
