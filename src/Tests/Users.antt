-- ===== src/Tests/Users.antt =====
-- plugin/path_creds.go, plugin/path_revoke_creds.go, plugin/path_bulk_revoke.go, `Revoke` of
-- plugin/backend.go and the texts of odbc/odbc.go on concrete inputs.
use openbao_teradata_secret.Common.{
  ℕ, ◌+◌, ◌≡◌, refl, true, List, All, [], ◌∷◌, none, some, length, arith,
}
use openbao_teradata_secret.Common.Bytes.{Bytes, codes}
use openbao_teradata_secret.Common.Decimal.{decimal}
use openbao_teradata_secret.Common.Int.{pos}
use openbao_teradata_secret.Degradation.{new_flags}
use openbao_teradata_secret.Execution.{build_connection_string, execute_sql}
use openbao_teradata_secret.Execution.Sent.{AreExecuted, execute_sql-ok}
use openbao_teradata_secret.Odbc.Statements.Script.{IsStatement, script}
use openbao_teradata_secret.Issue.{Plan, Draws, PasswordDraws, Times, generate_username, fill_in}
use openbao_teradata_secret.Issue.Batch.{
  BatchResponse, path_creds_batch_read, batch_plan, batch_count, clamp, issue_each,
}
use openbao_teradata_secret.Issue.Batch.Counted.{IsWithin, path_creds_batch_read-IsWithin}
use openbao_teradata_secret.Issue.Issued.{IsIssued, path_creds_read-IsIssued}
use openbao_teradata_secret.Issue.Making.{State, Sql, Response, path_creds_read, new_credential}
use openbao_teradata_secret.Issue.Filled.{
  Piece, plain_text, the_username, the_password, template, put_together, fill_in-template,
}
use openbao_teradata_secret.Issue.Names.{validate_username-generate_username}
use openbao_teradata_secret.Issue.Permitted.{IsPermitted}
use openbao_teradata_secret.Odbc.Build.{
  TeradataConnectionConfig, settings, build_teradata_connection_string, replace_all,
}
use openbao_teradata_secret.Odbc.Build.Settings.{
  IsReadBack, parse-build_teradata_connection_string-IsReadBack,
}
use openbao_teradata_secret.Odbc.Username.{validate_username, username_too_long}
use openbao_teradata_secret.Outcome.{ok}
use openbao_teradata_secret.Renew
use openbao_teradata_secret.Renew.{path_renew_creds}
use openbao_teradata_secret.Renew.Unrenewed.{path_renew_creds-IsFailure}
use openbao_teradata_secret.Retry.{Context, plain}
use openbao_teradata_secret.Revoke.{path_revoke_creds, replace_variable}
use openbao_teradata_secret.Revoke.Bulk.{count_revoked, path_bulk_revoke_creds}
use openbao_teradata_secret.Revoke.Lease.{lease_names, revoke_lease}
use openbao_teradata_secret.Revoke.Lease.{revoke_lease-ok}
use openbao_teradata_secret.Revoke.Never.{
  IsFailure, path_revoke_creds-IsFailure, path_bulk_revoke_creds-none,
}
use openbao_teradata_secret.Revoke.Variables.{replace_variable_done}
use openbao_teradata_secret.Security.Connection.{parse_connection_string}
use openbao_teradata_secret.Tests.Leases.{memory, memory-IsReliable, world, config, role}
use openbao_teradata_secret.Tests.Pools.{counting, quiet, no_pools}
use openbao_teradata_secret.Issue.{
  plan, check_quota, check_prefix, find_config, find_statements, is_role_allowed, check_degradation,
  hex, password_for,
}
use openbao_teradata_secret.Issue.Making.{issue, create_user, record_credential}
use openbao_teradata_secret.Roles.{get_role, migrate_role}
use openbao_teradata_secret.Loaded.{get_config}
use openbao_teradata_secret.Degradation.{should_use_degradation}
use openbao_teradata_secret.Health.{
  is_pool_healthy, can_operate, are_all_pools_healthy, get_degradation_status,
}
use openbao_teradata_secret.Registry.Pools.{get_connection, list_connections}
use openbao_teradata_secret.Security.Password.{generate_password, validate_password}
use openbao_teradata_secret.Odbc.Username.{has_injection_pattern, has_sql_keyword}
use openbao_teradata_secret.Common.Bytes.{bytes_eq, contains, to_upper, upper_byte, contains_byte}
use openbao_teradata_secret.Credentials.{store_credential, cache_credential}
use openbao_teradata_secret.Security.Session.{merge_session_variables}
use openbao_teradata_secret.Common.Map.{Map, lookup, insert}
use openbao_teradata_secret.Retry.{do_retry}
use openbao_teradata_secret.Retry.{attempts}
use openbao_teradata_secret.Retry.{budget}
use openbao_teradata_secret.Retry.{settle}
use openbao_teradata_secret.Execution.{build_retry_config}
use openbao_teradata_secret.Odbc.Client.{connect}
use openbao_teradata_secret.Odbc.Client.{execute_multiple_statements}
use openbao_teradata_secret.Common.Bytes.{trim_space}
use openbao_teradata_secret.Common.Bytes.{ends_with}
use openbao_teradata_secret.Odbc.Statements.{execute_multiple_once}
use openbao_teradata_secret.Odbc.Statements.{parse_sql_statements}
use openbao_teradata_secret.Odbc.Statements.{to_send}

abbrev in_order : List (Bytes × Bytes) → List (Bytes × Bytes)
in_order params = params

abbrev calm : ℕ → Context
calm w = quiet

-- `executeSQL` that always succeeds.
abbrev sql : Sql counting
sql = λ cfg text w. (w + 1, ok tt)

-- A password of all classes.
abbrev password_draws : PasswordDraws
password_draws = record {
  read = true;
  draws = 0 ∷ 26 ∷ 52 ∷ 62 ∷ 0 ∷ 26 ∷ 52 ∷ 62 ∷ 0 ∷ 26 ∷ 52 ∷ 62 ∷ 0 ∷ 26 ∷ 52 ∷ 62 ∷ [];
  fix = λ i n. 0;
}

abbrev eight_bytes : List ℕ
eight_bytes = 1 ∷ 2 ∷ 3 ∷ 4 ∷ 5 ∷ 6 ∷ 7 ∷ 8 ∷ []

abbrev draws : Draws
draws = record {
  suffix = some eight_bytes;
  password = password_draws;
  policy_password = password_draws;
}

abbrev times : Times
times = record { at_expiry = 1; at_creation = 1; at_cache = (1, 1, 1) }

abbrev before : State memory counting
before = record { creds = world; world = 0 }

abbrev role_name : Bytes
role_name = codes "r"

abbrev plan_read : Plan
plan_read = record {
  role = role;
  config = config;
  creation = role.creation_statement;
  rollback = [];
}

abbrev response : Response memory counting sql
response = record {
  made = record {
    password = codes "aA0!aA0!aA0!aA0!";
    credential =
        new_credential memory counting sql plan_read role_name [] (codes "vault_0102030405060708")
          times;
  };
  ttl = pos 5;
  max_ttl = pos 10;
  session_variables = [];
  has_secret = true;
}

path_creds_read-IsIssued_example :
    (p : Plan) × IsPermitted memory counting new_flags
      (some no_pools)
      role_name
      []
      before.creds.store
      p
    × IsIssued memory counting sql p role_name [] draws times before
        (path_creds_read memory counting sql new_flags
          (some no_pools)
          role_name
          []
          draws
          times
          before).0
        response.made
unfolding path_creds_read plan issue get_role migrate_role check_quota check_prefix find_config
    get_config is_role_allowed check_degradation should_use_degradation is_pool_healthy
    get_connection can_operate are_all_pools_healthy get_degradation_status list_connections
    find_statements generate_username hex password_for generate_password validate_username
    has_injection_pattern has_sql_keyword contains to_upper upper_byte contains_byte
    validate_password create_user record_credential store_credential cache_credential
    merge_session_variables lookup insert bytes_eq
path_creds_read-IsIssued_example =
    path_creds_read-IsIssued memory counting sql new_flags (some no_pools) role_name [] draws times
      before response memory-IsReliable refl

abbrev batch_response : BatchResponse memory counting sql
batch_response = record {
  credentials = response.made ∷ [];
  ttl = pos 5;
  max_ttl = pos 10;
  session_variables = [];
  has_secret = true;
}

path_creds_batch_read-IsWithin_example :
    (p : Plan) × IsPermitted memory counting new_flags
      (some no_pools)
      role_name
      []
      before.creds.store
      p
    × IsWithin memory p.role role_name before.creds.store (length batch_response.credentials)
unfolding path_creds_batch_read batch_plan batch_count clamp issue_each plan issue get_role
    migrate_role check_quota check_prefix find_config get_config is_role_allowed check_degradation
    should_use_degradation is_pool_healthy get_connection can_operate are_all_pools_healthy
    get_degradation_status list_connections find_statements generate_username hex password_for
    generate_password validate_username has_injection_pattern has_sql_keyword contains to_upper
    upper_byte contains_byte validate_password create_user record_credential store_credential
    cache_credential merge_session_variables lookup insert bytes_eq
path_creds_batch_read-IsWithin_example =
    path_creds_batch_read-IsWithin memory counting sql new_flags (some no_pools) role_name []
      (pos 0) (λ i. draws) (λ i. times) before batch_response refl

abbrev drop_user : Bytes
drop_user = codes "DROP USER u"

drop_user-IsStatement : All IsStatement (drop_user ∷ [])
unfolding contains_byte ends_with
drop_user-IsStatement =
    (record { starts_dense = refl; ends_dense = refl; one_line = refl; unfinished = refl }, tt)

execute_sql-ok_example :
    (conn_string : Bytes) × (build_connection_string in_order config ≡ ok conn_string)
    × AreExecuted counting conn_string
        (drop_user ∷ [])
        (execute_sql counting in_order calm quiet config (script (drop_user ∷ [])) 0).0
unfolding execute_sql build_connection_string do_retry attempts budget build_retry_config settle
    connect execute_multiple_statements trim_space execute_multiple_once parse_sql_statements
    ends_with to_send
execute_sql-ok_example =
    execute_sql-ok counting in_order calm quiet config drop_user [] 0 drop_user-IsStatement refl

path_revoke_creds-IsFailure_example :
    IsFailure memory counting calm quiet before
      (path_revoke_creds memory counting calm quiet (codes "u") 1 (1, 1, 1) before)
path_revoke_creds-IsFailure_example =
    path_revoke_creds-IsFailure memory counting calm quiet (codes "u") 1 (1, 1, 1) before

validate_username-generate_username_example :
    validate_username (generate_username (codes "fourteen_bytes") [] (some eight_bytes))
    ≡ some username_too_long
validate_username-generate_username_example =
    validate_username-generate_username (codes "fourteen_bytes") eight_bytes (omega arith) refl

replace_variable_done_example :
    replace_all
      (codes "{{username}}")
      (codes "u")
      0
      (replace_variable (codes "{{{{username}}username}}") (codes "{{username}}") (codes "u"))
    ≡ replace_variable (codes "{{{{username}}username}}") (codes "{{username}}") (codes "u")
replace_variable_done_example =
    replace_variable_done (codes "{{{{username}}username}}") (codes "{username}}") (codes "u") refl
      refl

revoke_lease-ok_example : lease_names (codes "other/creds/r/u") ≡ none
unfolding revoke_lease bytes_eq
revoke_lease-ok_example =
    revoke_lease-ok memory counting calm quiet (codes "other/creds/r/u") 1 (1, 1, 1) before refl

abbrev bad_name : Bytes
bad_name = codes "u;"

path_bulk_revoke_creds-none_example :
    count_revoked ((bad_name, some (plain (codes "invalid username: "))) ∷ []) ≡ 0
unfolding path_bulk_revoke_creds get_config lookup bytes_eq validate_username has_injection_pattern
    contains to_upper
path_bulk_revoke_creds-none_example =
    path_bulk_revoke_creds-none memory counting calm quiet (some (bad_name ∷ []))
      (λ ns. (1, (1, 1, 1))) before ((bad_name, some (plain (codes "invalid username: "))) ∷ [])
      refl

abbrev server : TeradataConnectionConfig
server = record {
  dsn = [];
  server = codes "db";
  servers = [];
  port = pos 1025;
  database = [];
  username = codes "u";
  password = codes "p";
  connection_timeout = pos 0;
  query_timeout = pos 0;
  session_mode = [];
  account = [];
  ssl_mode = [];
  ssl_cert = [];
  ssl_key = [];
  ssl_root_cert = [];
  ssl_key_password = [];
  ssl_cipher_suites = [];
  ssl_secure = true;
  ssl_version = [];
}

parse-build_teradata_connection_string-IsReadBack_example :
    (m : Map Bytes) × (parse_connection_string (build_teradata_connection_string server) ≡ some m)
    × IsReadBack server m
unfolding settings decimal
parse-build_teradata_connection_string-IsReadBack_example =
    parse-build_teradata_connection_string-IsReadBack server (ground arith)

abbrev renewal_times : Renew.Times
renewal_times = record {
  at_lookup = 1;
  at_lookup_cache = (1, 1, 1);
  at_renewal = 1;
  at_expiry = 1;
  at_cache = (1, 1, 1);
}

path_renew_creds-IsFailure_example :
    IsFailure memory counting calm quiet before
      (path_renew_creds memory counting calm quiet (codes "u") password_draws renewal_times before)
path_renew_creds-IsFailure_example =
    path_renew_creds-IsFailure memory counting calm quiet (codes "u") password_draws renewal_times
      before

abbrev grant_pieces : List Piece
grant_pieces = plain_text (codes "GRANT r TO ") ∷ the_username ∷ the_password ∷ []

fill_in-template_example :
    fill_in (codes "u") (codes "{{username}}") (template grant_pieces)
    ≡ put_together (codes "u") (codes "{{username}}") grant_pieces
unfolding contains_byte
fill_in-template_example =
    fill_in-template (codes "u") (codes "{{username}}") grant_pieces refl (refl, (tt, (tt, tt)))
