-- ===== src/Tests/Leases.antt =====
-- plugin/path_extend_lease.go, plugin/query_cache.go and the checks of connection strings and session
-- variables on concrete inputs.
use openbao_teradata_secret.Common.{
  ℕ, ◌+◌, ◌-◌, ◌≤◌, ◌<◌, ◌*◌, ◌≡◌, refl, [], ◌∷◌, none, some, arith,
}
use openbao_teradata_secret.Common.Bytes.{Bytes, codes, bytes_eq, has_prefix, bytes_eq_iff}
use openbao_teradata_secret.Common.Int.{pos, pos_part}
use openbao_teradata_secret.Common.Map
use openbao_teradata_secret.Common.Map.{Map, lookup, insert}
use openbao_teradata_secret.Common.Map.Laws
use openbao_teradata_secret.CredentialCache
use openbao_teradata_secret.Credentials.{
  World, get_credential_by_lease_id, get_credential, find_lease, trim_prefix, store_credential,
}
use openbao_teradata_secret.Leases.{Times, Response, extend_lease, granted_ttl, wanted_ttl}
use openbao_teradata_secret.Leases.Extended.{
  IsExtended, renewed, extend_lease-IsExtended, extend_lease_bounds,
}
use openbao_teradata_secret.Loaded
use openbao_teradata_secret.Loaded.{
  Value, get_cached_role, get_cached_config, invalidate_role_cache, role_key, get_config,
}
use openbao_teradata_secret.Loaded.Reads.{get_cached_config-default}
use openbao_teradata_secret.Model.{Credential, Config, Role, second, is_expired}
use openbao_teradata_secret.Outcome.{Outcome, ok, err}
use openbao_teradata_secret.QueryCache
use openbao_teradata_secret.Retry.{Error, plain}
use openbao_teradata_secret.Roles.{get_role, migrate_role}
use openbao_teradata_secret.Storage.{Storage, IsReliable}

-- What the storage of the tests holds.
pub data Stored : Type 0 where
  of_credential : Credential → Stored
  of_stored_role : Role → Stored
  of_config : Config → Stored

abbrev unreadable : Error
unreadable = plain (codes "invalid JSON")

abbrev read_credential : Stored → Outcome Error Credential
read_credential (of_credential c) = ok c
read_credential (of_stored_role r) = err unreadable
read_credential (of_config c) = err unreadable

abbrev read_role : Stored → Outcome Error Role
read_role (of_credential c) = err unreadable
read_role (of_stored_role r) = ok r
read_role (of_config c) = err unreadable

abbrev read_config : Stored → Outcome Error Config
read_config (of_credential c) = err unreadable
read_config (of_stored_role r) = err unreadable
read_config (of_config c) = ok c

-- A storage in a map, with one credential listed.
abbrev pub memory : Storage
memory = record {
  State = Map Stored;
  Entry = Stored;
  get = λ k s. ok (lookup k s);
  put = λ k e s. (insert k e s, ok tt);
  delete = λ k s. (Map.delete k s, ok tt);
  list = λ k s. ok (codes "creds/u" ∷ []);
  encode_credential = λ c. ok (of_credential c);
  decode_credential = read_credential;
  encode_role = λ r. ok (of_stored_role r);
  decode_role = read_role;
  decode_config = read_config;
  decode_statement = λ e. err unreadable;
}

pub memory-IsReliable : IsReliable memory
memory-IsReliable = record {
  get-put = λ k e s s' h. ground (arith, Laws.lookup-insert_self k e s);
  get-put_ne = λ k j e s s' h d. ground (arith, Laws.lookup-insert k j e s, bytes_eq_iff k j);
  get-delete = λ k s s' h. ground (arith, Laws.lookup-delete k k s, bytes_eq_iff k k);
  get-delete_ne = λ k j s s' h d. ground (arith, Laws.lookup-delete k j s, bytes_eq_iff k j);
  decode-encode_credential = λ c e h. ground arith;
}

abbrev pub role : Role
role = record {
  name = codes "r";
  version = pos 4;
  username_prefix = [];
  username_suffix = [];
  default_ttl = pos 5;
  max_ttl = pos 10;
  statement_template = [];
  creation_statement = codes "GRANT r TO {{username}}";
  revocation_statement = [];
  rollback_statement = [];
  renewal_statement = [];
  default_database = [];
  perm_space = pos 0;
  spool_space = pos 0;
  max_credentials = pos 0;
  session_variables = none;
  password_policy = [];
}

abbrev pub config : Config
config = record {
  name = [];
  connection_string = codes "DSN=a";
  allowed_roles = [];
  session_variables = [];
  connection_string_template = [];
  server = [];
  port = pos 0;
  database = [];
  username = [];
  password = [];
  session_timeout = pos 0;
  query_timeout = pos 0;
  time_zone = [];
  character_set = [];
  max_result_rows = pos 0;
  max_retries = pos 0;
}

abbrev pub credential : Credential
credential = record {
  lease_id = codes "l";
  username = codes "u";
  role_name = codes "r";
  region = [];
  created_at = 1 * second;
  expires_at = 8 * second;
  last_renewed = 0;
}

abbrev pub state : Map Stored
state =
    (codes "roles/r", of_stored_role role)
    ∷ (codes "creds/u", of_credential credential)
    ∷ (codes "config", of_config config)
    ∷ []

abbrev pub world : World memory
world = record { store = state; cache = CredentialCache.new 10 10 }

-- A lease of a role whose maximum is ten seconds, extended six seconds after its creation.
abbrev times : Times
times = record {
  at_expiry = 7 * second;
  at_first_since = 7 * second;
  at_second_since = 7 * second;
  at_renewal = 7 * second;
  at_extension = 7 * second;
  at_cache = (7, 7, 7);
}

abbrev response : Response
response = record {
  credential = renewed memory credential (pos (4 * second)) times;
  ttl = pos (4 * second);
}

abbrev extended : World memory
extended = (extend_lease memory (codes "l") (pos 0) times world).0

extend_lease-IsExtended_example :
    (cred : Credential) × (username : Bytes) × (get_credential_by_lease_id memory
        (codes "l")
        world.store
      ≡ ok (some (cred, username)))
    × IsExtended memory (pos 0) times world extended response cred username
unfolding extend_lease get_credential_by_lease_id find_lease get_credential lookup bytes_eq
    trim_prefix has_prefix get_role migrate_role is_expired granted_ttl wanted_ttl store_credential
extend_lease-IsExtended_example =
    extend_lease-IsExtended memory (codes "l") (pos 0) times world extended response
      memory-IsReliable refl

extend_lease_bounds_example :
    (response.credential.expires_at
      ≤ credential.created_at + 10 * second + (times.at_extension - times.at_second_since))
    × (times.at_extension < response.credential.expires_at)
    × (response.credential.expires_at
        ≤ times.at_extension + pos_part (wanted_ttl (pos 0) role.default_ttl))
unfolding extend_lease get_credential_by_lease_id find_lease get_credential lookup bytes_eq
    trim_prefix has_prefix get_role migrate_role is_expired granted_ttl wanted_ttl store_credential
extend_lease_bounds_example =
    extend_lease_bounds memory (codes "l") (pos 0) times world extended response credential
      (codes "u") role 10 memory-IsReliable refl refl refl (omega arith) (omega arith) refl

abbrev clock : ℕ → Loaded.Times
clock t = record { get_expiry = t; get_touch = t; set_expiry = t; set_created = t; set_touch = t }

abbrev cache : QueryCache.Cache (Value ℕ)
cache = QueryCache.new (pos 10) (pos 10)

get_cached_config-default_example :
    (get_cached_config memory
      (codes "default")
      state
      (clock 9)
      (get_cached_config memory (codes "") state (clock 5) (some cache)).0).1
    ≡ ok (some config)
unfolding lookup QueryCache.new get_config bytes_eq
get_cached_config-default_example =
    get_cached_config-default memory state config (clock 5) (clock 9) cache refl refl (omega arith)
