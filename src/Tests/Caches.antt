-- ===== src/Tests/Caches.antt =====
-- plugin/query_cache.go, plugin/credential_cache.go and plugin/ratelimit.go on concrete inputs.
use openbao_teradata_secret.Common.{
  ℕ, ◌+◌, ◌≤◌, ◌≡◌, refl, true, [], ◌∷◌, Option, none, some, arith, length, ltb, ◌&&◌, not,
  if◌then◌else◌, ◌-◌,
}
use openbao_teradata_secret.Common.Bytes.{Bytes, codes, bytes_eq}
use openbao_teradata_secret.Common.Int.{pos}
use openbao_teradata_secret.Common.Map
use openbao_teradata_secret.Common.Map.{Map, lookup, insert, AllEntries}
use openbao_teradata_secret.CredentialCache
use openbao_teradata_secret.CredentialCache.{get_locked, get_expired, warm_cache}
use openbao_teradata_secret.CredentialCache.Eviction
use openbao_teradata_secret.CredentialCache.Eviction.{
  new_entry, set-keeps_live, set-grows, set-IsValid,
}
use openbao_teradata_secret.CredentialCache.Reads.{get-set, set-between_get}
use openbao_teradata_secret.Model.{Credential}
use openbao_teradata_secret.Outcome.{Outcome, ok}
use openbao_teradata_secret.QueryCache
use openbao_teradata_secret.QueryCache.{Entry, Cache, cleanup_expired}
use openbao_teradata_secret.QueryCache.Branches.{fresh_entry}
use openbao_teradata_secret.QueryCache.Coherence.{get-answer}
use openbao_teradata_secret.QueryCache.Eviction.{set_full-evicts}
use openbao_teradata_secret.QueryCache.History.{
  Call, set, exec, Ideal, note, Run, start, call, Run-IsValid,
}
use openbao_teradata_secret.QueryCache.Invariant.{IsValid}
use openbao_teradata_secret.RateLimit.{Bucket, Request, get_client_ip, Middleware, rate_limit}
use openbao_teradata_secret.RateLimit.Isolation.{bucket, is_limited, rate_limit_lem}

abbrev role_a : Bytes
role_a = codes "a"

abbrev role_b : Bytes
role_b = codes "b"

-- A cache for one entry, after two calls of `Set`.
abbrev first_call : Call ℕ
first_call = set role_a 7 1 1 1

abbrev second_call : Call ℕ
second_call = set role_b 8 2 2 2

abbrev empty_cache : Cache ℕ
empty_cache = QueryCache.new (pos 10) (pos 1)

abbrev one_entry : Cache ℕ
one_entry = exec first_call empty_cache

abbrev two_calls : Cache ℕ
two_calls = exec second_call one_entry

abbrev no_history : Ideal ℕ
no_history = λ j. none

abbrev history : Ideal ℕ
history = note one_entry.ttl second_call (note empty_cache.ttl first_call no_history)

two_calls-Run : Run (pos 10) (pos 1) two_calls history
unfolding QueryCache.new QueryCache.set exec
two_calls-Run =
    call second_call (omega arith, omega arith, refl)
      (call first_call (omega arith, omega arith, refl) start)

one_entry-Run : Run (pos 10) (pos 1) one_entry (note empty_cache.ttl first_call no_history)
one_entry-Run = call first_call (omega arith, omega arith, refl) start

get-answer_example : (expires : ℕ) × (history role_b ≡ some (8, expires)) × (5 ≤ expires)
unfolding QueryCache.get QueryCache.set QueryCache.new QueryCache.evict_lru exec lookup insert
    bytes_eq Map.delete
get-answer_example = get-answer (pos 10) (pos 1) two_calls history role_b 5 6 8 two_calls-Run refl

Run-IsValid_example : IsValid two_calls
Run-IsValid_example = Run-IsValid (pos 10) (pos 1) two_calls history two_calls-Run

set_full-evicts_example :
    (k : Bytes) × (x : Entry ℕ) × (lookup k one_entry.entries ≡ some x)
    × AllEntries (λ (e : Entry ℕ). x.access_time ≤ e.access_time) one_entry.entries
    × ((j : Bytes)
        → lookup j (QueryCache.set one_entry role_b 8 2 2 2).entries ≡ (
            if bytes_eq role_b j
            then some (fresh_entry one_entry role_b 8 2 2 2)
            else if bytes_eq k j
            then none
            else lookup j one_entry.entries))
unfolding QueryCache.set QueryCache.new exec lookup insert bytes_eq
set_full-evicts_example =
    set_full-evicts one_entry role_b 8 2 2 2
      (Run-IsValid (pos 10) (pos 1) one_entry _ one_entry-Run) refl (omega arith)

-- A credential cache for one entry, with the credential of a user of role b.
abbrev user : Bytes
user = codes "u"

abbrev other_user : Bytes
other_user = codes "v"

abbrev credential : Credential
credential = record {
  lease_id = codes "l";
  username = user;
  role_name = role_b;
  region = [];
  created_at = 1;
  expires_at = 9;
  last_renewed = 0;
}

abbrev no_credentials : CredentialCache.Cache
no_credentials = CredentialCache.new 10 1

abbrev one_credential : CredentialCache.Cache
one_credential = CredentialCache.set no_credentials user credential 1 1 1

no_credentials-IsValid : Eviction.IsValid no_credentials
unfolding CredentialCache.new
no_credentials-IsValid = record { distinct = tt; born = tt; aged = tt }

one_credential-IsValid : Eviction.IsValid one_credential
one_credential-IsValid =
    set-IsValid no_credentials user credential 1 1 1 (omega arith) (omega arith)
      no_credentials-IsValid

set-keeps_live_example :
    lookup user (CredentialCache.set one_credential other_user credential 5 5 5).entries ≡ (
      if bytes_eq other_user user
      then some (new_entry one_credential credential 5 5)
      else some (new_entry no_credentials credential 1 1))
unfolding CredentialCache.set CredentialCache.new lookup insert bytes_eq
set-keeps_live_example =
    set-keeps_live one_credential other_user credential 5 5 5 user
      (new_entry no_credentials credential 1 1) one_credential-IsValid refl (omega arith)

set-grows_example :
    length (CredentialCache.set one_credential other_user credential 5 5 5).entries
    ≡ length one_credential.entries + 1
unfolding CredentialCache.set CredentialCache.new lookup insert bytes_eq
set-grows_example =
    set-grows one_credential other_user credential 5 5 5 one_credential-IsValid refl
      (omega arith, tt)

get-set_example :
    (CredentialCache.get
      (CredentialCache.set one_credential other_user credential 5 5 5)
      other_user
      15).1
    ≡ some credential
unfolding CredentialCache.set CredentialCache.new lookup insert bytes_eq
get-set_example = get-set one_credential other_user credential 5 5 5 15 (omega arith)

set-between_get_example :
    (CredentialCache.get
      (get_expired
        (CredentialCache.set (get_locked one_credential user 20).0 user credential 20 20 20)
        user)
      user
      21).1
    ≡ none
unfolding get_locked CredentialCache.set CredentialCache.new lookup insert bytes_eq
set-between_get_example = set-between_get one_credential user credential 20 20 20 20 21 refl

abbrev load_credential : Bytes → Outcome Bytes (Option Credential)
load_credential username = ok (some credential)

-- A bucket of two tokens that is never refilled.
abbrev two_tokens : Bucket
two_tokens = record { Limiter = ℕ; new_limiter = 2; allow = λ now n. (n - 1, ltb 0 n) }

abbrev no_split : Bytes → Option Bytes
no_split addr = none

abbrev middleware : Middleware two_tokens
middleware = record { limiters = (codes "10.0.0.1", 0) ∷ []; enabled = true }

abbrev request : Request
request = record { path = codes "creds/a"; remote_addr = some (codes "10.0.0.1") }

rate_limit_lem_example :
    ((rate_limit two_tokens no_split middleware request 3).1 ≡ (
      if is_limited two_tokens middleware request
        && not
            (two_tokens.allow 3
              (bucket two_tokens middleware (get_client_ip no_split (some request)))).1
      then some (record { key = get_client_ip no_split (some request) })
      else none))
    × ((j : Bytes)
        → bucket two_tokens (rate_limit two_tokens no_split middleware request 3).0 j ≡ (
            if is_limited two_tokens middleware request
              && bytes_eq (get_client_ip no_split (some request)) j
            then (two_tokens.allow 3 (bucket two_tokens middleware j)).0
            else bucket two_tokens middleware j))
rate_limit_lem_example = rate_limit_lem two_tokens no_split middleware request 3
