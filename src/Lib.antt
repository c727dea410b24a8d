-- ===== src/Lib.antt =====
-- A model of the Teradata secrets engine for OpenBao, with the theorems that make it correct.
--
-- The plugin hands out database users. A role says how a user is made and how long it lives; a
-- credential that was handed out is kept in OpenBao's storage under `creds/`, with a cache before
-- it, and can be extended, renewed and revoked. Configurations, roles and statement templates are
-- kept in storage too, with a second cache before them. What users send is checked by package
-- security, what is sent to the database is cut up by package odbc, and calls of the database are
-- repeated by package retry. A rate limiter stands before the handlers.
--
-- Files and what they model:
--   Model              models/credential.go, models/config.go: stored records
--   QueryCache         plugin/query_cache.go: queryResultCache; a Go method `evictLRU` is the
--                      function `evict_lru` of the cache's state, and so on for every method
--   QueryCache/*       its branches, its invariant, its eviction, its runs and their refinement
--   Loaded             plugin/query_cache.go from line 231: keys, cached getters, invalidations;
--                      getConfig, getConfigByName, getStatement
--   Loaded/Reads       what the cached getters answer
--   CredentialCache    plugin/credential_cache.go; children Eviction and Reads
--   Oldest             the loops of evictLRU and evictOldest
--   Credentials        plugin/path_creds.go: credentials in storage and in the cache (`World`);
--                      child Listing
--   Leases             plugin/path_extend_lease.go; children Extend (the TTL) and Extended (the
--                      handler)
--   Roles              plugin/role_migrations.go and getRole of plugin/path_roles.go
--   Retry              retry/retry.go; children Loop and Do
--   RateLimit          plugin/ratelimit.go
--   Security/Sql       security/sql_validation.go: statements, usernames, templates; children Accepted
--                      and Refused
--   Security/Password  ValidatePassword, and generatePassword of plugin/path_creds.go
--   Security/Session   ValidateSessionVariables, and the session variables of plugin/path_creds.go
--   Security/Connection security/connection.go: ValidateConnectionString and its parser
--   Security/Mask      MaskConnectionString, GetConnectionStringInfo, SanitizeStringForSQL
--   Odbc/Statements    odbc/odbc.go: parseSQLStatements and the sending of its parts; children Single
--                      and Script (a text put together from statements)
--   Odbc/Client        odbc/odbc.go: `Connection`, how it is opened, closed, and sends statements
--   Odbc/KeepAlive     odbc/odbc.go: StartKeepAlive beside StopKeepAlive, as a step relation
--   Odbc/Build         odbc/odbc.go: how connection strings are built; children Joined, Fields and
--                      Settings (how they are parsed)
--   Odbc/Username      odbc/odbc.go: ValidateUsername
--   Database           what is used of database/sql with the ODBC driver (a parameter)
--   Registry           storage/db_registry.go: the data; children Defaults, Pools (the operations),
--                      Upkeep (what the jobs do), Runs (sequences of calls), Jobs and Shutdown (what
--                      `Shutdown` waits for)
--   Health             plugin/backend.go: IsPoolHealthy to CanOperate
--   Execution          plugin/path_creds.go: executeSQL and buildConnectionString
--   Issue              plugin/path_creds.go: pathCredsRead (child Making) and pathCredsBatchRead
--                      (child Batch); Permitted, Issued, Filled and Names are their proofs
--   Renew              plugin/path_renew_creds.go; child Unrenewed is its proof
--   Revoke             plugin/path_revoke_creds.go; child Bulk: plugin/path_bulk_revoke.go, child
--                      Lease: Revoke of plugin/backend.go; Never and Variables are their proofs
--   Degradation        plugin/backend.go: the flags of graceful degradation
--   Storage, Outcome   what is used of OpenBao's storage, and Go's results with a panic
--   Common             lists, texts, maps, integers
--   Tests              the theorems applied to concrete inputs
--
-- How the code is read. A method under a lock is a function of the state that it locks; a method
-- that gives its lock up on the way is as many functions as it has locked parts. A goroutine with a
-- ticker is its operation, called at any time. Every reading of the clock, every random draw and
-- every answer of the context is an argument. Times and durations are numbers of nanoseconds, TTLs
-- are signed whole seconds; the overflow of an int64 by more than 292 years is left out. Counters
-- are int64 bit patterns that wrap around. A Go map is a list of entries in the order in which
-- `range` visits them, and theorems hold of every such order. Texts are ASCII. Loops are structural
-- recursion on a list, on the attempts left or on the versions left, which run out only where the
-- source's loop ends. Fuel is added in two places: the rounds of `replaceVariable`, as many as
-- the text has opening braces and one more, and the digits of a number, one more round than the
-- number. A round takes away an opening brace where the value has none (where it has some, the
-- source may never end, and the model stops after its rounds); a digit divides the number by ten.
--
-- Parameters: storage and its JSON coding (`Storage`, with `IsReliable` where a theorem needs a
-- write to be read back), `Driver` for database/sql, the token bucket, `net.SplitHostPort`, SHA-256,
-- and the random sources.
--
-- Not modelled: the handlers that renew a batch of credentials and that list them, those of roles,
-- statements, configurations and static roles, Setup and HandleRequest of
-- plugin/backend.go, WaitForWarmup, the privilege helpers of odbc/odbc.go, the backoff of retry/retry.go, which is
-- floating point and random, and logging, audit, metrics, tracing, webhooks and the command, which
-- are input and output around the core.
pub mod Common
pub mod Oldest
pub mod Model
pub mod Outcome
pub mod QueryCache
pub mod CredentialCache
pub mod Security
pub mod Retry
pub mod Odbc
pub mod RateLimit
pub mod Storage
pub mod Roles
pub mod Loaded
pub mod Credentials
pub mod Leases
pub mod Degradation
pub mod Database
pub mod Registry
pub mod Health
pub mod Execution
pub mod Issue
pub mod Revoke
pub mod Renew
pub mod Tests
