-- ===== src/Tests/Loops.antt =====
-- retry/retry.go, plugin/path_extend_lease.go and plugin/backend.go on concrete inputs.
use openbao_teradata_secret.Common.{
  ◌⊎◌, ℕ, suc, zero, ◌+◌, ◌*◌, ◌≡◌, refl, [], Option, none, some, arith,
}
use openbao_teradata_secret.Common.Bytes.{codes}
use openbao_teradata_secret.Common.Int.{pos}
use openbao_teradata_secret.Degradation.{Flags, new_flags, set_manually_enabled_degradation}
use mathlib.Core.Bool.{true, false}
use mathlib.Core.List.{[]}
use openbao_teradata_secret.Leases.{Times}
use openbao_teradata_secret.Model.{Role, second}
use openbao_teradata_secret.Outcome.{Outcome, ok, err}
use openbao_teradata_secret.Retry.{
  Error, not_connected, Config, Context, budget, attempts, settle, is_retryable_error, do_retry,
  default_config,
}
use openbao_teradata_secret.Retry.Do.{do_retry_lem, do_retry-recovers}
use openbao_teradata_secret.Retry.Loop.{IsQuiet, once, again}

-- A context that never ends, and an operation that fails as often as its state says.
abbrev quiet : Context
quiet = record { done = λ i. none; slept = λ i. none }

quiet-IsQuiet : IsQuiet quiet
quiet-IsQuiet = record { not_done = λ i. refl; not_cut = λ i. refl }

abbrev flaky : ℕ → ℕ × Outcome Error (Unit {0})
flaky zero = (zero, ok tt)
flaky (suc n) = (n, err not_connected)

do_retry_lem_example :
    (is_retryable_error not_connected ≡ false)
    ⊎ ((do_retry quiet (some default_config) flaky 5).calls ≡ budget default_config)
    ⊎ ((i : ℕ) × ((quiet.done i ≡ some not_connected) ⊎ (quiet.slept i ≡ some not_connected)))
unfolding do_retry attempts settle is_retryable_error budget
do_retry_lem_example = do_retry_lem flaky quiet default_config 5 not_connected refl

do_retry-recovers_example :
    do_retry quiet (some default_config) flaky 2
    ≡ record { state = 0; calls = 2 + 1; outcome = ok tt }
unfolding budget is_retryable_error
do_retry-recovers_example =
    do_retry-recovers flaky quiet default_config not_connected 2 2 0 0 quiet-IsQuiet
      (again not_connected refl refl (once refl refl)) refl (omega arith)

abbrev zero_config : Config
zero_config = record { max_attempts = pos 0 }

abbrev unused : ℕ → ℕ × Outcome Error (Option ℕ)
unused n = (n, ok (some 1))

-- A lease of a role whose maximum is ten seconds, extended six seconds after its creation.
abbrev role : Role
role = record {
  name = codes "r";
  version = pos 4;
  username_prefix = [];
  username_suffix = [];
  default_ttl = pos 5;
  max_ttl = pos 10;
  statement_template = [];
  creation_statement = [];
  revocation_statement = [];
  rollback_statement = [];
  renewal_statement = [];
  default_database = [];
  perm_space = pos 0;
  spool_space = pos 0;
  max_credentials = pos 0;
  session_variables = none;
  password_policy = [];
}

abbrev times : Times
times = record {
  at_expiry = 7 * second;
  at_first_since = 7 * second;
  at_second_since = 7 * second;
  at_renewal = 7 * second;
  at_extension = 7 * second;
  at_cache = (0, 0, 0);
}

-- A check that finds nothing wrong after degradation was switched on by hand.
abbrev switched_on : Flags
switched_on = set_manually_enabled_degradation new_flags true 3
