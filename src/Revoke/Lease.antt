-- ===== src/Revoke/Lease.antt =====
-- plugin/backend.go, lines 428-534: `Revoke`, which the host calls for a lease. The audit log and the
-- webhook are not modelled.
use openbao_teradata_secret.Common.{
  ℕ, ◌≡◌, refl, ap, ◌⊎◌, inl, inr, ◌&&◌, ◌==◌, List, [], ◌∷◌, ◌++◌, Option, none, some, Bool-cases,
  Option-cases, if◌then◌else◌,
}
use openbao_teradata_secret.Common.Bytes.{Bytes, codes, is_empty, bytes_eq}
use openbao_teradata_secret.Credentials.{
  SetTimes, get_cached_credential, invalidate_cached_credential,
}
use openbao_teradata_secret.Database.{Driver}
use openbao_teradata_secret.Issue.Making.{State}
use openbao_teradata_secret.Loaded.{get_config, get_config_by_name}
use openbao_teradata_secret.Model.{Credential, Config, Role}
use openbao_teradata_secret.Odbc.Build.{replace_all, append_session_timeout, append_query_timeout}
use openbao_teradata_secret.Odbc.Client.{close}
use openbao_teradata_secret.Outcome.{Outcome, ok, err, panic, ◌>>=◌, Outcome-cases}
use openbao_teradata_secret.Retry.{Error, plain, Context, do_retry, wrap}
use openbao_teradata_secret.Revoke.{connect_to, run_statement}
use openbao_teradata_secret.Roles.{get_role}
use openbao_teradata_secret.Storage.{Storage}

-- `strings.Split(s, "/")`
abbrev pub grow_part : ℕ → List Bytes → List Bytes
grow_part c [] = (c ∷ []) ∷ []
grow_part c (part ∷ parts) = (c ∷ part) ∷ parts

unfoldable pub split_slashes : Bytes → List Bytes
split_slashes [] = [] ∷ []
split_slashes (c ∷ s) =
    let parts = split_slashes s in if c == b'/' then [] ∷ parts else grow_part c parts

-- The role and the user name that a lease's name gives; `none` where `Revoke` returns nil at once.
unfoldable pub lease_names : Bytes → Option (Bytes × Bytes)
unfolding split_slashes
lease_names lease_id = elim (split_slashes lease_id) [
  | [] ↦ none
  | a ∷ [] ↦ none
  | a ∷ b ∷ [] ↦ none
  | a ∷ b ∷ c ∷ [] ↦ none
  | a ∷ b ∷ role_name ∷ username ∷ more ↦
      if bytes_eq a (codes "teradata") && bytes_eq b (codes "creds")
      then some (role_name, username)
      else none
]

module _ (st : Storage) (d : Driver) (inner : d.State → Context) where
  -- The configuration of the credential's region.
  unfoldable pub lease_config : Option Credential → st.State → Outcome Error Config
  lease_config cred s =
      let region : Bytes = elim cred [ none ↦ [] | some c ↦ c.region ] in
      (if is_empty region
        then wrap (codes "failed to get config for revocation: ") (get_config st s)
        else wrap (codes "failed to get region config for revocation: ")
            (get_config_by_name st region s))
      >>= λ found. elim found [
        | none ↦ err (plain (codes "configuration not found"))
        | some cfg ↦ ok cfg
      ]

  -- A statement on a connection of its own.
  unfoldable pub run_alone : Context → Bytes → Bytes → d.State → d.State × Outcome Error (Unit {0})
  unfolding connect_to run_statement
  run_alone ctx conn_string sql w =
      let run = do_retry ctx none (connect_to d conn_string) (w, none) in
      elim run.outcome [
        | err e ↦ (run.state.0, wrap (codes "failed to connect for revocation: ") (err e))
        | panic ↦ (run.state.0, panic)
        | ok u ↦ elim run.state.1 [
          | none ↦ (run.state.0, panic)
          | some c ↦
              let (w', result) = run_statement d inner ctx c sql run.state.0 in
              ((close d c w').0.0, wrap (codes "failed to revoke credential: ") result)
        ]
      ]

  -- The revocation statement of a role that may be gone.
  unfoldable pub run_revocation :
      Context → Bytes → Option Role → Bytes → d.State → d.State × Outcome Error (Unit {0})
  unfolding run_alone
  run_revocation ctx conn_string none username w = (w, ok tt)
  run_revocation ctx conn_string (some r) username w =
      if is_empty r.revocation_statement
      then (w, ok tt)
      else run_alone ctx conn_string
          (replace_all (codes "{{username}}") username 0 r.revocation_statement) w

  -- The revocation statement, whose errors are not read, and then the drop.
  unfoldable pub revoke_with :
      Context → Bytes → Option Role → Bytes → d.State → d.State × Outcome Error (Unit {0})
  unfolding run_alone run_revocation
  revoke_with ctx conn_string role username w =
      let (w1, revoked) = run_revocation ctx conn_string role username w in
      let dropped = run_alone ctx conn_string (codes "DROP USER " ++ username) w1 in
      elim revoked [ panic ↦ (w1, panic) | ok u ↦ dropped | err e ↦ dropped ]

  -- What `Revoke` reads: the configuration and the role.
  unfoldable pub lease_plan :
      Bytes → Option Credential → st.State → Outcome Error (Config × Option Role)
  unfolding lease_config
  lease_plan role_name cred s = lease_config cred s >>= λ cfg.
      wrap (codes "failed to get role for revocation: ") (get_role st role_name s) >>= λ role.
      ok (cfg, role)

  -- `Revoke`
  unfoldable pub revoke_lease :
      Context → Bytes → ℕ → SetTimes → State st d → State st d × Outcome Error (Unit {0})
  unfolding lease_names lease_plan revoke_with
  revoke_lease ctx lease_id now times s = elim (lease_names lease_id) [
    | none ↦ (s, ok tt)
    | some (role_name, username) ↦
        let (creds', found) = get_cached_credential st username now times s.creds in
        let s1 = record s { creds = creds' } in
        elim found [
          | err e ↦ (s1, wrap (codes "failed to get credential for revocation: ") (err e))
          | panic ↦ (s1, panic)
          | ok cred ↦ elim (lease_plan role_name cred creds'.store) [
            | err e ↦ (s1, err e)
            | panic ↦ (s1, panic)
            | ok (cfg, role) ↦
                let conn_string =
                  append_query_timeout
                    (append_session_timeout cfg.connection_string cfg.session_timeout)
                    cfg.query_timeout in
                let (w, revoked) = revoke_with ctx conn_string role username s.world in
                elim revoked [
                  | err e ↦ (record s1 { world = w }, err e)
                  | panic ↦ (record s1 { world = w }, panic)
                  | ok u ↦ (
                    record { creds = invalidate_cached_credential st username creds'; world = w },
                    ok tt,
                  )
                ]
          ]
        ]
  ]

  run_revocation_cases :
      (ctx : Context) (conn_string : Bytes) (role : Option Role) (username : Bytes) (w : d.State)
      → (run_revocation ctx conn_string role username w ≡ (w, ok tt))
        ⊎ (run_revocation ctx conn_string role username w ≡ (w, panic))
  unfolding run_revocation run_alone do_retry
  run_revocation_cases ctx conn_string none username w = inl refl
  run_revocation_cases ctx conn_string (some r) username w =
      elim (Bool-cases (is_empty r.revocation_statement)) [
        | inl blank ↦ inl (rw (run_revocation, blank))
        | inr full ↦ inr (rw (run_revocation, full))
      ]

  revoke_with-panics :
      (ctx : Context) (conn_string : Bytes) (role : Option Role) (username : Bytes) (w : d.State)
      → revoke_with ctx conn_string role username w ≡ (w, panic)
  unfolding revoke_with run_alone do_retry
  revoke_with-panics ctx conn_string role username w =
      elim (run_revocation_cases ctx conn_string role username w) [
        | inl done ↦
            rw (revoke_with, done)
              (ap (λ (x : d.State × Outcome Error (Unit {0})). (x.0, panic)) done)
        | inr crashed ↦
            rw (revoke_with, crashed)
              (ap (λ (x : d.State × Outcome Error (Unit {0})). (x.0, panic)) crashed)
      ]

  -- Revoke returns nil only for a lease whose name is not of the form teradata/creds/role/user:
  -- it revokes no lease of the plugin.
  pub revoke_lease-ok :
      (ctx : Context) (lease_id : Bytes) (now : ℕ) (times : SetTimes) (s : State st d)
      → (revoke_lease ctx lease_id now times s).1 ≡ ok tt
      → lease_names lease_id ≡ none
  unfolding revoke_lease
  revoke_lease-ok ctx lease_id now times s = elim (Option-cases (lease_names lease_id)) [
    | inl foreign ↦ λ h. foreign
    | inr (names, own) ↦
        let cached = get_cached_credential st names.1 now times s.creds in
        elim (Outcome-cases cached.1) [
          | inr (inl (e, failed)) ↦ rw (revoke_lease, own, failed) (λ h. absurd (cc))
          | inr (inr failed) ↦ rw (revoke_lease, own, failed) (λ h. absurd (cc))
          | inl (cred, read) ↦ elim (Outcome-cases (lease_plan names.0 cred cached.0.store)) [
            | inr (inl (e, failed)) ↦ rw (revoke_lease, own, read, failed) (λ h. absurd (cc))
            | inr (inr failed) ↦ rw (revoke_lease, own, read, failed) (λ h. absurd (cc))
            | inl (plan, planned) ↦
                rw
                  (
                    revoke_lease,
                    own,
                    read,
                    planned,
                    revoke_with-panics ctx _ plan.1 names.1 s.world,
                  )
                  (λ h. absurd (cc))
          ]
        ]
  ]
