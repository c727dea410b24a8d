-- ===== src/Issue/Permitted.antt =====
-- plugin/path_creds.go: what the checks of `pathCredsRead` make sure of.
use openbao_teradata_secret.Common.{
  ℕ, ◌≡◌, refl, sym, if◌then◌else◌, ap, ◌∙◌, ◌⊎◌, inl, inr, Bool, true, false, not, Option, none,
  some, Bool-cases, Option-cases, arith,
}
use openbao_teradata_secret.Common.Bytes.{Bytes, codes, is_empty}
use openbao_teradata_secret.Common.Int.{ℤ, pos, ltbℤ, lebℤ}
use openbao_teradata_secret.Credentials.{count_credentials_by_role}
use openbao_teradata_secret.Database.{Driver}
use openbao_teradata_secret.Degradation.{Flags, should_use_degradation}
use openbao_teradata_secret.Health.{is_pool_healthy, can_operate}
use openbao_teradata_secret.Issue.{
  Plan, plan, checked, present, require, is_role_allowed, check_quota, check_prefix, find_config,
  find_statements, check_degradation,
}
use openbao_teradata_secret.Loaded.{get_config, get_config_by_name, get_statement}
use openbao_teradata_secret.Model.{Config, Role, Statement}
use openbao_teradata_secret.Outcome.{Outcome, ok, err, panic, bind-ok}
use openbao_teradata_secret.Registry.{Registry}
use openbao_teradata_secret.Retry.{Error, wrap}
use openbao_teradata_secret.Roles.{get_role}
use openbao_teradata_secret.Storage.{Storage}

pub ok_injective : {A : Type 0} {a b : A} → Path (Outcome Error A) (ok a) (ok b) → a ≡ b
ok_injective h = cc

pub checked-ok : {E : Type 0} (text : Bytes) (o : Option E) → checked text o ≡ ok tt → o ≡ none
checked-ok text none h = refl
checked-ok text (some e) h = absurd (cc)

present-ok : {A : Type 0} (text : Bytes) (o : Option A) (a : A) → present text o ≡ ok a → o ≡ some a
present-ok text none a h = absurd (cc)
present-ok text (some b) a h = cc

require-ok : (text : Bytes) (b : Bool) → require text b ≡ ok tt → b ≡ true
require-ok text true h = refl
require-ok text false h = absurd (cc)

pub wrap-ok :
    {A : Type 0} (text : Bytes) (o : Outcome Error A) (a : A) → wrap text o ≡ ok a → o ≡ ok a
wrap-ok text (ok x) a h = h
wrap-ok text (err e) a h = absurd (cc)
wrap-ok text panic a h = absurd (cc)

-- The quota lets one more credential of the role be made.
abbrev pub HasRoom : (st : Storage) → Role → Bytes → st.State → Type 0
HasRoom st role name s =
    (ltbℤ (pos 0) role.max_credentials ≡ false)
    ⊎ ((n : ℕ) × (count_credentials_by_role st name s ≡ ok n)
        × (ltbℤ (pos n) role.max_credentials ≡ true))

room_left : (max : ℤ) (n : ℕ) → not (lebℤ max (pos n)) ≡ true → ltbℤ (pos n) max ≡ true
room_left max n h = ground arith

check_quota-HasRoom :
    (st : Storage) (role : Role) (name : Bytes) (s : st.State)
    → check_quota st role name s ≡ ok tt
    → HasRoom st role name s
unfolding check_quota
check_quota-HasRoom st role name s = elim (Bool-cases (ltbℤ (pos 0) role.max_credentials)) [
  | inr unlimited ↦ λ h. inl unlimited
  | inl limited ↦
      rw (check_quota, limited)
        (λ h.
          let (n, counted, room) =
            bind-ok
              (wrap (codes "failed to count credentials: ") (count_credentials_by_role st name s))
              (λ n.
                require (codes "credential quota exceeded")
                  (not (lebℤ role.max_credentials (pos n))))
              tt h in
          inr (
            n,
            wrap-ok (codes "failed to count credentials: ") _ n counted,
            room_left role.max_credentials n
                (require-ok (codes "credential quota exceeded") _ room),
          ))
]

-- The configuration is that of the region, or the one without a name where no region is given.
abbrev pub IsConfigured : (st : Storage) → Bytes → st.State → Config → Type 0
IsConfigured st region s cfg =
    ((is_empty region ≡ true) × (get_config st s ≡ ok (some cfg)))
    ⊎ ((is_empty region ≡ false) × (get_config_by_name st region s ≡ ok (some cfg)))

find_config-IsConfigured :
    (st : Storage) (region : Bytes) (s : st.State) (cfg : Config)
    → find_config st region s ≡ ok cfg
    → IsConfigured st region s cfg
unfolding find_config
find_config-IsConfigured st region s cfg = elim (Bool-cases (is_empty region)) [
  | inl unnamed ↦
      rw (find_config, unnamed)
        (λ h.
          let (found, read, there) = bind-ok (get_config st s) _ cfg h in
          inl (
            refl,
            read ∙ ap ok (present-ok (codes "database configuration not found") found cfg there),
          ))
  | inr named ↦
      rw (find_config, named)
        (λ h.
          let (found, read, there) =
            bind-ok (wrap (codes "failed to get region config: ") (get_config_by_name st region s))
              _ cfg h in
          inr (
            refl,
            wrap-ok (codes "failed to get region config: ") _ found read
                ∙ ap ok (present-ok (codes "configuration for region not found") found cfg there),
          ))
]

-- The statements are those of the role or, where it names a template, those of the template that are
-- not empty.
abbrev pub IsChosen : (st : Storage) → Role → st.State → Plan → Type 0
IsChosen st role s p =
    ((is_empty role.statement_template ≡ true)
      × (p.creation ≡ role.creation_statement)
      × (p.rollback ≡ role.rollback_statement))
    ⊎ ((template : Statement) × (get_statement st role.statement_template s ≡ ok (some template))
        × (p.creation ≡ (
            if is_empty template.creation_statement
            then role.creation_statement
            else template.creation_statement))
        × (p.rollback ≡ (
            if is_empty template.rollback_statement
            then role.rollback_statement
            else template.rollback_statement)))

find_statements-IsChosen :
    (st : Storage) (role : Role) (s : st.State) (stmts : Bytes × Bytes) (p : Plan)
    → find_statements st role s ≡ ok stmts
    → p.creation ≡ stmts.0
    → p.rollback ≡ stmts.1
    → IsChosen st role s p
unfolding find_statements
find_statements-IsChosen st role s stmts p = elim (Bool-cases (is_empty role.statement_template)) [
  | inl own ↦
      rw (find_statements, own)
        (λ h c r.
          let same = ok_injective h in
          inl (
            refl,
            c ∙ sym (ap (λ (x : Bytes × Bytes). x.0) same),
            r ∙ sym (ap (λ (x : Bytes × Bytes). x.1) same),
          ))
  | inr named ↦
      rw (find_statements, named)
        (λ h c r.
          let (found, read, h1) =
            bind-ok
              (wrap (codes "failed to load statement template: ")
                (get_statement st role.statement_template s))
              _ stmts h in
          let (template, there, h2) =
            bind-ok (present (codes "statement template not found") found) _ stmts h1 in
          let same = ok_injective h2 in
          inr (
            template,
            wrap-ok (codes "failed to load statement template: ") _ found read
                ∙ ap ok (present-ok (codes "statement template not found") found template there),
            c ∙ sym (ap (λ (x : Bytes × Bytes). x.0) same),
            r ∙ sym (ap (λ (x : Bytes × Bytes). x.1) same),
          ))
]

module _ (st : Storage) (d : Driver) where
  -- What the handlers have made sure of before they make a user: the role exists, its quota has room,
  -- its configuration lets it in, and the backend can operate on the region.
  pub record IsPermitted (flags : Flags) (registry : Option (Registry d)) (name region : Bytes)
      (s : st.State) (p : Plan) : Type 0 where
    pub role_found : get_role st name s ≡ ok (some p.role)
    pub has_room : HasRoom st p.role name s
    pub config_found : IsConfigured st region s p.config
    pub is_allowed : is_role_allowed p.config name ≡ true
    pub is_chosen : IsChosen st p.role s p
    pub operates :
        ((should_use_degradation flags ≡ false) × (is_pool_healthy d registry region ≡ true))
        ⊎ (can_operate d registry region ≡ none)

  check_degradation-operates :
      (flags : Flags) (registry : Option (Registry d)) (region : Bytes)
      → check_degradation st d flags registry region ≡ ok tt
      → ((should_use_degradation flags ≡ false) × (is_pool_healthy d registry region ≡ true))
        ⊎ (can_operate d registry region ≡ none)
  unfolding check_degradation
  check_degradation-operates flags registry region =
      elim (Option-cases (can_operate d registry region)) [
        | inl free ↦ λ h. inr free
        | inr (x, refused) ↦ rw refused (λ h. inl (ground arith))
      ]

  -- If the checks of `pathCredsRead` pass, then the role exists, its quota has room for one more
  -- credential, the configuration found lets the role in, and either the backend is not degraded and the
  -- region's pool is healthy, or `CanOperate` allows the region.
  pub plan-IsPermitted :
      (flags : Flags) (registry : Option (Registry d)) (name region : Bytes) (s : st.State)
      (p : Plan)
      → plan st d flags registry name region s ≡ ok p
      → IsPermitted flags registry name region s p
  unfolding plan
  plan-IsPermitted flags registry name region s p h =
      let (found, role_read, h1) = bind-ok (get_role st name s) _ p h in
      let (role, there, h2) = bind-ok (present (codes "role not found") found) _ p h1 in
      let (u1, quota, h3) = bind-ok (check_quota st role name s) _ p h2 in
      let (u2, prefix, h4) = bind-ok (check_prefix st role) _ p h3 in
      let (cfg, config_read, h5) = bind-ok (find_config st region s) _ p h4 in
      let (u3, allowed, h6) =
        bind-ok
          (require (codes "role is not allowed for this connection") (is_role_allowed cfg name)) _ p
          h5 in
      let (u4, free, h7) = bind-ok (check_degradation st d flags registry region) _ p h6 in
      let (stmts, read, h8) = bind-ok (find_statements st role s) _ p h7 in
      rw (← ok_injective h8) (record {
        role_found = role_read ∙ ap ok (present-ok (codes "role not found") found role there);
        has_room = check_quota-HasRoom st role name s quota;
        config_found = find_config-IsConfigured st region s cfg config_read;
        is_allowed = require-ok (codes "role is not allowed for this connection") _ allowed;
        is_chosen =
            find_statements-IsChosen st role s stmts
              (record { role = role; config = cfg; creation = stmts.0; rollback = stmts.1 }) read
              refl refl;
        operates = check_degradation-operates flags registry region free;
      })
