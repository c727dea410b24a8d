-- ===== src/Roles.antt =====
-- plugin/role_migrations.go, and `getRole` of plugin/path_roles.go. Storage and the JSON coding
-- are those of `Storage`. An error's text stands without the values that the source quotes in it.
pub mod Migration
use openbao_teradata_secret.Common.{
  ℕ, zero, suc, Bool, true, false, List, [], ◌∷◌, ◌++◌, Option, none, some, if◌then◌else◌, ◌==◌,
}
use openbao_teradata_secret.Common.Bytes.{Bytes, codes, is_empty}
use openbao_teradata_secret.Common.Int.{ℤ, pos, negsuc, ltbℤ, ◌-ℤ◌, ◌+ℤ◌, pos_part}
use openbao_teradata_secret.Model.{Role, role_version}
use openbao_teradata_secret.Outcome.{Outcome, ok, err, panic, ◌>>=◌}
use openbao_teradata_secret.Retry.{Error, plain}
use openbao_teradata_secret.Storage.{Storage}

-- Go's `n == m` on integers.
abbrev pub eqℤ : ℤ → ℕ → Bool
eqℤ (pos n) m = n == m
eqℤ (negsuc n) m = false

unfoldable pub migrate_v1_to_v2 : Role → Outcome Error Role
migrate_v1_to_v2 role = ok (record role {
  default_database = if is_empty role.default_database then codes "USER" else role.default_database;
  perm_space = if eqℤ role.perm_space 0 then pos 10485760 else role.perm_space;
  spool_space = if eqℤ role.spool_space 0 then pos 10485760 else role.spool_space;
  version = pos 2;
})

unfoldable pub migrate_v2_to_v3 : Role → Outcome Error Role
migrate_v2_to_v3 role = ok (record role { version = pos 3 })

-- `roleMigrations`
unfoldable pub role_migrations : ℤ → Option (Role → Outcome Error Role)
unfolding migrate_v1_to_v2 migrate_v2_to_v3
role_migrations v =
    if eqℤ v 1 then some migrate_v1_to_v2 else if eqℤ v 2 then some migrate_v2_to_v3 else none

-- The loop from version `v`, with the rounds left.
unfoldable pub migrate_from : ℕ → ℤ → Role → Outcome Error Role
migrate_from zero v role = ok role
migrate_from (suc rounds) v role = elim (role_migrations v) [
  | none ↦ err (plain (codes "no migration path"))
  | some migrator ↦ migrator role >>= migrate_from rounds (v +ℤ pos 1)
]

-- `migrateRole`
unfoldable pub migrate_role : Role → Outcome Error Role
unfolding migrate_from
migrate_role role =
    let r = if eqℤ role.version 0 then record role { version = pos 1 } else role in
    if ltbℤ r.version role_version
    then migrate_from (pos_part (role_version -ℤ r.version)) r.version r
    else ok r

-- `getRole`
unfoldable pub get_role : (st : Storage) → Bytes → st.State → Outcome Error (Option Role)
get_role st name s = st.get (codes "roles/" ++ name) s >>= λ found. elim found [
  | none ↦ ok none
  | some entry ↦ st.decode_role entry >>= λ role. migrate_role role >>= λ r. ok (some r)
]
