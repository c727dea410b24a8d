-- ===== src/Roles/Migration.antt =====
-- plugin/role_migrations.go: which roles `migrateRole` and `getRole` return.
use openbao_teradata_secret.Common.{
  ℕ, zero, suc, ◌≡◌, refl, ◌⊎◌, inl, inr, true, false, some, ◌++◌, arith, Bool-cases,
}
use openbao_teradata_secret.Common.Bytes.{Bytes, codes}
use openbao_teradata_secret.Common.Int.{ℤ, pos, negsuc, ltbℤ, ◌-ℤ◌, ◌≤ℤ◌, pos_part}
use openbao_teradata_secret.Model.{Role, role_version}
use openbao_teradata_secret.Outcome.{ok, err, ◌>>=◌}
use openbao_teradata_secret.Retry.{Error, plain}
use openbao_teradata_secret.Roles.{eqℤ, role_migrations, migrate_from, migrate_role, get_role}
use openbao_teradata_secret.Storage.{Storage}

abbrev pub no_path : Error
no_path = plain (codes "no migration path")

-- From no version below 4 does the loop get to its end.
migrate_from_stops :
    (v : ℤ) (role : Role) (rounds : ℕ)
    → ltbℤ v role_version ≡ true
    → rounds ≡ pos_part (role_version -ℤ v)
    → eqℤ v 0 ≡ false
    → migrate_from rounds v role ≡ err no_path
unfolding migrate_from role_migrations
migrate_from_stops (negsuc n) role zero h r z = absurd (ground arith)
migrate_from_stops (negsuc n) role (suc k) h r z = refl
migrate_from_stops (pos zero) role rounds h r z = absurd (cc)
migrate_from_stops (pos (suc zero)) role rounds h r z = rw r
migrate_from_stops (pos (suc (suc zero))) role rounds h r z = rw r
migrate_from_stops (pos (suc (suc (suc zero)))) role rounds h r z = rw r
migrate_from_stops (pos (suc (suc (suc (suc n))))) role rounds h r z = absurd (ground arith)

-- Migration returns a role of version 4 or later as it is and fails on every older role.
pub migrate_role_lem :
    (role : Role)
    → ((role_version ≤ℤ role.version) × (migrate_role role ≡ ok role))
      ⊎ ((ltbℤ role.version role_version ≡ true) × (migrate_role role ≡ err no_path))
unfolding migrate_role
migrate_role_lem role =
    let first : Role = record role { version = pos 1 } in
    elim (Bool-cases (eqℤ role.version 0)) [
      | inl zeroed ↦
          inr (ground arith, rw zeroed (migrate_from_stops (pos 1) first 3 refl refl refl))
      | inr set ↦ elim (Bool-cases (ltbℤ role.version role_version)) [
        | inl old ↦ inr (old, rw (set, old) (migrate_from_stops role.version role _ old refl set))
        | inr current ↦ inl (ground arith, rw (set, current))
      ]
    ]

-- A stored role of an older version cannot be loaded: getRole fails on it.
pub get_role-old :
    (st : Storage) (name : Bytes) (s : st.State) (entry : st.Entry) (role : Role)
    → st.get (codes "roles/" ++ name) s ≡ ok (some entry)
    → st.decode_role entry ≡ ok role
    → ltbℤ role.version role_version ≡ true
    → get_role st name s ≡ err no_path
unfolding get_role
get_role-old st name s entry role found decoded old = elim (migrate_role_lem role) [
  | inl (current, same) ↦ absurd (ground arith)
  | inr (older, fails) ↦ rw (found, ◌>>=◌, decoded, fails)
]
