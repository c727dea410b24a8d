-- ===== src/Issue/Batch.antt =====
-- plugin/path_creds.go: `pathCredsBatchRead`, which makes several users. The quota's count is read
-- again where the code keeps it in a variable; storage is not written in between.
pub mod Counted
use openbao_teradata_secret.Common.{
  ℕ, zero, suc, Bool, true, false, List, [], ◌∷◌, ◌++◌, Option, none, some, ltb, if◌then◌else◌,
}
use openbao_teradata_secret.Common.Bytes.{Bytes, codes}
use openbao_teradata_secret.Common.Int.{ℤ, pos, pos_part, lebℤ, ltbℤ, ◌-ℤ◌}
use openbao_teradata_secret.Common.Map.{Map}
use openbao_teradata_secret.Credentials.{count_credentials_by_role}
use openbao_teradata_secret.Database.{Driver}
use openbao_teradata_secret.Degradation.{Flags}
use openbao_teradata_secret.Issue.{Plan, Draws, Times, Made, plan}
use openbao_teradata_secret.Issue.Making.{State, Sql, issue, variables_of}
use openbao_teradata_secret.Model.{Role}
use openbao_teradata_secret.Outcome.{Outcome, ok, err, panic, ◌>>=◌}
use openbao_teradata_secret.Registry.{Registry}
use openbao_teradata_secret.Retry.{Error, wrap}
use openbao_teradata_secret.Storage.{Storage}

-- The count that is asked for, kept between one and a hundred.
unfoldable pub clamp : ℤ → ℕ
clamp count = if lebℤ count (pos 0) then 1 else if ltbℤ (pos 100) count then 100 else pos_part count

-- The count that the quota leaves.
unfoldable pub batch_count : (st : Storage) → Role → Bytes → ℤ → st.State → Outcome Error ℕ
batch_count st role name count s =
    if ltbℤ (pos 0) role.max_credentials
    then (wrap (codes "failed to count credentials: ") (count_credentials_by_role st name s)
        >>= λ n.
            (let remaining = role.max_credentials -ℤ pos n in
              ok (if ltbℤ remaining (pos (clamp count)) then pos_part remaining else clamp count)))
    else ok (clamp count)

module _ (st : Storage) (d : Driver) (sql : Sql d) where
  -- The loop; `draws` and `times` are for the credential with a number of rounds after it.
  unfoldable pub issue_each :
      Plan
      → Bytes
      → Bytes
      → (ℕ → Draws)
      → (ℕ → Times)
      → ℕ
      → State st d
      → State st d × Outcome Error (List Made)
  issue_each p name region draws times zero s = (s, ok [])
  issue_each p name region draws times (suc left) s =
      let (s1, made) = issue st d sql p name region (draws left) (times left) s in
      elim made [
        | err e ↦ (s1, err e)
        | panic ↦ (s1, panic)
        | ok m ↦
            let (s2, rest) = issue_each p name region draws times left s1 in
            (s2, rest >>= λ ms. ok (m ∷ ms))
      ]

  -- The response; TTLs are those of the role, in seconds.
  pub record BatchResponse : Type 0 where
    pub credentials : List Made
    pub ttl : ℤ
    pub max_ttl : ℤ
    pub session_variables : Map Bytes
    pub has_secret : Bool

  -- What is read and checked, with the count of credentials to make.
  unfoldable pub batch_plan :
      Flags → Option (Registry d) → Bytes → Bytes → ℤ → st.State → Outcome Error (Plan × ℕ)
  unfolding batch_count
  batch_plan flags registry name region count s = plan st d flags registry name region s >>= λ p.
      batch_count st p.role name count s >>= λ n. ok (p, n)

  -- `pathCredsBatchRead`
  unfoldable pub path_creds_batch_read :
      Flags
      → Option (Registry d)
      → Bytes
      → Bytes
      → ℤ
      → (ℕ → Draws)
      → (ℕ → Times)
      → State st d
      → State st d × Outcome Error BatchResponse
  unfolding issue_each batch_plan
  path_creds_batch_read flags registry name region count draws times s =
      elim (batch_plan flags registry name region count s.creds.store) [
        | err e ↦ (s, err e)
        | panic ↦ (s, panic)
        | ok (p, n) ↦
            let (s', made) = issue_each p name region draws times n s in
            (
              s',
              made >>= λ ms. ok (record {
                credentials = ms;
                ttl = p.role.default_ttl;
                max_ttl = p.role.max_ttl;
                session_variables = variables_of st d sql p;
                has_secret = ltbℤ (pos 0) p.role.default_ttl;
              }),
            )
      ]
