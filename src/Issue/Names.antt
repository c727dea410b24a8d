-- ===== src/Issue/Names.antt =====
-- plugin/path_creds.go: how long the names are that `generateUsername` makes.
use openbao_teradata_secret.Common.{
  ℕ, ◌+◌, ◌*◌, ◌≡◌, ◌<◌, refl, List, [], ◌∷◌, some, length, length-append, arith,
}
use openbao_teradata_secret.Common.Bytes.{Bytes}
use openbao_teradata_secret.Issue.{hex, generate_username}
use openbao_teradata_secret.Odbc.Username.{validate_username, username_too_long}

length-hex : (bs : List ℕ) → length (hex bs) ≡ 2 * length bs
unfolding hex
length-hex [] = refl
length-hex (b ∷ bs) = omega (arith, length-hex bs)

length-generate_username :
    (c : ℕ) (prefix : Bytes) (bytes : List ℕ)
    → length (generate_username (c ∷ prefix) [] (some bytes))
      ≡ 1 + length prefix + (1 + 2 * length bytes)
unfolding generate_username
length-generate_username c prefix bytes =
    omega (arith, length-append (c ∷ prefix) (b'_' ∷ hex bytes), length-hex bytes)

too_long : (name : Bytes) → 30 < length name → validate_username name ≡ some username_too_long
unfolding validate_username
too_long [] h = absurd (omega arith)
too_long (c ∷ s) h = ground arith

-- With a prefix of more than thirteen bytes and no suffix of the role, the name that
-- generateUsername makes of eight random bytes is refused by ValidateUsername as too long.
pub validate_username-generate_username :
    (prefix : Bytes) (bytes : List ℕ)
    → 13 < length prefix
    → length bytes ≡ 8
    → validate_username (generate_username prefix [] (some bytes)) ≡ some username_too_long
validate_username-generate_username [] bytes long eight = absurd (omega arith)
validate_username-generate_username (c ∷ prefix) bytes long eight =
    too_long _ (omega (arith, length-generate_username c prefix bytes))
