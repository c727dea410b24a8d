-- ===== src/Security/Password.antt =====
-- security/sql_validation.go: `ValidatePassword`; plugin/path_creds.go: `generatePassword` and
-- `ensurePasswordRequirements`. What `math/rand` draws is an argument: the draw for each byte, and
-- the draw `fix i n` below `n` for the i-th required class. `rand.Read` may fail.
pub mod Generated
use openbao_teradata_secret.Common.{
  ℕ, zero, suc, ◌+◌, ◌%◌, Bool, true, false, not, ◌&&◌, ◌||◌, List, [], ◌∷◌, ◌++◌, Option, none,
  some, any, all, length, ltb, leb, if◌then◌else◌,
}
use openbao_teradata_secret.Common.Bytes.{Bytes, codes, is_empty, contains, contains_byte}

pub data PasswordError : Type 0 where
  invalid_password password_too_long : PasswordError

abbrev pub max_password_length : ℕ
max_password_length = 256

-- A byte outside the printable range of ASCII; `unicode.IsPrint` holds of every other.
abbrev pub is_unprintable : ℕ → Bool
is_unprintable r = ltb r 32 || ltb 126 r

-- `invalidChars`: quote, double quote, backslash and NUL.
abbrev pub invalid_chars : List Bytes
invalid_chars = (39 ∷ []) ∷ (34 ∷ []) ∷ (92 ∷ []) ∷ (0 ∷ []) ∷ []

-- `ValidatePassword`
unfoldable pub validate_password : Bytes → Option PasswordError
validate_password password =
    if is_empty password
    then some invalid_password
    else if ltb max_password_length (length password)
    then some password_too_long
    else if any is_unprintable password
    then some invalid_password
    else if any (contains password) invalid_chars
    then some invalid_password
    else if contains password (32 ∷ [])
    then some invalid_password
    else none

abbrev pub lower_chars : Bytes
lower_chars = codes "abcdefghijklmnopqrstuvwxyz"

abbrev pub upper_chars : Bytes
upper_chars = codes "ABCDEFGHIJKLMNOPQRSTUVWXYZ"

abbrev pub digit_chars : Bytes
digit_chars = codes "0123456789"

abbrev pub special_chars : Bytes
special_chars = codes "!@"

abbrev pub all_password_chars : Bytes
all_password_chars = lower_chars ++ (upper_chars ++ (digit_chars ++ special_chars))

-- The byte at an index that is in range.
abbrev pub char_at : Bytes → ℕ → ℕ
char_at [] i = 0
char_at (c ∷ s) zero = c
char_at (c ∷ s) (suc i) = char_at s i

-- `runes[pos] = c`
unfoldable pub set_at : Bytes → ℕ → ℕ → Bytes
set_at [] pos c = []
set_at (d ∷ s) zero c = c ∷ s
set_at (d ∷ s) (suc pos) c = d ∷ set_at s pos c

-- Whether the password has a character of a class. The classes share no character, so the cases of
-- the `switch` do not hide one another.
abbrev pub has_class : Bytes → Bytes → Bool
has_class chars password = any (contains_byte chars) password

-- The loop over `required`: the classes present, the next index, and the number of the class.
unfoldable pub fix_classes : (ℕ → ℕ → ℕ) → List (Bool × Bytes) → ℕ → ℕ → Bytes → Bytes
fix_classes fix [] idx i runes = runes
fix_classes fix ((present, chars) ∷ required) idx i runes =
    fix_classes fix required (if present then idx else idx + 1) (i + 1) (
      if present
      then runes
      else set_at runes (idx % length runes) (char_at chars (fix i (length chars))))

-- `required`
abbrev pub required_classes : Bytes → List (Bool × Bytes)
required_classes password =
    (has_class lower_chars password, lower_chars)
    ∷ (has_class upper_chars password, upper_chars)
    ∷ (has_class digit_chars password, digit_chars)
    ∷ (has_class special_chars password, special_chars)
    ∷ []

-- `ensurePasswordRequirements`
unfoldable pub ensure_password_requirements : (ℕ → ℕ → ℕ) → Bytes → Bytes
unfolding fix_classes set_at
ensure_password_requirements fix password =
    if is_empty password then password else fix_classes fix (required_classes password) 0 0 password

-- The loop that fills the bytes.
unfoldable pub fill : List ℕ → Bytes
fill [] = []
fill (k ∷ ks) = char_at all_password_chars k ∷ fill ks

-- `generatePassword`; `draws` has one draw for each byte, and so the length.
unfoldable pub generate_password : Bool → List ℕ → (ℕ → ℕ → ℕ) → Bytes
unfolding fill ensure_password_requirements
generate_password read draws fix =
    if not read then [] else ensure_password_requirements fix (fill draws)
