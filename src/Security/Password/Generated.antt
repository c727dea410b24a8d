-- ===== src/Security/Password/Generated.antt =====
-- security/sql_validation.go, plugin/path_creds.go: which passwords `ValidatePassword` accepts, and the
-- passwords that `generatePassword` makes.
use openbao_teradata_secret.Common.{
  ℕ, zero, suc, ◌+◌, ◌%◌, ◌≤◌, ◌<◌, ◌≡◌, ◌≢◌, ◌↔◌, refl, ◌⊎◌, inl, inr, Bool, true, false, List, [],
  ◌∷◌, none, any, All, length, ltb, arith, ◌∙◌,
}
use openbao_teradata_secret.Common.Bytes.{Bytes, is_empty, has_prefix, contains, contains_byte}
use openbao_teradata_secret.Security.Password.{
  max_password_length, is_unprintable, validate_password, lower_chars, upper_chars, digit_chars,
  special_chars, all_password_chars, char_at, set_at, has_class, required_classes, fix_classes,
  ensure_password_requirements, fill, generate_password,
}

-- A visible character of ASCII that is no quote, double quote or backslash.
pub record IsPlain (c : ℕ) : Type 0 where
  pub above_space : 32 < c
  pub printable : c ≤ 126
  pub not_quote : c ≢ 39
  pub not_double_quote : c ≢ 34
  pub not_backslash : c ≢ 92

contains_one : (s : Bytes) (b : ℕ) → contains s (b ∷ []) ≡ contains_byte s b
unfolding contains contains_byte has_prefix
contains_one [] b = refl
contains_one (c ∷ s) b = ground (arith, contains_one s b)

bytes-IsPlain :
    (s : Bytes)
    → any is_unprintable s ≡ false
    → contains_byte s 39 ≡ false
    → contains_byte s 34 ≡ false
    → contains_byte s 92 ≡ false
    → contains_byte s 32 ≡ false
    → All IsPlain s
unfolding contains_byte
bytes-IsPlain [] h q d b w = tt
bytes-IsPlain (c ∷ s) h q d b w = (
  ground arith,
  bytes-IsPlain s (ground arith) (ground arith) (ground arith) (ground arith) (ground arith),
)

plain_any : (s : Bytes) → All IsPlain s → any is_unprintable s ≡ false
plain_any [] a = refl
plain_any (c ∷ s) a = ground (arith, plain_any s a.1)

plain_without :
    (s : Bytes) (b : ℕ)
    → ((b ≡ 39) ⊎ ((b ≡ 34) ⊎ ((b ≡ 92) ⊎ (b ≤ 32))))
    → All IsPlain s
    → contains_byte s b ≡ false
unfolding contains_byte
plain_without [] b h a = refl
plain_without (c ∷ s) b h a = ground (arith, plain_without s b h a.1)

not_lt : (n m : ℕ) → n ≤ m → ltb m n ≡ false
not_lt n m h = ground arith

empty_length : (s : Bytes) → is_empty s ≡ false → 0 < length s
empty_length [] h = absurd (cc)
empty_length (c ∷ s) h = omega arith

accepted_bytes : (s : Bytes) → validate_password s ≡ none → All IsPlain s
unfolding validate_password
accepted_bytes s h =
    bytes-IsPlain s (ground arith) (ground (arith, contains_one s 39))
      (ground (arith, contains_one s 34)) (ground (arith, contains_one s 92))
      (ground (arith, contains_one s 32))

accepted_length :
    (s : Bytes) → validate_password s ≡ none → (0 < length s) × (length s ≤ max_password_length)
unfolding validate_password
accepted_length s h = (empty_length s (ground arith), ground arith)

pub plain_accepted :
    (s : Bytes)
    → (0 < length s) × (length s ≤ max_password_length) × All IsPlain s
    → validate_password s ≡ none
unfolding validate_password
plain_accepted [] (n, m, a) = absurd (omega arith)
plain_accepted (c ∷ s) (n, m, a) =
    let without = λ (b : ℕ) (h : (b ≡ 39) ⊎ ((b ≡ 34) ⊎ ((b ≡ 92) ⊎ (b ≤ 32)))).
      contains_one (c ∷ s) b ∙ plain_without (c ∷ s) b h a in
    rw (
      not_lt (length (c ∷ s)) max_password_length m,
      plain_any (c ∷ s) a,
      without 39 (inl refl),
      without 34 (inr (inl refl)),
      without 92 (inr (inr (inl refl))),
      without 0 (inr (inr (inr (omega arith)))),
      without 32 (inr (inr (inr (omega arith)))),
    )

-- ValidatePassword accepts exactly the passwords of 1 to 256 visible ASCII characters without
-- quotes and backslash.
pub validate_password_iff :
    (s : Bytes)
    → (validate_password s ≡ none)
      ↔ ((0 < length s) × (length s ≤ max_password_length) × All IsPlain s)
validate_password_iff s =
    (λ h. let l = accepted_length s h in (l.0, l.1, accepted_bytes s h), plain_accepted s)

-- Every character of a class is plain.
char_at-IsPlain :
    (chars : Bytes) (k : ℕ) → All IsPlain chars → k < length chars → IsPlain (char_at chars k)
char_at-IsPlain [] k a h = elim h [ ]
char_at-IsPlain (c ∷ s) zero a h = a.0
char_at-IsPlain (c ∷ s) (suc k) a h = char_at-IsPlain s k a.1 (omega arith)

length-set_at : (s : Bytes) (pos c : ℕ) → length (set_at s pos c) ≡ length s
unfolding set_at
length-set_at [] pos c = refl
length-set_at (d ∷ s) zero c = refl
length-set_at (d ∷ s) (suc pos) c = omega (arith, length-set_at s pos c)

set_at-IsPlain : (s : Bytes) (pos c : ℕ) → IsPlain c → All IsPlain s → All IsPlain (set_at s pos c)
unfolding set_at
set_at-IsPlain [] pos c p a = tt
set_at-IsPlain (d ∷ s) zero c p a = (p, a.1)
set_at-IsPlain (d ∷ s) (suc pos) c p a = (a.0, set_at-IsPlain s pos c p a.1)

-- What `math/rand` promises: a draw below a positive bound.
abbrev pub Draws : (ℕ → ℕ → ℕ) → Type 0
Draws fix = (i n : ℕ) → 0 < n → fix i n < n

-- A class from which a draw can be made, all of it plain.
abbrev IsClass : Bool × Bytes → Type 0
IsClass r = (0 < length r.1) × All IsPlain r.1

fix_classes-IsPlain :
    (fix : ℕ → ℕ → ℕ) (required : List (Bool × Bytes)) (idx i : ℕ) (runes : Bytes)
    → Draws fix
    → All IsClass required
    → All IsPlain runes
    → All IsPlain (fix_classes fix required idx i runes)
      × (length (fix_classes fix required idx i runes) ≡ length runes)
unfolding fix_classes
fix_classes-IsPlain fix [] idx i runes d r a = (a, refl)
fix_classes-IsPlain fix ((true, chars) ∷ required) idx i runes d r a =
    fix_classes-IsPlain fix required idx (i + 1) runes d r.1 a
fix_classes-IsPlain fix ((false, chars) ∷ required) idx i runes d r a =
    let c = char_at chars (fix i (length chars)) in
    let plain : IsPlain c = char_at-IsPlain chars _ r.0.1 (d i (length chars) r.0.0) in
    let pos = idx % length runes in
    let (all_plain, same) =
      fix_classes-IsPlain fix required (idx + 1) (i + 1) (set_at runes pos c) d r.1
        (set_at-IsPlain runes pos c plain a) in
    (all_plain, omega (arith, length-set_at runes pos c))

lower_chars-IsPlain : All IsPlain lower_chars
lower_chars-IsPlain = omega arith

upper_chars-IsPlain : All IsPlain upper_chars
upper_chars-IsPlain = omega arith

digit_chars-IsPlain : All IsPlain digit_chars
digit_chars-IsPlain = omega arith

special_chars-IsPlain : All IsPlain special_chars
special_chars-IsPlain = omega arith

all_password_chars-IsPlain : All IsPlain all_password_chars
all_password_chars-IsPlain = omega arith

fill-IsPlain :
    (draws : List ℕ)
    → All (λ k. k < 64) draws
    → All IsPlain (fill draws) × (length (fill draws) ≡ length draws)
unfolding fill
fill-IsPlain [] a = (tt, refl)
fill-IsPlain (k ∷ ks) a =
    let (plain, same) = fill-IsPlain ks a.1 in
    ((char_at-IsPlain all_password_chars k all_password_chars-IsPlain a.0, plain), omega arith)

ensure-IsPlain :
    (fix : ℕ → ℕ → ℕ) (s : Bytes)
    → Draws fix
    → 0 < length s
    → All IsPlain s
    → All IsPlain (ensure_password_requirements fix s)
      × (length (ensure_password_requirements fix s) ≡ length s)
unfolding ensure_password_requirements
ensure-IsPlain fix [] d h a = elim h [ ]
ensure-IsPlain fix (c ∷ s) d h a =
    let lower : IsClass (has_class lower_chars (c ∷ s), lower_chars) =
      (omega arith, lower_chars-IsPlain) in
    let upper : IsClass (has_class upper_chars (c ∷ s), upper_chars) =
      (omega arith, upper_chars-IsPlain) in
    let digit : IsClass (has_class digit_chars (c ∷ s), digit_chars) =
      (omega arith, digit_chars-IsPlain) in
    let special : IsClass (has_class special_chars (c ∷ s), special_chars) =
      (omega arith, special_chars-IsPlain) in
    fix_classes-IsPlain fix (required_classes (c ∷ s)) 0 0 (c ∷ s) d
      (lower, (upper, (digit, (special, tt)))) a

-- Whatever is drawn within its bounds, ValidatePassword accepts a password generated from 16 to
-- 32 bytes, and the password keeps that length.
pub generate_password_lem :
    (draws : List ℕ) (fix : ℕ → ℕ → ℕ)
    → 16 ≤ length draws
    → length draws ≤ 32
    → All (λ k. k < 64) draws
    → Draws fix
    → (validate_password (generate_password true draws fix) ≡ none)
      × (length (generate_password true draws fix) ≡ length draws)
unfolding generate_password
generate_password_lem draws fix low high inside d =
    let (plain, filled) = fill-IsPlain draws inside in
    let (kept, same) = ensure-IsPlain fix (fill draws) d (omega arith) plain in
    (plain_accepted _ (omega arith, omega arith, kept), omega arith)
