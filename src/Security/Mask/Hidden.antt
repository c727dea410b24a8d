-- ===== src/Security/Mask/Hidden.antt =====
-- security/connection.go and security/sql_validation.go: what a masked connection string depends on,
-- and what a sanitised text stands for.
use openbao_teradata_secret.Common.{
  ℕ, ◌≡◌, refl, ◌⊎◌, inl, inr, true, false, [], ◌∷◌, ◌++◌, Option, none, some, ◌==◌, arith,
  Bool-cases, if◌then◌else◌,
}
use openbao_teradata_secret.Common.Bytes.{Bytes, is_empty, has_prefix}
use openbao_teradata_secret.Common.Map.{Map}
use openbao_teradata_secret.Security.Connection.{parse_connection_string}
use openbao_teradata_secret.Security.Mask.{
  is_sensitive_key, mask_pair, mask_pairs, mask_connection_string, is_doubled,
  sanitize_string_for_sql,
}

-- Two maps in one order of keys, with one value for each key that is not sensitive.
abbrev pub Alike : Map Bytes → Map Bytes → Type 0
Alike [] [] = Unit
Alike [] (p ∷ m) = ⊥
Alike (p ∷ m) [] = ⊥
Alike ((k, v) ∷ m) ((j, w) ∷ n) = (k ≡ j) × ((is_sensitive_key k ≡ true) ⊎ (v ≡ w)) × Alike m n

mask_pair-Alike :
    (k v w : Bytes) → ((is_sensitive_key k ≡ true) ⊎ (v ≡ w)) → mask_pair k v ≡ mask_pair k w
unfolding mask_pair
mask_pair-Alike k v w (inl secret) = rw secret
mask_pair-Alike k v w (inr same) = rw same

mask_pairs-Alike : (m n : Map Bytes) → Alike m n → mask_pairs m ≡ mask_pairs n
unfolding mask_pairs
mask_pairs-Alike [] [] a = refl
mask_pairs-Alike [] (p ∷ n) a = absurd a
mask_pairs-Alike (p ∷ m) [] a = absurd a
mask_pairs-Alike ((k, v) ∷ m) ((j, w) ∷ n) a =
    cc (mask_pair-Alike k v w a.1, mask_pairs-Alike m n a.2)

-- Two connection strings that are not empty and are parsed into the same keys, in one order, with
-- the same values for the keys that are not sensitive, are masked alike: the result does not
-- depend on a secret.
pub mask_connection_string-Alike :
    (s t : Bytes) (m n : Map Bytes)
    → is_empty s ≡ false
    → is_empty t ≡ false
    → parse_connection_string s ≡ some m
    → parse_connection_string t ≡ some n
    → Alike m n
    → mask_connection_string s ≡ mask_connection_string t
unfolding mask_connection_string
mask_connection_string-Alike s t m n e f p q a =
    rw (mask_connection_string, e, f, p, q, mask_pairs-Alike m n a)

abbrev with_byte : ℕ → Option (Bytes × Bytes) → Option (Bytes × Bytes)
with_byte c none = none
with_byte c (some (t, rest)) = some (c ∷ t, rest)

-- Reads a literal from behind its opening quote: two quotes in a row stand for one, one quote ends the
-- literal, and every other byte stands for itself. What is read, and the text behind the literal.
unfoldable pub read_literal : ℕ → Bytes → Option (Bytes × Bytes)
read_literal quote [] = none
read_literal quote (c ∷ []) = if c == quote then some ([], []) else none
read_literal quote (c ∷ d ∷ s) =
    let after_one = read_literal quote (d ∷ s) in
    let after_two = read_literal quote s in
    if c == quote
    then (if d == quote then with_byte quote after_two else some ([], d ∷ s))
    else with_byte c after_one

-- The text with the bytes doubled that are not the quote and are a quote or a backslash.
unfoldable pub others_doubled : ℕ → Bytes → Bytes
others_doubled quote [] = []
others_doubled quote (c ∷ s) =
    let rest = others_doubled quote s in
    if c == quote
    then c ∷ rest
    else if c == 39
    then c ∷ c ∷ rest
    else if c == 34
    then c ∷ c ∷ rest
    else if c == 92
    then c ∷ c ∷ rest
    else c ∷ rest

read_literal-other :
    (quote c : ℕ) (s t rest : Bytes)
    → (c == quote) ≡ false
    → read_literal quote s ≡ some (t, rest)
    → read_literal quote (c ∷ s) ≡ some (c ∷ t, rest)
unfolding read_literal
read_literal-other quote c [] t rest h r = absurd (cc)
read_literal-other quote c (d ∷ s) t rest h r = rw (h, r)

read_literal-quote :
    (quote : ℕ) (s t rest : Bytes)
    → read_literal quote s ≡ some (t, rest)
    → read_literal quote (quote ∷ quote ∷ s) ≡ some (quote ∷ t, rest)
unfolding read_literal
read_literal-quote quote s t rest r = ground arith

read_literal-end :
    (quote : ℕ) (rest : Bytes)
    → has_prefix rest (quote ∷ []) ≡ false
    → read_literal quote (quote ∷ rest) ≡ some ([], rest)
unfolding read_literal has_prefix
read_literal-end quote [] h = ground arith
read_literal-end quote (c ∷ rest) h = ground arith

-- Between two single or two double quotes, a text that SanitizeStringForSQL has made is read as
-- one literal that ends at the closing quote, whatever text stands behind it that does not begin
-- with the quote; the literal is the input with the backslashes and the other kind of quote
-- doubled.
pub read_literal-sanitize_string_for_sql :
    (quote : ℕ) (s rest : Bytes)
    → (quote ≡ 39) ⊎ (quote ≡ 34)
    → has_prefix rest (quote ∷ []) ≡ false
    → read_literal quote (sanitize_string_for_sql s ++ quote ∷ rest)
      ≡ some (others_doubled quote s, rest)
unfolding sanitize_string_for_sql others_doubled
read_literal-sanitize_string_for_sql quote [] rest q h = read_literal-end quote rest h
read_literal-sanitize_string_for_sql quote (c ∷ s) rest q h =
    let ih = read_literal-sanitize_string_for_sql quote s rest q h in
    let after = sanitize_string_for_sql s ++ quote ∷ rest in
    let read = others_doubled quote s in
    elim (Bool-cases (c == quote)) [
      | inl same ↦
          let equal : c ≡ quote = ground arith in
          let doubled : is_doubled quote ≡ true = ground arith in
          let itself : (quote == quote) ≡ true = ground arith in
          rw (equal, doubled, itself) (read_literal-quote quote after read rest ih)
      | inr other ↦
          let once = read_literal-other quote c after read rest other ih in
          let twice = read_literal-other quote c (c ∷ after) (c ∷ read) rest other once in
          rw other (elim (Bool-cases (c == 39)) [
            | inl a ↦ rw a twice
            | inr a ↦ elim (Bool-cases (c == 34)) [
              | inl b ↦ rw (a, b) twice
              | inr b ↦ elim (Bool-cases (c == 92)) [
                | inl e ↦ rw (a, b, e) twice
                | inr e ↦ rw (a, b, e) once
              ]
            ]
          ])
    ]
