-- ===== src/Security/Sql/Accepted.antt =====
-- security/sql_validation.go: what a statement or a username that passes is free of.
use openbao_teradata_secret.Common.{
  ℕ, ◌≤◌, ◌≡◌, refl, ◌↔◌, Bool, false, List, [], ◌∷◌, Option, none, some, any, find, find-none,
  find-none_of_All, All, length, ltb, arith, if◌then◌else◌,
}
use openbao_teradata_secret.Common.Bytes.{Bytes, codes, is_empty, contains, to_upper, trim_space}
use openbao_teradata_secret.Security.Sql.{
  SqlError, dangerous_pattern, dangerous_keyword, max_statement_length, sql_injection_patterns,
  dangerous_patterns, dangerous_statement_keywords, comment_patterns, detect_statement_type,
  contains_upper, keyword_rejected, validate_keywords, validate_patterns, validate_sql_statement,
}

-- What `ValidateSQLStatement` promises of a statement that it accepts.
pub record IsClean (s : Bytes) : Type 0 where
  pub not_blank : is_empty (trim_space s) ≡ false
  pub short : length s ≤ max_statement_length
  pub no_comment : All (λ p. contains s p ≡ false) comment_patterns
  pub no_pattern : All (λ p. contains_upper (to_upper s) p ≡ false) sql_injection_patterns
  pub no_separator : contains_upper (to_upper s) (codes ";") ≡ false
  pub no_keyword :
      All
        (λ k. keyword_rejected (detect_statement_type s) (to_upper s) k ≡ false)
        dangerous_statement_keywords

any-none : (p : Bytes → Bool) (xs : List Bytes) → any p xs ≡ false → All (λ x. p x ≡ false) xs
any-none p [] h = tt
any-none p (x ∷ xs) h = (ground arith, any-none p xs (ground arith))

-- Three guards, each with an error, before the rest.
guards :
    (a b c : Bool) (x y z : SqlError) (rest : Option SqlError)
    → (if a then some x else if b then some y else if c then some z else rest) ≡ none
    → (a ≡ false) × (b ≡ false) × (c ≡ false) × (rest ≡ none)
guards a b c x y z rest h = ground arith

-- A search whose hit is an error, before the rest.
searched {ℓ} :
    {A : Type ℓ} (o : Option A) (f : A → SqlError) (rest : Option SqlError)
    → (let r : Option SqlError = elim o [ some a ↦ some (f a) | none ↦ rest ] in r) ≡ none
    → (o ≡ none) × (rest ≡ none)
searched none f rest h = (refl, h)
searched (some a) f rest h = absurd (cc)

-- What `ValidateSQLStatement` accepts is clean.
pub validate_sql_statement-IsClean : (s : Bytes) → validate_sql_statement s ≡ none → IsClean s
unfolding validate_sql_statement validate_patterns validate_keywords
validate_sql_statement-IsClean s h =
    let (blank, long, comment, rest) =
      guards (is_empty (trim_space s)) (ltb max_statement_length (length s))
        (any (contains s) comment_patterns) _ _ _ (validate_patterns s) h in
    let (patterns, rest') =
      searched (find (contains_upper (to_upper s)) sql_injection_patterns) dangerous_pattern _
        rest in
    let (separators, rest'') =
      searched (find (contains_upper (to_upper s)) dangerous_patterns) dangerous_pattern
        (validate_keywords s) rest' in
    let (keywords, done) =
      searched
        (find (keyword_rejected (detect_statement_type s) (to_upper s))
          dangerous_statement_keywords)
        dangerous_keyword _ rest'' in
    record {
      not_blank = blank;
      short = ground arith;
      no_comment = any-none (contains s) comment_patterns comment;
      no_pattern = find-none (contains_upper (to_upper s)) sql_injection_patterns patterns;
      no_separator = (find-none (contains_upper (to_upper s)) dangerous_patterns separators).0;
      no_keyword =
          find-none (keyword_rejected (detect_statement_type s) (to_upper s))
            dangerous_statement_keywords keywords;
    }

any-All : (p : Bytes → Bool) (xs : List Bytes) → All (λ x. p x ≡ false) xs → any p xs ≡ false
any-All p [] h = refl
any-All p (x ∷ xs) h = ground (arith, any-All p xs h.1)

not_lt : (n m : ℕ) → n ≤ m → ltb m n ≡ false
not_lt n m h = ground arith

IsClean-validate_sql_statement : (s : Bytes) → IsClean s → validate_sql_statement s ≡ none
unfolding validate_sql_statement validate_patterns validate_keywords
IsClean-validate_sql_statement s c =
    let short : ltb max_statement_length (length s) ≡ false =
      not_lt (length s) max_statement_length c.short in
    rw (
      c.not_blank,
      short,
      any-All (contains s) comment_patterns c.no_comment,
      validate_patterns,
      find-none_of_All (contains_upper (to_upper s)) sql_injection_patterns c.no_pattern,
      c.no_separator,
      validate_keywords,
      find-none_of_All (keyword_rejected (detect_statement_type s) (to_upper s))
          dangerous_statement_keywords c.no_keyword,
    )

-- A statement is accepted exactly when it is clean.
validate_sql_statement_iff : (s : Bytes) → (validate_sql_statement s ≡ none) ↔ IsClean s
validate_sql_statement_iff s = (validate_sql_statement-IsClean s, IsClean-validate_sql_statement s)
