-- ===== src/Security/Sql/Refused.antt =====
-- security/sql_validation.go: texts that `ValidateSQLStatement` refuses wherever they stand, and
-- words that it refuses at the beginning.
use openbao_teradata_secret.Common.{
  ◌⊹◌, append_assoc, ℕ, ◌≡◌, ◌≢◌, refl, sym, inl, inr, Bool, true, false, List, [], ◌∷◌, ◌++◌, none,
  some, any, ◌==◌, All, length, arith, Bool-cases, map, leb,
}
use mathlib.Core.Path.{subst}
use openbao_teradata_secret.Common.Bytes.{
  Bytes, codes, is_letter, bytes_eq, bytes_eq_iff, contains, contains_byte, has_prefix, index,
  byte_at, to_upper, upper_byte, trim_space, trim_left, trim_right,
}
use openbao_teradata_secret.Security.Sql.{
  sql_injection_patterns, dangerous_statement_keywords, detect_statement_type, unknown,
  keyword_rejected, keyword_stands, is_word_boundary, contains_upper, validate_sql_statement,
}
use openbao_teradata_secret.Security.Sql.Accepted.{IsClean, validate_sql_statement-IsClean}

-- In upper case.
abbrev pub forbidden_texts : List Bytes
forbidden_texts =
    codes "--"
    ∷ codes "/*"
    ∷ codes "*/"
    ∷ codes "XP_"
    ∷ codes "SP_"
    ∷ codes "SYS."
    ∷ codes "SYSOBJECTS"
    ∷ codes "SYSCOLUMNS"
    ∷ codes "WAITFOR"
    ∷ codes "DELAY"
    ∷ codes "0X"
    ∷ codes "CHAR("
    ∷ codes "NCHAR("
    ∷ codes "VARCHAR("
    ∷ codes "NVARCHAR("
    ∷ codes "EXEC("
    ∷ codes "EXECUTE("
    ∷ codes "EVAL("
    ∷ codes ";"
    ∷ []

abbrev pub forbidden_openings : List Bytes
forbidden_openings =
    codes "SELECT"
    ∷ codes "INSERT"
    ∷ codes "UPDATE"
    ∷ codes "DELETE"
    ∷ codes "DROP"
    ∷ codes "CREATE"
    ∷ codes "ALTER"
    ∷ codes "TRUNCATE"
    ∷ codes "EXEC"
    ∷ codes "EXECUTE"
    ∷ codes "DECLARE"
    ∷ codes "MERGE"
    ∷ codes "UNION"
    ∷ []

-- One of the texts in it, in upper or lower case; or one of the words at its beginning, with a byte
-- behind it that is no letter, underscore or opening parenthesis.
pub data IsForbidden (s : Bytes) : Type 0 where
  has_text :
      (before text after : Bytes)
      → s ≡ before ++ text ++ after
      → any (bytes_eq (to_upper text)) forbidden_texts ≡ true
      → IsForbidden s
  opens :
      (word after : Bytes) (c : ℕ)
      → s ≡ word ++ c ∷ after
      → any (bytes_eq (to_upper word)) forbidden_openings ≡ true
      → is_letter c ≡ false
      → (c == b'_') ≡ false
      → (c == b'(') ≡ false
      → IsForbidden s

All-at :
    (P : Bytes → Type 0) (x : Bytes) (xs : List Bytes) → any (bytes_eq x) xs ≡ true → All P xs → P x
All-at P x [] h a = absurd (cc)
All-at P x (y ∷ ys) h a = elim (Bool-cases (bytes_eq x y)) [
  | inl same ↦ subst P (sym ((bytes_eq_iff x y).0 same)) a.0
  | inr other ↦ All-at P x ys (ground arith) a.1
]

to_upper-append : (s t : Bytes) → to_upper (s ++ t) ≡ to_upper s ++ to_upper t
unfolding to_upper
to_upper-append [] t = refl
to_upper-append (c ∷ s) t = rw (to_upper-append s t)

has_prefix-append : (p t : Bytes) → has_prefix (p ++ t) p ≡ true
unfolding has_prefix
has_prefix-append [] [] = refl
has_prefix-append [] (c ∷ t) = refl
has_prefix-append (c ∷ p) t = ground (arith, has_prefix-append p t)

contains_start : (p t : Bytes) → contains (p ++ t) p ≡ true
unfolding contains has_prefix
contains_start [] [] = refl
contains_start [] (c ∷ t) = refl
contains_start (c ∷ p) t = ground (arith, has_prefix-append p t)

contains-middle : (s p t : Bytes) → contains (s ++ (p ++ t)) p ≡ true
unfolding contains
contains-middle [] p t = contains_start p t
contains-middle (c ∷ s) p t = ground (arith, contains-middle s p t)

All-snoc :
    (P : Bytes → Type 0) (xs : List Bytes) (x : Bytes) → All P xs → P x → All P (xs ++ x ∷ [])
All-snoc P [] x a p = (p, tt)
All-snoc P (y ∷ ys) x a p = (a.0, All-snoc P ys x a.1 p)

clean_texts : (s : Bytes) → IsClean s → All (λ p. contains (to_upper s) p ≡ false) forbidden_texts
unfolding contains_upper to_upper upper_byte
clean_texts s c =
    All-snoc (λ p. contains (to_upper s) p ≡ false) (map to_upper sql_injection_patterns)
      (codes ";") c.no_pattern c.no_separator

text_contained :
    (s before text after : Bytes)
    → s ≡ before ++ text ++ after
    → contains (to_upper s) (to_upper text) ≡ true
text_contained s before text after h =
    rw
      (
        h,
        append_assoc before text after,
        to_upper-append before (text ++ after),
        to_upper-append text after,
      )
      (contains-middle (to_upper before) (to_upper text) (to_upper after))

-- A prefix of what is left of a text after trimming its end is one of the text.
trim_right_prefix :
    (s p : Bytes)
    → has_prefix (to_upper s) p ≡ false
    → has_prefix (to_upper (trim_right s)) p ≡ false
unfolding has_prefix to_upper trim_right
trim_right_prefix s [] h = absurd (cc)
trim_right_prefix [] (q ∷ p) h = refl
trim_right_prefix (c ∷ s) (q ∷ p) h = ground (arith, trim_right_prefix s p)

abbrev starts_upper : Bytes → Bool
starts_upper [] = false
starts_upper (c ∷ s) = leb b'A' c

-- What is computed of a word: it begins none of the statements of a type of their own, stands at the
-- beginning of what it begins, and is one of the keywords.
abbrev Opens : Bytes → Type 0
Opens word =
    (((x : Bytes) → has_prefix (word ++ x) (codes "GRANT") ≡ false)
      × ((x : Bytes) → has_prefix (word ++ x) (codes "REVOKE") ≡ false)
      × ((x : Bytes) → has_prefix (word ++ x) (codes "CALL") ≡ false))
    × (((x : Bytes) → index (word ++ x) word ≡ some 0)
        × (any (bytes_eq word) dangerous_statement_keywords ≡ true)
        × (starts_upper word ≡ true))

openings-Opens : All Opens forbidden_openings
unfolding has_prefix index bytes_eq
openings-Opens =
    ((λ x. refl, λ x. refl, λ x. refl), (λ x. refl, refl, refl))
    ⊹ ((λ x. refl, λ x. refl, λ x. refl), (λ x. refl, refl, refl))
    ⊹ ((λ x. refl, λ x. refl, λ x. refl), (λ x. refl, refl, refl))
    ⊹ ((λ x. refl, λ x. refl, λ x. refl), (λ x. refl, refl, refl))
    ⊹ ((λ x. refl, λ x. refl, λ x. refl), (λ x. refl, refl, refl))
    ⊹ ((λ x. refl, λ x. refl, λ x. refl), (λ x. refl, refl, refl))
    ⊹ ((λ x. refl, λ x. refl, λ x. refl), (λ x. refl, refl, refl))
    ⊹ ((λ x. refl, λ x. refl, λ x. refl), (λ x. refl, refl, refl))
    ⊹ ((λ x. refl, λ x. refl, λ x. refl), (λ x. refl, refl, refl))
    ⊹ ((λ x. refl, λ x. refl, λ x. refl), (λ x. refl, refl, refl))
    ⊹ ((λ x. refl, λ x. refl, λ x. refl), (λ x. refl, refl, refl))
    ⊹ ((λ x. refl, λ x. refl, λ x. refl), (λ x. refl, refl, refl))
    ⊹ ((λ x. refl, λ x. refl, λ x. refl), (λ x. refl, refl, refl))
    ⊹ tt

byte_behind : (word x : Bytes) (c : ℕ) → byte_at (word ++ c ∷ x) (length word) ≡ some c
byte_behind [] x c = refl
byte_behind (b ∷ word) x c = byte_behind word x c

-- A text whose upper case begins with an upper case letter is left as it is by trimming its beginning.
upper_dense :
    (s word x : Bytes) → to_upper s ≡ word ++ x → starts_upper word ≡ true → trim_left s ≡ s
unfolding to_upper upper_byte trim_left
upper_dense s [] x h u = absurd (cc)
upper_dense [] (b ∷ word) x h u = refl
upper_dense (c ∷ s) (b ∷ word) x h u = ground arith

Opens-unknown :
    (s word x : Bytes) → to_upper s ≡ word ++ x → Opens word → detect_statement_type s ≡ unknown
unfolding detect_statement_type trim_space
Opens-unknown s word x h o =
    let none_of =
      λ (p : Bytes) (no : has_prefix (word ++ x) p ≡ false). trim_right_prefix s p (rw h no) in
    rw (
      upper_dense s word x h o.1.2,
      none_of (codes "GRANT") (o.0.0 x),
      none_of (codes "REVOKE") (o.0.1 x),
      none_of (codes "CALL") (o.0.2 x),
    )

Opens-stands :
    (word x : Bytes) (c : ℕ)
    → Opens word
    → is_letter c ≡ false
    → contains_byte (codes "_(") c ≡ false
    → keyword_stands (codes "_(") (word ++ c ∷ x) word ≡ true
unfolding keyword_stands is_word_boundary
Opens-stands word x c o l n = rw (keyword_stands, o.1.0 (c ∷ x), byte_behind word x c, l, n)

opened_upper :
    (s word after : Bytes) (c : ℕ)
    → s ≡ word ++ c ∷ after
    → is_letter c ≡ false
    → to_upper s ≡ to_upper word ++ c ∷ to_upper after
unfolding to_upper upper_byte
opened_upper s word after c h l =
    let same : upper_byte c ≡ c = ground arith in rw (h, to_upper-append word (c ∷ after), same)

no_word_byte :
    (c : ℕ) → (c == b'_') ≡ false → (c == b'(') ≡ false → contains_byte (codes "_(") c ≡ false
unfolding contains_byte
no_word_byte c u p = ground arith

keyword_stops :
    (s word x : Bytes) (c : ℕ)
    → to_upper s ≡ word ++ c ∷ x
    → Opens word
    → is_letter c ≡ false
    → contains_byte (codes "_(") c ≡ false
    → keyword_rejected (detect_statement_type s) (to_upper s) word ≡ true
unfolding keyword_rejected
keyword_stops s word x c h o l n =
    rw (Opens-unknown s word (c ∷ x) h o, h, keyword_rejected) (Opens-stands word x c o l n)

-- ValidateSQLStatement refuses every statement that has a comment mark, a semicolon or one of the
-- injection patterns anywhere in it, in upper or lower case, and every statement that begins with
-- one of thirteen dangerous keywords, SELECT, CREATE and DROP among them, in upper or lower case,
-- with a byte behind it that is no letter, underscore or opening parenthesis.
pub IsForbidden-refused : (s : Bytes) → IsForbidden s → validate_sql_statement s ≢ none
IsForbidden-refused s (has_text before text after same listed) accepted =
    let clean = clean_texts s (validate_sql_statement-IsClean s accepted) in
    let absent =
      All-at (λ p. contains (to_upper s) p ≡ false) (to_upper text) forbidden_texts listed clean in
    absurd (cc (text_contained s before text after same))
IsForbidden-refused s (opens word after c same listed l u p) accepted =
    let clean = validate_sql_statement-IsClean s accepted in
    let o = All-at Opens (to_upper word) forbidden_openings listed openings-Opens in
    let absent =
      All-at (λ k. keyword_rejected (detect_statement_type s) (to_upper s) k ≡ false)
        (to_upper word) dangerous_statement_keywords o.1.1 clean.no_keyword in
    absurd (
      cc (
        keyword_stops s (to_upper word) (to_upper after) c (opened_upper s word after c same l) o l
          (no_word_byte c u p)))
