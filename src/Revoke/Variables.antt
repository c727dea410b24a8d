-- ===== src/Revoke/Variables.antt =====
-- plugin/path_revoke_creds.go: that the loop of `replaceVariable` ends.
use openbao_teradata_secret.Common.{
  ℕ, zero, suc, ◌+◌, ◌-◌, ◌≡◌, ◌≤◌, ◌<◌, refl, sym, ap, ◌⊎◌, inl, inr, true, false, [], ◌∷◌, ◌++◌,
  length, ◌==◌, arith, Bool-cases,
}
use openbao_teradata_secret.Common.Bytes.{Bytes, is_empty, has_prefix, bytes_eq, bytes_eq_iff}
use openbao_teradata_secret.Odbc.Build.{replace_all}
use openbao_teradata_secret.Revoke.{count_byte, replace_rounds, replace_variable}

count-append : (b : ℕ) (s t : Bytes) → count_byte b (s ++ t) ≡ count_byte b s + count_byte b t
count-append b [] t = omega arith
count-append b (c ∷ s) t = omega (arith, count-append b s t)

module _ (b : ℕ) (old new : Bytes) (clean : count_byte b new ≡ 0) where
  starts_with : (c : ℕ) (s : Bytes) → has_prefix (c ∷ s) (b ∷ old) ≡ true → c == b ≡ true
  unfolding has_prefix
  starts_with c s h = ground arith

  replace_hit :
      (c : ℕ) (s : Bytes)
      → has_prefix (c ∷ s) (b ∷ old) ≡ true
      → replace_all (b ∷ old) new 0 (c ∷ s)
        ≡ new ++ replace_all (b ∷ old) new (length (b ∷ old) - 1) s
  unfolding replace_all
  replace_hit c s hit = rw (replace_all, hit)

  replace_miss :
      (c : ℕ) (s : Bytes)
      → has_prefix (c ∷ s) (b ∷ old) ≡ false
      → replace_all (b ∷ old) new 0 (c ∷ s) ≡ c ∷ replace_all (b ∷ old) new 0 s
  unfolding replace_all
  replace_miss c s miss = rw (replace_all, miss)

  -- Passing over bytes drops braces.
  count-replace_all :
      (skip : ℕ) (s : Bytes) → count_byte b (replace_all (b ∷ old) new skip s) ≤ count_byte b s
  unfolding replace_all
  count-replace_all skip [] = omega arith
  count-replace_all (suc skip) (c ∷ s) = omega (arith, count-replace_all skip s)
  count-replace_all zero (c ∷ s) = elim (Bool-cases (has_prefix (c ∷ s) (b ∷ old))) [
    | inl hit ↦ rw (replace_hit c s hit) (
        omega (
          arith,
          clean,
          count-append b new (replace_all (b ∷ old) new (length (b ∷ old) - 1) s),
          count-replace_all (length (b ∷ old) - 1) s,
        ))
    | inr miss ↦ rw (replace_miss c s miss) (omega (arith, count-replace_all zero s))
  ]

  -- A round that changes the text leaves fewer braces.
  replace_all_less :
      (s : Bytes)
      → (replace_all (b ∷ old) new 0 s ≡ s)
        ⊎ (count_byte b (replace_all (b ∷ old) new 0 s) < count_byte b s)
  unfolding replace_all
  replace_all_less [] = inl refl
  replace_all_less (c ∷ s) = elim (Bool-cases (has_prefix (c ∷ s) (b ∷ old))) [
    | inl hit ↦
        let starts : c == b ≡ true = starts_with c s hit in
        rw (replace_hit c s hit) (
          inr (
            rw starts (
              omega (
                arith,
                clean,
                count-append b new (replace_all (b ∷ old) new (length (b ∷ old) - 1) s),
                count-replace_all (length (b ∷ old) - 1) s,
              ))))
    | inr miss ↦ rw (replace_miss c s miss) (elim (replace_all_less s) [
      | inl same ↦ inl (rw same)
      | inr fewer ↦ inr (omega (arith, fewer))
    ])
  ]

  -- With more rounds than the text has braces the loop ends with a text that another round leaves as
  -- it is.
  replace_rounds_done :
      (n : ℕ) (s : Bytes)
      → count_byte b s < n
      → replace_all (b ∷ old) new 0 (replace_rounds n (b ∷ old) new s)
        ≡ replace_rounds n (b ∷ old) new s
  unfolding replace_rounds
  replace_rounds_done zero s h = absurd (omega arith)
  replace_rounds_done (suc left) s h =
      let next = replace_all (b ∷ old) new 0 s in
      elim (Bool-cases (bytes_eq s next)) [
        | inl same ↦
            rw (replace_rounds, same)
              (ap (replace_all (b ∷ old) new 0) (sym ((bytes_eq_iff s next).0 same)))
        | inr changed ↦ elim (replace_all_less s) [
          | inl same ↦ absurd (ground (arith, bytes_eq_iff s next))
          | inr fewer ↦
              rw (replace_rounds, changed) (replace_rounds_done left next (omega (arith, fewer)))
        ]
      ]

-- For a placeholder that begins with a brace and a value that is not empty and has no opening
-- brace, the loop of replaceVariable comes to an end in as many rounds as the text has opening
-- braces, and one more: another round would leave its result as it is.
pub replace_variable_done :
    (sql old value : Bytes)
    → count_byte b'{' value ≡ 0
    → is_empty value ≡ false
    → replace_all (b'{' ∷ old) value 0 (replace_variable sql (b'{' ∷ old) value)
      ≡ replace_variable sql (b'{' ∷ old) value
unfolding replace_variable
replace_variable_done sql old value clean full =
    rw full (replace_rounds_done b'{' old value clean (suc (count_byte b'{' sql)) sql (omega arith))
