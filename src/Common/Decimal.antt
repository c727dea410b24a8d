-- ===== src/Common/Decimal.antt =====
-- `%d` of a number.
use openbao_teradata_secret.Common.Bytes.{Bytes}
use openbao_teradata_secret.Common.Tests.{ltb, Bool-cases}
use Prim.Native.Nat.{ℕ, zero, suc, ◌+◌, ◌-◌, ◌*◌, ◌/◌, ◌%◌, ◌<◌}
use mathlib.Core.Path.{◌≡◌, ap, ◌∙◌}
use mathlib.Core.Logic.{inl, inr}
use native.Mathlib.Omega.{arith}
use mathlib.Core.Bool.{true, false}
use mathlib.Core.List.{[], ◌∷◌}

-- The digits before those that are written, with as many rounds left as the number may need.
unfoldable pub digits : ℕ → ℕ → Bytes → Bytes
digits zero n written = written
digits (suc left) n written = elim (ltb n 10) [
  | true ↦ (b'0' + n) ∷ written
  | false ↦ digits left (n / 10) ((b'0' + n % 10) ∷ written)
]

unfoldable pub decimal : ℕ → Bytes
unfolding digits
decimal n = digits (suc n) n []

-- The number that digits stand for, after those read.
abbrev pub read_digits : ℕ → Bytes → ℕ
read_digits n [] = n
read_digits n (c ∷ s) = read_digits (n * 10 + (c - b'0')) s

digits_lem :
    (left n : ℕ) (written : Bytes)
    → n < left
    → read_digits 0 (digits left n written) ≡ read_digits n written
unfolding digits
digits_lem zero n written h = absurd (omega arith)
digits_lem (suc left) n written h = elim (Bool-cases (ltb n 10)) [
  | inl small ↦ rw (digits, small) (ap (λ k. read_digits k written) (omega arith))
  | inr large ↦
      let quotient : n / 10 < left = ground arith in
      rw (digits, large)
        (digits_lem left (n / 10) ((b'0' + n % 10) ∷ written) quotient
          ∙ ap (λ k. read_digits k written) (omega arith))
]

-- The rounds of `decimal` are enough: its digits stand for the number.
pub read_digits-decimal : (n : ℕ) → read_digits 0 (decimal n) ≡ n
unfolding decimal
read_digits-decimal n = digits_lem (suc n) n [] (omega arith)
