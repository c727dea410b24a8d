-- ===== src/Common/Map.antt =====
-- Go's `map[string]V` as an association list. The order of the list stands for the order in which
-- `range` visits the keys, which Go leaves open: statements quantify over every list.
pub mod Laws
use Prim.Native.Nat.{ℕ, zero, suc, ◌+◌, ◌≤◌}
use mathlib.Core.Bool.{Bool, true, false, not}
use mathlib.Core.List.{List, [], ◌∷◌}
use mathlib.Core.Option.{Option, none, some}
use mathlib.Core.Path.{◌≡◌, refl}
use native.Mathlib.Omega.{arith}
use openbao_teradata_secret.Common.Bytes.{Bytes, bytes_eq, bytes_eq_iff}
use openbao_teradata_secret.Common.Lists.{length}
use openbao_teradata_secret.Common.Tests.{if◌then◌else◌}

abbrev pub Map {ℓ} : Type ℓ → Type ℓ
Map V = List (Bytes × V)

module _ {ℓ} {V : Type ℓ} where
  -- `v, exists := m[k]`
  unfoldable pub lookup : Bytes → Map V → Option V
  lookup k [] = none
  lookup k ((j, v) ∷ m) = if bytes_eq j k then some v else lookup k m

  -- `m[k] = v`
  unfoldable pub insert : Bytes → V → Map V → Map V
  insert k v [] = (k, v) ∷ []
  insert k v ((j, w) ∷ m) = if bytes_eq j k then (k, v) ∷ m else (j, w) ∷ insert k v m

  -- `delete(m, k)`
  unfoldable pub delete : Bytes → Map V → Map V
  delete k [] = []
  delete k ((j, w) ∷ m) = let rest = delete k m in if bytes_eq j k then rest else (j, w) ∷ rest

  -- `for k, v := range m { if p(k, v) { delete(m, k) } }`
  unfoldable pub delete_where : (Bytes → V → Bool) → Map V → Map V
  delete_where p [] = []
  delete_where p ((j, w) ∷ m) = let rest = delete_where p m in if p j w then rest else (j, w) ∷ rest

  -- The keys that such a loop collects, in its order.
  unfoldable pub keys_where : (Bytes → V → Bool) → Map V → List Bytes
  keys_where p [] = []
  keys_where p ((j, w) ∷ m) = let rest = keys_where p m in if p j w then j ∷ rest else rest

  -- A key has one entry.
  abbrev pub Distinct : Map V → Type ℓ
  Distinct [] = Unit
  Distinct ((j, w) ∷ m) = (lookup j m ≡ none) × Distinct m

  -- Every entry satisfies a property.
  abbrev pub AllEntries {κ} : (V → Type κ) → Map V → Type κ
  AllEntries P [] = Unit
  AllEntries P ((j, w) ∷ m) = P w × AllEntries P m
