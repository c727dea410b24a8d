-- ===== src/Common/Map/Laws.antt =====
-- The laws of Go's map operations.

use mathlib.Core.Path.{subst}
use openbao_teradata_secret.Common.{
  ◌+◌, ◌≤◌, ◌≡◌, refl, Bool, false, [], ◌∷◌, none, some, inl, inr, arith, length, Bool-cases,
  Option-cases, if◌then◌else◌,
}
use openbao_teradata_secret.Common.Bytes.{Bytes, bytes_eq, bytes_eq_iff, bytes_eq_refl}
use openbao_teradata_secret.Common.Map.{
  Map, lookup, insert, delete, delete_where, keys_where, Distinct, AllEntries,
}

module _ {ℓ} {V : Type ℓ} where
  pub lookup-nil : (k : Bytes) → lookup {V = V} k [] ≡ none
  unfolding lookup
  lookup-nil k = refl

  pub lookup-insert :
      (k j : Bytes) (v : V) (m : Map V)
      → lookup j (insert k v m) ≡ (if bytes_eq k j then some v else lookup j m)
  unfolding lookup insert
  lookup-insert k j v [] = refl
  lookup-insert k j v ((i, w) ∷ m) =
      ground (arith, bytes_eq_iff k j, bytes_eq_iff i k, bytes_eq_iff i j, lookup-insert k j v m)

  pub lookup-insert_self : (k : Bytes) (v : V) (m : Map V) → lookup k (insert k v m) ≡ some v
  lookup-insert_self k v m = simp (lookup-insert, bytes_eq_refl)

  pub lookup-delete :
      (k j : Bytes) (m : Map V)
      → lookup j (delete k m) ≡ (if bytes_eq k j then none else lookup j m)
  unfolding lookup delete
  lookup-delete k j [] = ground arith
  lookup-delete k j ((i, w) ∷ m) =
      ground (arith, bytes_eq_iff k j, bytes_eq_iff i k, bytes_eq_iff i j, lookup-delete k j m)

  pub delete_absent : (k : Bytes) (m : Map V) → lookup k m ≡ none → delete k m ≡ m
  unfolding lookup delete
  delete_absent k [] h = refl
  delete_absent k ((i, w) ∷ m) h = ground (arith, delete_absent k m)

  pub length-delete-le : (k : Bytes) (m : Map V) → length (delete k m) ≤ length m
  unfolding delete
  length-delete-le k [] = omega arith
  length-delete-le k ((i, w) ∷ m) = ground (arith, length-delete-le k m)

  -- With one entry to a key, a delete of a present key drops one entry.
  pub length-delete :
      (k : Bytes) (m : Map V) (v : V)
      → Distinct m
      → lookup k m ≡ some v
      → length (delete k m) + 1 ≡ length m
  unfolding lookup delete
  length-delete k [] v d h = cc
  length-delete k ((i, w) ∷ m) v d h =
      ground (arith, bytes_eq_iff i k, delete_absent i m, length-delete k m v)

  pub length-insert_old :
      (k : Bytes) (v : V) (m : Map V) (w : V)
      → lookup k m ≡ some w
      → length (insert k v m) ≡ length m
  unfolding lookup insert
  length-insert_old k v [] w h = cc
  length-insert_old k v ((i, u) ∷ m) w h = ground (arith, length-insert_old k v m w)

  pub length-insert_new :
      (k : Bytes) (v : V) (m : Map V) → lookup k m ≡ none → length (insert k v m) ≡ length m + 1
  unfolding lookup insert
  length-insert_new k v [] h = omega arith
  length-insert_new k v ((i, u) ∷ m) h = ground (arith, length-insert_new k v m)

  pub length-insert-le : (k : Bytes) (v : V) (m : Map V) → length (insert k v m) ≤ length m + 1
  unfolding insert
  length-insert-le k v [] = omega arith
  length-insert-le k v ((i, u) ∷ m) = ground (arith, length-insert-le k v m)

  pub insert-Distinct : (k : Bytes) (v : V) (m : Map V) → Distinct m → Distinct (insert k v m)
  unfolding insert lookup
  insert-Distinct k v [] d = (refl, tt)
  insert-Distinct k v ((i, u) ∷ m) d =
      ground (
        arith,
        bytes_eq_iff i k,
        bytes_eq_iff k i,
        lookup-insert k i v m,
        insert-Distinct k v m d.1,
      )

  pub delete-Distinct : (k : Bytes) (m : Map V) → Distinct m → Distinct (delete k m)
  unfolding delete
  delete-Distinct k [] d = tt
  delete-Distinct k ((i, u) ∷ m) d = ground (arith, lookup-delete k i m, delete-Distinct k m d.1)

  -- A sweep by a predicate keeps exactly the entries that fail it.
  module _ (p : Bytes → V → Bool) where
    lookup-delete_where-none :
        (j : Bytes) (m : Map V) → lookup j m ≡ none → lookup j (delete_where p m) ≡ none
    unfolding lookup delete_where
    lookup-delete_where-none j [] h = refl
    lookup-delete_where-none j ((i, u) ∷ m) h = ground (arith, lookup-delete_where-none j m)

    pub delete_where-Distinct : (m : Map V) → Distinct m → Distinct (delete_where p m)
    unfolding delete_where
    delete_where-Distinct [] d = tt
    delete_where-Distinct ((i, u) ∷ m) d =
        ground (arith, lookup-delete_where-none i m, delete_where-Distinct m d.1)

    pub lookup-delete_where :
        (j : Bytes) (m : Map V)
        → Distinct m
        → lookup j (delete_where p m)
          ≡ (elim (lookup j m) [ none ↦ none | some v ↦ if p j v then none else some v ])
    unfolding lookup delete_where
    lookup-delete_where j [] d = refl
    lookup-delete_where j ((i, u) ∷ m) d =
        ground (arith, bytes_eq_iff i j, lookup-delete_where-none i m, lookup-delete_where j m d.1)

    pub delete_where_kept :
        (j : Bytes) (m : Map V) (v : V)
        → Distinct m
        → lookup j (delete_where p m) ≡ some v
        → (lookup j m ≡ some v) × (p j v ≡ false)
    delete_where_kept j m v d h = elim (Option-cases (lookup j m)) [
      | inl e ↦ absurd (ground (arith, lookup-delete_where-none j m))
      | inr (u, e) ↦ ground (arith, rw e at (lookup-delete_where j m d))
    ]

    pub length-delete_where :
        (m : Map V) → length (delete_where p m) + length (keys_where p m) ≡ length m
    unfolding delete_where keys_where
    length-delete_where [] = omega arith
    length-delete_where ((i, u) ∷ m) = ground (arith, length-delete_where m)

-- A property of every entry survives the operations.
module _ {ℓ κ} {V : Type ℓ} (P : V → Type κ) where
  pub AllEntries-insert :
      (k : Bytes) (v : V) (m : Map V) → P v → AllEntries P m → AllEntries P (insert k v m)
  unfolding insert
  AllEntries-insert k v [] p a = (p, tt)
  AllEntries-insert k v ((i, u) ∷ m) p a = elim (Bool-cases (bytes_eq i k)) [
    | inl e ↦ rw e (p, a.1)
    | inr e ↦ rw e (a.0, AllEntries-insert k v m p a.1)
  ]

  pub AllEntries-delete : (k : Bytes) (m : Map V) → AllEntries P m → AllEntries P (delete k m)
  unfolding delete
  AllEntries-delete k [] a = tt
  AllEntries-delete k ((i, u) ∷ m) a = elim (Bool-cases (bytes_eq i k)) [
    | inl e ↦ rw e (AllEntries-delete k m a.1)
    | inr e ↦ rw e (a.0, AllEntries-delete k m a.1)
  ]

  pub AllEntries-delete_where :
      (p : Bytes → V → Bool) (m : Map V) → AllEntries P m → AllEntries P (delete_where p m)
  unfolding delete_where
  AllEntries-delete_where p [] a = tt
  AllEntries-delete_where p ((i, u) ∷ m) a = elim (Bool-cases (p i u)) [
    | inl e ↦ rw e (AllEntries-delete_where p m a.1)
    | inr e ↦ rw e (a.0, AllEntries-delete_where p m a.1)
  ]

  pub AllEntries-lookup :
      (k : Bytes) (m : Map V) (v : V) → AllEntries P m → lookup k m ≡ some v → P v
  unfolding lookup
  AllEntries-lookup k [] v a h = absurd (cc)
  AllEntries-lookup k ((i, u) ∷ m) v a h = elim (Bool-cases (bytes_eq i k)) [
    | inl e ↦ let q : u ≡ v = ground arith in subst P q a.0
    | inr e ↦ AllEntries-lookup k m v a.1 (rw e at h)
  ]
