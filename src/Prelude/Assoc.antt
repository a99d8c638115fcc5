-- ===== src/Prelude/Assoc.antt =====
-- Go's maps as association lists: `m[k]`, `m[k] = v`, `delete(m, k)` and `len(m)`, which is the
-- length of the list. Iteration order is never relied on.
use Prim.Native.Nat.{suc, ◌≤◌}
use mathlib.Core.Path.{◌≡◌, refl, ap}
use mathlib.Core.Option.{Option, none, some}
use mathlib.Core.List.{List, [], ◌∷◌}
use native.Mathlib.Omega.{arith}
use absnfs.Prelude.Tests.{if◌then◌else◌}
use absnfs.Prelude.Eq.{Eq, ◌==◌}
use absnfs.Prelude.Lists.{length, last?}

module _ {ℓ κ} {K : Type ℓ} {V : Type κ} ⦃e : Eq K⦄ where
  abbrev pub lookup : K → List (K × V) → Option V
  lookup k [] = none
  lookup k ((j, v) ∷ m) = if j == k then some v else lookup k m

  unfoldable pub delete : K → List (K × V) → List (K × V)
  delete k [] = []
  delete k ((j, v) ∷ m) = let rest = delete k m in if j == k then rest else (j, v) ∷ rest

  unfoldable pub insert : K → V → List (K × V) → List (K × V)
  insert k v m = (k, v) ∷ delete k m

  -- No key twice.
  abbrev pub Distinct : List (K × V) → Type κ
  Distinct [] = Unit
  Distinct ((k, v) ∷ m) = (lookup k m ≡ none) × Distinct m

  pub lookup-delete :
      (k j : K) (m : List (K × V)) → lookup j (delete k m) ≡ (if k == j then none else lookup j m)
  unfolding delete
  lookup-delete k j [] = ground arith
  lookup-delete k j ((i, v) ∷ m) =
      ground (arith, lookup-delete k j m, e.beq_iff i k, e.beq_iff i j, e.beq_iff k j)

  pub lookup-insert :
      (k j : K) (v : V) (m : List (K × V))
      → lookup j (insert k v m) ≡ (if k == j then some v else lookup j m)
  unfolding insert
  lookup-insert k j v m = ground (arith, lookup-delete k j m)

  pub lookup-insert_self : (k : K) (v : V) (m : List (K × V)) → lookup k (insert k v m) ≡ some v
  lookup-insert_self k v m = ground (arith, lookup-insert k k v m, e.beq_iff k k)

  pub delete-Distinct : (k : K) (m : List (K × V)) → Distinct m → Distinct (delete k m)
  unfolding delete
  delete-Distinct k [] d = tt
  delete-Distinct k ((j, v) ∷ m) d = ground (arith, delete-Distinct k m, lookup-delete k j m)

  pub insert-Distinct : (k : K) (v : V) (m : List (K × V)) → Distinct m → Distinct (insert k v m)
  unfolding insert
  insert-Distinct k v m d =
      (ground (arith, lookup-delete k k m, e.beq_iff k k), delete-Distinct k m d)

  pub delete_absent : (k : K) (m : List (K × V)) → lookup k m ≡ none → delete k m ≡ m
  unfolding delete
  delete_absent k [] h = refl
  delete_absent k ((j, v) ∷ m) h = ground (arith, delete_absent k m)

  pub length-delete :
      (k : K) (m : List (K × V)) {v : V}
      → Distinct m
      → lookup k m ≡ some v
      → suc (length (delete k m)) ≡ length m
  unfolding delete
  length-delete k [] d h = cc
  length-delete k ((j, w) ∷ m) {v} d h =
      ground (arith, length-delete k m {v = v} d.1, delete_absent k m, e.beq_iff j k)

  pub length-insert :
      (k : K) (w : V) (m : List (K × V)) {v : V}
      → Distinct m
      → lookup k m ≡ some v
      → length (insert k w m) ≡ length m
  unfolding insert
  length-insert k w m {v} d h = length-delete k m {v = v} d h

  -- A second deletion finds nothing.
  pub delete-insert : (k : K) (v : V) (m : List (K × V)) → delete k (insert k v m) ≡ delete k m
  unfolding insert delete
  delete-insert k v m =
      ground (arith, e.beq_iff k k, delete_absent k (delete k m), lookup-delete k k m)

  pub insert-insert :
      (k : K) (v w : V) (m : List (K × V)) → insert k v (insert k w m) ≡ insert k v m
  unfolding insert
  insert-insert k v w m = ap (λ t. (k, v) ∷ t) (delete-insert k w m)

  pub length-delete-le : (k : K) (m : List (K × V)) → length (delete k m) ≤ length m
  unfolding delete
  length-delete-le k [] = omega arith
  length-delete-le k ((j, v) ∷ m) = ground (arith, length-delete-le k m)

  -- The last entry of a map in insertion order is the one under its key.
  pub lookup-last :
      (m : List (K × V)) {k : K} {v : V} → Distinct m → last? m ≡ some (k, v) → lookup k m ≡ some v
  lookup-last [] d h = cc
  lookup-last ((i, w) ∷ []) {k} d h = ground (arith, e.beq_iff i k)
  lookup-last ((i, w) ∷ (j, x) ∷ m) {k} {v} d h =
      ground (arith, lookup-last ((j, x) ∷ m) d.1 h, e.beq_iff i k)
