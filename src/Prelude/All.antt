-- ===== src/Prelude/All.antt =====
-- A property of every entry of a map.
use Prim.Native.Nat.{ℕ, zero, suc}
use mathlib.Core.Path.{◌≡◌, subst}
use mathlib.Core.Logic.{inl, inr}
use mathlib.Core.Option.{some, some-injective}
use mathlib.Core.List.{List, [], ◌∷◌}
use absnfs.Prelude.Tests.{Bool-cases}
use absnfs.Prelude.Eq.{Eq, ◌==◌}
use absnfs.Prelude.Lists.{take}
use absnfs.Prelude.Assoc.{lookup, delete, insert}

abbrev pub All {ℓ κ} : {A : Type ℓ} → (A → Type κ) → List A → Type κ
All P [] = Unit
All P (x ∷ xs) = P x × All P xs

module _ {ℓ κ ι} {K : Type ℓ} {V : Type κ} ⦃e : Eq K⦄ (P : V → Type ι) where
  abbrev pub AllValues : List (K × V) → Type ι
  AllValues [] = Unit
  AllValues ((k, v) ∷ m) = P v × AllValues m

  pub AllValues-take : (n : ℕ) (m : List (K × V)) → AllValues m → AllValues (take n m)
  AllValues-take zero m h = tt
  AllValues-take (suc n) [] h = tt
  AllValues-take (suc n) ((k, v) ∷ m) h = (h.0, AllValues-take n m h.1)

  pub AllValues-delete : (k : K) (m : List (K × V)) → AllValues m → AllValues (delete k m)
  unfolding delete
  AllValues-delete k [] h = tt
  AllValues-delete k ((j, v) ∷ m) h = elim (Bool-cases (j == k)) [
    | inl same ↦ rw same (AllValues-delete k m h.1)
    | inr other ↦ rw other (h.0, AllValues-delete k m h.1)
  ]

  pub AllValues-insert :
      (k : K) (v : V) (m : List (K × V)) → P v → AllValues m → AllValues (insert k v m)
  unfolding insert
  AllValues-insert k v m p h = (p, AllValues-delete k m h)

  pub AllValues-lookup :
      (k : K) (v : V) (m : List (K × V)) → AllValues m → lookup k m ≡ some v → P v
  AllValues-lookup k v [] h found = cc
  AllValues-lookup k v ((j, w) ∷ m) h found = elim (Bool-cases (j == k)) [
    | inl same ↦ subst P (some-injective w v (rw same at found)) h.0
    | inr other ↦ AllValues-lookup k v m h.1 (rw other at found)
  ]
