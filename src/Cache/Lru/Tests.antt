-- ===== src/Cache/Lru/Tests.antt =====
-- A cache of two entries, on which the theorems on the access list are tried.
use absnfs.Prelude.{ℕ, ◌≤◌, ◌≡◌, [], ◌∷◌, length, take, arith, bytes_eq}
use absnfs.Prelude.Assoc.{insert}
use absnfs.Cache.Lru.{FilePath, Lru, empty, store}
use absnfs.Cache.Lru.Inv.{IsLinked, empty-IsLinked, store-IsLinked}
use absnfs.Cache.Lru.Bounds.{length-store}
use absnfs.Cache.Lru.View.{view, view-store}

abbrev path_a : FilePath
path_a = b'/' ∷ b'a' ∷ []

abbrev path_b : FilePath
path_b = b'/' ∷ b'b' ∷ []

abbrev path_c : FilePath
path_c = b'/' ∷ b'c' ∷ []

abbrev one : Lru ℕ
one = store 2 path_a 10 (empty 0)

abbrev two : Lru ℕ
two = store 2 path_b 20 one

one-IsLinked : IsLinked one
one-IsLinked = store-IsLinked 2 path_a 10 (empty-IsLinked 0)

two-IsLinked : IsLinked two
two-IsLinked = store-IsLinked 2 path_b 20 one-IsLinked

empty_bounded : length (empty {V = ℕ} 0).entries ≤ 2
unfolding empty
empty_bounded = omega arith

two_bounded : length two.entries ≤ 2
two_bounded =
    length-store 2 path_b 20 one-IsLinked (omega arith)
      (length-store 2 path_a 10 (empty-IsLinked 0) (omega arith) empty_bounded)

view-store_example : view (store 2 path_c 30 two) ≡ take 2 (insert path_c 30 (view two))
view-store_example = view-store 2 path_c 30 two-IsLinked (omega arith) two_bounded
