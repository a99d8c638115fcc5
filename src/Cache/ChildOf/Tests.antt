-- ===== src/Cache/ChildOf/Tests.antt =====
-- A file in a directory, on which the theorems on direct children are tried.
use absnfs.Prelude.{ℕ, ◌≡◌, refl, true, List, [], ◌∷◌}
use absnfs.Cache.Lru.{FilePath}
use absnfs.Cache.ChildOf.{slash, IsName, is_plain, is_child_of}

abbrev dir : FilePath
dir = b'/' ∷ b'd' ∷ []

abbrev name : List ℕ
name = b'f' ∷ []

abbrev below_slash : List ℕ
below_slash = b'd' ∷ b'/' ∷ b'f' ∷ []

name-IsName : IsName name
name-IsName = record { nonempty = λ e. cc; no_slash = refl }

there : is_child_of (slash ∷ below_slash) dir ≡ true
unfolding is_child_of is_plain
there = refl
