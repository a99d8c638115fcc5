-- ===== src/Cache/Dir/Tests.antt =====
-- A directory cache with one listing, on which its theorems are tried. A directory entry is a
-- number.
use absnfs.Prelude.{ℕ, List, [], ◌∷◌}
use absnfs.Prelude.Int.{pos}
use absnfs.Attrs.{seconds}
use absnfs.Cache.ChildOf.{root}
use absnfs.Cache.Dir.{DirCache, new_dir_cache, put}
use absnfs.Cache.Dir.Valid.{IsValid, Reach, start, next, stored, DirCache-IsValid}

abbrev listing : List ℕ
listing = 4 ∷ []

abbrev cache : DirCache ℕ
cache = put root (1 ∷ 2 ∷ []) (pos 5) (new_dir_cache (seconds 5) (pos 2) (pos 3))

reach : Reach (seconds 5) (pos 2) (pos 3) cache
reach = next start (stored root (1 ∷ 2 ∷ []) (pos 5))

DirCache-IsValid_example : IsValid cache
DirCache-IsValid_example = DirCache-IsValid reach
