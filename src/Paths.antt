-- ===== src/Paths.antt =====
-- operations.go, sanitizePath, with filepath.Join and filepath.Clean as they are on Unix, where
-- filepath.ToSlash does nothing; nfs_operations.go, validateFilename and validateMode, where the
-- system is not Windows.
pub mod Clean
pub mod Sanitize
pub mod Names
mod Tests
use absnfs.Prelude.{
  ℕ, zero, suc, ◌+◌, ◌/◌, ◌%◌, ◌^◌, Bool, true, false, ◌&&◌, ◌||◌, not, ◌⊎◌, inl, inr, List, [],
  ◌∷◌, ◌++◌, length, take, ltb, nat_beq, if◌then◌else◌, ◌==◌, bytes_eq,
}
use absnfs.Cache.Lru.{FilePath}
use absnfs.Cache.ChildOf.{slash, has_byte}

abbrev pub dot : List ℕ
dot = b'.' ∷ []

abbrev pub dot_dot : List ℕ
dot_dot = b'.' ∷ b'.' ∷ []

abbrev pub backslash : ℕ
backslash = 92

abbrev pub onto_first : ℕ → List (List ℕ) → List (List ℕ)
onto_first b [] = (b ∷ []) ∷ []
onto_first b (c ∷ cs) = (b ∷ c) ∷ cs

-- What stands between the slashes.
unfoldable pub split_slash : List ℕ → List (List ℕ)
split_slash [] = [] ∷ []
split_slash (b ∷ s) =
    let rest = split_slash s in if nat_beq b slash then [] ∷ rest else onto_first b rest

unfoldable pub join_slash : List (List ℕ) → List ℕ
join_slash [] = []
join_slash (c ∷ []) = c
join_slash (c ∷ d ∷ cs) = c ++ (slash ∷ join_slash (d ∷ cs))

-- What `..` does to the elements before it, the last one first.
abbrev pub go_up : Bool → List (List ℕ) → List (List ℕ)
go_up rooted [] = if rooted then [] else dot_dot ∷ []
go_up rooted (c ∷ out) = if c == dot_dot then dot_dot ∷ c ∷ out else out

abbrev pub clean_step : Bool → List (List ℕ) → List ℕ → List (List ℕ)
clean_step rooted out c =
    if c == [] || c == dot then out else if c == dot_dot then go_up rooted out else c ∷ out

abbrev pub rev_onto : List (List ℕ) → List (List ℕ) → List (List ℕ)
rev_onto [] cs = cs
rev_onto (c ∷ out) cs = rev_onto out (c ∷ cs)

unfoldable pub clean_elements : Bool → List (List ℕ) → List (List ℕ) → List (List ℕ)
clean_elements rooted out [] = rev_onto out []
clean_elements rooted out (c ∷ cs) = clean_elements rooted (clean_step rooted out c) cs

abbrev pub starts_with_slash : List ℕ → Bool
starts_with_slash [] = false
starts_with_slash (b ∷ s) = nat_beq b slash

abbrev pub render : Bool → List (List ℕ) → FilePath
render true cs = slash ∷ join_slash cs
render false [] = dot
render false (c ∷ cs) = join_slash (c ∷ cs)

-- filepath.Clean.
unfoldable pub clean : FilePath → FilePath
unfolding split_slash join_slash clean_elements
clean s =
    let rooted = starts_with_slash s in render rooted (clean_elements rooted [] (split_slash s))

-- filepath.Join of two elements.
unfoldable pub join : FilePath → List ℕ → FilePath
unfolding clean
join [] [] = []
join [] (b ∷ name) = clean (b ∷ name)
join (b ∷ base) [] = clean (b ∷ base)
join (b ∷ base) (c ∷ name) = clean ((b ∷ base) ++ (slash ∷ (c ∷ name)))

-- strings.Contains(s, "..").
unfoldable pub has_dot_dot : List ℕ → Bool
has_dot_dot [] = false
has_dot_dot (b ∷ s) = take 2 (b ∷ s) == dot_dot || has_dot_dot s

pub data PathError : Type 0 where
  empty_name path_separator dot_name traversal parent_reference : PathError

unfoldable pub sanitize_path : FilePath → List ℕ → PathError ⊎ FilePath
sanitize_path base name =
    let path = clean (join base name) in
    let clean_base = clean base in
    if name == []
    then inl empty_name
    else if has_byte slash name || has_byte backslash name
    then inl path_separator
    else if name == dot_dot || name == dot
    then inl dot_name
    else if not (take (length clean_base) path == clean_base)
    then inl traversal
    else if has_dot_dot path
    then inl parent_reference
    else inr path

abbrev pub nfs_ok : ℕ
nfs_ok = 0

abbrev pub nfserr_inval : ℕ
nfserr_inval = 22

abbrev pub nfserr_nametoolong : ℕ
nfserr_nametoolong = 63

unfoldable pub validate_filename : List ℕ → ℕ
validate_filename name =
    if name == []
    then nfserr_inval
    else if ltb 255 (length name)
    then nfserr_nametoolong
    else if has_byte 0 name
    then nfserr_inval
    else if has_byte slash name || has_byte backslash name
    then nfserr_inval
    else if name == dot || name == dot_dot
    then nfserr_inval
    else nfs_ok

-- The type bits are 0o170000, the permission bits 0o7777.
unfoldable pub validate_mode : ℕ → ℕ
validate_mode mode =
    if not (nat_beq (mode / 2 ^ 12 % 2 ^ 4) 0)
    then nfserr_inval
    else if not (nat_beq (mode / 2 ^ 12) 0)
    then nfserr_inval
    else nfs_ok
