-- ===== src/Cache/ChildOf.antt =====
-- cache.go, isChildOf: is a path a direct child of a directory?
mod Tests
use absnfs.Prelude.{
  ℕ, suc, ◌+◌, Bool, true, false, not, ◌&&◌, ◌||◌, Option, none, some, List, [], ◌∷◌, ◌++◌, ◌≡◌,
  ◌≢◌, refl, length, take, drop, ltb, leb, ◌==◌, nat_beq, bytes_eq, if◌then◌else◌, arith,
}
use absnfs.Prelude.{list_beq_iff, take-append, length-append, Bool-cases, inl, inr, get_elem?}
use absnfs.Cache.Lru.{FilePath}

abbrev pub slash : ℕ
slash = b'/'

abbrev pub root : FilePath
root = slash ∷ []

abbrev pub has_byte : ℕ → List ℕ → Bool
has_byte b [] = false
has_byte b (c ∷ s) = nat_beq c b || has_byte b s

abbrev pub is_byte : ℕ → Option ℕ → Bool
is_byte b none = false
is_byte b (some c) = nat_beq c b

-- The check of what is left of the path below the directory.
unfoldable pub is_plain : List ℕ → Bool
is_plain remainder = not (has_byte slash remainder) && ltb 0 (length remainder)

unfoldable pub is_child_of : FilePath → FilePath → Bool
unfolding is_plain
is_child_of path dir =
    if dir == root
    then (if path == root || ltb (length path) 2 then false else is_plain (drop 1 path))
    else if leb (length path) (length dir + 1)
    then false
    else if not (take (length dir) path == dir)
    then false
    else if not (is_byte slash (get_elem? path (length dir)))
    then false
    else is_plain (drop (suc (length dir)) path)

-- The path of a name in a directory.
abbrev pub child_path : FilePath → List ℕ → FilePath
child_path dir name = if dir == root then slash ∷ name else dir ++ (slash ∷ name)

-- A name of one component.
pub record IsName (name : List ℕ) : Type 0 where
  pub nonempty : name ≢ []
  pub no_slash : has_byte slash name ≡ false

head_of : (dir name : List ℕ) → get_elem? (dir ++ (slash ∷ name)) (length dir) ≡ some slash
head_of [] name = refl
head_of (d ∷ dir) name = head_of dir name

tail_of : (dir name : List ℕ) → drop (suc (length dir)) (dir ++ (slash ∷ name)) ≡ name
tail_of [] name = refl
tail_of (d ∷ dir) name = tail_of dir name

name_plain : (name : List ℕ) → IsName name → is_plain name ≡ true
unfolding is_plain
name_plain [] h = absurd (h.nonempty refl)
name_plain (x ∷ name) h = ground arith

plain-IsName : (name : List ℕ) → is_plain name ≡ true → IsName name
unfolding is_plain
plain-IsName [] h = cc
plain-IsName (x ∷ name) h = record { nonempty = λ e. cc; no_slash = ground arith }

below_root : (name : List ℕ) → IsName name → is_child_of (slash ∷ name) root ≡ true
unfolding is_child_of
below_root [] h = absurd (h.nonempty refl)
below_root (x ∷ name) h = ground (arith, name_plain (x ∷ name) h)

below_other :
    (dir : FilePath) (name : List ℕ)
    → (dir == root) ≡ false
    → IsName name
    → is_child_of (dir ++ (slash ∷ name)) dir ≡ true
unfolding is_child_of
below_other dir [] other h = absurd (h.nonempty refl)
below_other dir (x ∷ name) other h =
    rw (other, take-append dir (slash ∷ x ∷ name), head_of dir (x ∷ name), tail_of dir (x ∷ name))
      (ground (
        arith,
        list_beq_iff dir dir,
        length-append dir (slash ∷ x ∷ name),
        name_plain (x ∷ name) h,
      ))

-- A name of one component, with no slash in it, makes, in a directory, a direct child of it.
pub is_child_of-child_path :
    (dir : FilePath) (name : List ℕ) → IsName name → is_child_of (child_path dir name) dir ≡ true
is_child_of-child_path dir name h = elim (Bool-cases (dir == root)) [
  | inl at_root ↦ rw ((list_beq_iff dir root).0 at_root) (below_root name h)
  | inr other ↦ rw other (below_other dir name other h)
]

split_at :
    (dir path : FilePath)
    → take (length dir) path ≡ dir
    → get_elem? path (length dir) ≡ some slash
    → path ≡ dir ++ (slash ∷ drop (suc (length dir)) path)
split_at [] [] h k = cc
split_at [] (x ∷ path) h k = ground arith
split_at (d ∷ dir) [] h k = cc
split_at (d ∷ dir) (x ∷ path) h k = ground (arith, split_at dir path)

byte_there : (b : ℕ) (o : Option ℕ) → is_byte b o ≡ true → o ≡ some b
byte_there b none h = cc
byte_there b (some c) h = ground arith

-- A path that starts with a slash and is a direct child of a directory is the path of a name of one
-- component in it.
pub is_child_of-IsName :
    (dir path rest : FilePath)
    → path ≡ slash ∷ rest
    → is_child_of path dir ≡ true
    → (name : List ℕ) × IsName name × (path ≡ child_path dir name)
unfolding is_child_of
is_child_of-IsName dir path rest abs h = elim (Bool-cases (dir == root)) [
  | inl at_root ↦ (rest, plain-IsName rest (ground arith), rw at_root abs)
  | inr other ↦
      let name = drop (suc (length dir)) path in
      (
        name,
        plain-IsName name (ground arith),
        rw other (
            split_at dir path (ground (arith, list_beq_iff (take (length dir) path) dir))
              (byte_there slash (get_elem? path (length dir)) (ground arith))),
      )
]
