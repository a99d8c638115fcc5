-- ===== src/Paths/Names.antt =====
-- The two checks of a name, side by side.
use absnfs.Prelude.{
  ℕ, ◌≡◌, refl, ap, ◌∙◌, ◌||◌, List, [], ◌∷◌, ◌++◌, if◌then◌else◌, bytes_eq, list_beq_iff, inl, inr,
  arith,
}
use absnfs.Prelude.All.{All}
use absnfs.Cache.ChildOf.{slash, child_path}
use absnfs.Paths.{
  dot, dot_dot, join_slash, has_dot_dot, parent_reference, sanitize_path, nfs_ok, validate_filename,
}
use absnfs.Paths.Clean.{IsElement, path_of, path_of-child, join_slash-snoc}
use absnfs.Paths.Sanitize.{IsFileName, sanitize_path-good}

validate_filename-IsFileName : (name : List ℕ) → validate_filename name ≡ nfs_ok → IsFileName name
unfolding validate_filename
validate_filename-IsFileName name e = record {
  element = record {
    nonempty = λ k. ground (arith, list_beq_iff name []);
    no_slash = ground arith;
    not_dot = λ k. ground (arith, list_beq_iff name dot);
    not_dot_dot = λ k. ground (arith, list_beq_iff name dot_dot);
  };
  no_backslash = ground arith;
}

has_dot_dot-slash :
    (a s : List ℕ) → has_dot_dot (a ++ (slash ∷ s)) ≡ (has_dot_dot a || has_dot_dot s)
unfolding has_dot_dot
has_dot_dot-slash [] s = refl
has_dot_dot-slash (b ∷ []) s = ground arith
has_dot_dot-slash (b ∷ c ∷ a) s = rw (has_dot_dot-slash (c ∷ a) s) (ground arith)

dots_of_child :
    (cs : List (List ℕ)) (name : List ℕ)
    → All IsElement cs
    → has_dot_dot (path_of (cs ++ name ∷ [])) ≡ (has_dot_dot (path_of cs) || has_dot_dot name)
unfolding join_slash has_dot_dot
dots_of_child [] name h = has_dot_dot-slash [] name
dots_of_child (c ∷ cs) name h =
    ap (λ s. has_dot_dot (slash ∷ s)) (join_slash-snoc c name cs)
    ∙ has_dot_dot-slash (path_of (c ∷ cs)) name

-- A name that LOOKUP and CREATE let through is turned into the path of that name by sanitizePath, in
-- every clean absolute directory, unless the name or the directory has two dots in a row: then
-- sanitizePath refuses it, even where they are part of a longer name.
pub sanitize_path-validate_filename :
    (cs : List (List ℕ)) (name : List ℕ)
    → All IsElement cs
    → validate_filename name ≡ nfs_ok
    → sanitize_path (path_of cs) name ≡ (
        if has_dot_dot (path_of cs) || has_dot_dot name
        then inl parent_reference
        else inr (child_path (path_of cs) name))
sanitize_path-validate_filename cs name h ok =
    let k = validate_filename-IsFileName name ok in
    sanitize_path-good cs name h k ∙ rw (dots_of_child cs name h, path_of-child cs name h) refl
