-- ===== src/Paths/Sanitize.antt =====
-- What sanitizePath lets through.
use absnfs.Prelude.{
  ℕ, ◌≡◌, ◌↔◌, refl, ap, sym, ◌∙◌, true, false, List, [], ◌∷◌, ◌++◌, length, take, take-append,
  if◌then◌else◌, ◌==◌, bytes_eq, list_beq_iff, Bool-cases, inl, inr, arith,
}
use mathlib.Core.Path.{subst}
use absnfs.Prelude.All.{All}
use absnfs.Cache.Lru.{FilePath}
use absnfs.Cache.ChildOf.{slash, has_byte, child_path}
use absnfs.Paths.{dot, dot_dot, backslash, join_slash, has_dot_dot, parent_reference, sanitize_path}
use absnfs.Paths.Clean.{
  IsElement, path_of, clean-path_of, join-path_of, All-snoc, join_slash-snoc, path_of-child,
}

-- A name of one element that has no backslash either.
pub record IsFileName (name : List ℕ) : Type 0 where
  pub element : IsElement name
  pub no_backslash : has_byte backslash name ≡ false

prefix_of :
    (cs : List (List ℕ)) (c : List ℕ)
    → take (length (path_of cs)) (path_of (cs ++ c ∷ [])) ≡ path_of cs
unfolding join_slash
prefix_of [] c = refl
prefix_of (d ∷ cs) c =
    rw (join_slash-snoc d c cs)
      (ap (λ s. slash ∷ s) (take-append (join_slash (d ∷ cs)) (slash ∷ c)))

-- In a clean directory, a good name gives its path, but for two dots in a row.
pub sanitize_path-good :
    (cs : List (List ℕ)) (name : List ℕ)
    → All IsElement cs
    → IsFileName name
    → sanitize_path (path_of cs) name ≡ (
        if has_dot_dot (path_of (cs ++ name ∷ []))
        then inl parent_reference
        else inr (path_of (cs ++ name ∷ [])))
unfolding sanitize_path
sanitize_path-good cs name h k =
    let a : (name == []) ≡ false = ground (arith, list_beq_iff name [], k.element.nonempty) in
    let b : (name == dot) ≡ false = ground (arith, list_beq_iff name dot, k.element.not_dot) in
    let c : (name == dot_dot) ≡ false =
      ground (arith, list_beq_iff name dot_dot, k.element.not_dot_dot) in
    let d : (take (length (path_of cs)) (path_of (cs ++ name ∷ [])) == path_of cs) ≡ true =
      (list_beq_iff (take (length (path_of cs)) (path_of (cs ++ name ∷ []))) (path_of cs)).1
        (prefix_of cs name) in
    rw
      (
        join-path_of cs name h k.element,
        clean-path_of cs h,
        clean-path_of (cs ++ name ∷ []) (All-snoc cs name h k.element),
        a,
        b,
        c,
        k.element.no_slash,
        k.no_backslash,
        d,
      )
      refl

-- A name that is let through is a good one.
pub sanitize_path-IsFileName :
    (base name path : FilePath) → sanitize_path base name ≡ inr path → IsFileName name
unfolding sanitize_path
sanitize_path-IsFileName base name path e = record {
  element = record {
    nonempty = λ k. ground (arith, list_beq_iff name []);
    no_slash = ground arith;
    not_dot = λ k. ground (arith, list_beq_iff name dot);
    not_dot_dot = λ k. ground (arith, list_beq_iff name dot_dot);
  };
  no_backslash = ground arith;
}

-- In a clean absolute directory, sanitizePath answers with a path exactly when the name is one
-- element with no slash and no backslash in it, other than `.` and `..`, and the path has no two
-- dots in a row. The path is then the one of that name in the directory.
pub sanitize_path_iff :
    (cs : List (List ℕ)) (name path : FilePath)
    → All IsElement cs
    → (sanitize_path (path_of cs) name ≡ inr path)
      ↔ (IsFileName name × (path ≡ child_path (path_of cs) name) × (has_dot_dot path ≡ false))
sanitize_path_iff cs name path h = (there, back)
  where
    there :
        sanitize_path (path_of cs) name ≡ inr path
        → IsFileName name × (path ≡ child_path (path_of cs) name) × (has_dot_dot path ≡ false)
    there e =
        let k = sanitize_path-IsFileName (path_of cs) name path e in
        let same = sym (sanitize_path-good cs name h k) ∙ e in
        elim (Bool-cases (has_dot_dot (path_of (cs ++ name ∷ [])))) [
          | inl dots ↦ absurd (ground (arith, same))
          | inr clear ↦
              let p : path_of (cs ++ name ∷ []) ≡ path = ground (arith, same) in
              (k, sym p ∙ path_of-child cs name h, subst (λ q. has_dot_dot q ≡ false) p clear)
        ]

    back :
        IsFileName name × (path ≡ child_path (path_of cs) name) × (has_dot_dot path ≡ false)
        → sanitize_path (path_of cs) name ≡ inr path
    back (k, p, clear) =
        let q : path ≡ path_of (cs ++ name ∷ []) = p ∙ sym (path_of-child cs name h) in
        sanitize_path-good cs name h k ∙ rw (← q) (rw clear refl)
