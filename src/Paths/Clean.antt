-- ===== src/Paths/Clean.antt =====
-- Cleaning and joining, on a clean absolute path.
use absnfs.Prelude.{
  ℕ, ◌≡◌, ◌≢◌, refl, ap, sym, ◌∙◌, Bool, true, false, List, [], ◌∷◌, ◌++◌, nat_beq, ◌==◌, bytes_eq,
  list_beq_iff, Bool-cases, inl, inr, arith,
}
use mathlib.Core.List.{append_assoc}
use absnfs.Prelude.All.{All}
use absnfs.Cache.Lru.{FilePath}
use absnfs.Cache.ChildOf.{slash, has_byte, root, child_path}
use absnfs.Paths.{
  dot, dot_dot, split_slash, join_slash, clean_step, rev_onto, clean_elements, clean, join,
}

-- A name that can stand between two slashes of a clean path.
pub record IsElement (c : List ℕ) : Type 0 where
  pub nonempty : c ≢ []
  pub no_slash : has_byte slash c ≡ false
  pub not_dot : c ≢ dot
  pub not_dot_dot : c ≢ dot_dot

-- The clean absolute path of some names.
abbrev pub path_of : List (List ℕ) → FilePath
path_of cs = slash ∷ join_slash cs

-- Splitting.
split_name : (c : List ℕ) → has_byte slash c ≡ false → split_slash c ≡ c ∷ []
unfolding split_slash
split_name [] h = refl
split_name (b ∷ c) h = elim (Bool-cases (nat_beq b slash)) [
  | inl is_slash ↦ absurd (ground arith)
  | inr other ↦ rw (other, split_name c (ground arith))
]

split_first :
    (c s : List ℕ) → has_byte slash c ≡ false → split_slash (c ++ (slash ∷ s)) ≡ c ∷ split_slash s
unfolding split_slash
split_first [] s h = refl
split_first (b ∷ c) s h = elim (Bool-cases (nat_beq b slash)) [
  | inl is_slash ↦ absurd (ground arith)
  | inr other ↦ rw (other, split_first c s (ground arith))
]

split_join :
    (c : List ℕ) (cs : List (List ℕ))
    → All IsElement (c ∷ cs)
    → split_slash (join_slash (c ∷ cs)) ≡ c ∷ cs
unfolding join_slash
split_join c [] h = split_name c (h.0.no_slash)
split_join c (d ∷ cs) h =
    split_first c (join_slash (d ∷ cs)) h.0.no_slash ∙ ap (λ l. c ∷ l) (split_join d cs h.1)

-- An element is pushed.
step_push :
    (rooted : Bool) (out : List (List ℕ)) (c : List ℕ)
    → IsElement c
    → clean_step rooted out c ≡ c ∷ out
step_push rooted out c h =
    let a : (c == []) ≡ false = ground (arith, list_beq_iff c [], h.nonempty) in
    let b : (c == dot) ≡ false = ground (arith, list_beq_iff c dot, h.not_dot) in
    let d : (c == dot_dot) ≡ false = ground (arith, list_beq_iff c dot_dot, h.not_dot_dot) in
    rw (a, b, d)

elements_keep :
    (rooted : Bool) (out cs : List (List ℕ))
    → All IsElement cs
    → clean_elements rooted out cs ≡ rev_onto out cs
unfolding clean_elements
elements_keep rooted out [] h = refl
elements_keep rooted out (c ∷ cs) h =
    rw (step_push rooted out c h.0) (elements_keep rooted (c ∷ out) cs h.1)

-- A clean path stays as it is.
pub clean-path_of : (cs : List (List ℕ)) → All IsElement cs → clean (path_of cs) ≡ path_of cs
unfolding clean split_slash clean_elements join_slash
clean-path_of [] h = refl
clean-path_of (c ∷ cs) h = rw (split_join c cs h) (rw (elements_keep true [] (c ∷ cs) h) refl)

pub All-snoc :
    (cs : List (List ℕ)) (c : List ℕ)
    → All IsElement cs
    → IsElement c
    → All IsElement (cs ++ c ∷ [])
All-snoc [] c h k = (k, tt)
All-snoc (d ∷ cs) c h k = (h.0, All-snoc cs c h.1 k)

-- A name is put behind.
pub join_slash-snoc :
    (c d : List ℕ) (cs : List (List ℕ))
    → join_slash ((c ∷ cs) ++ d ∷ []) ≡ join_slash (c ∷ cs) ++ (slash ∷ d)
unfolding join_slash
join_slash-snoc c d [] = refl
join_slash-snoc c d (e ∷ cs) =
    rw (join_slash-snoc e d cs) (sym (append_assoc c (slash ∷ join_slash (e ∷ cs)) (slash ∷ d)))

two_slashes : (s : List ℕ) → clean (path_of [] ++ (slash ∷ s)) ≡ clean (slash ∷ s)
unfolding clean split_slash clean_elements join_slash
two_slashes s = refl

pub join-path_of :
    (cs : List (List ℕ)) (c : List ℕ)
    → All IsElement cs
    → IsElement c
    → join (path_of cs) c ≡ path_of (cs ++ c ∷ [])
unfolding join
join-path_of cs [] h k = absurd (k.nonempty refl)
join-path_of [] (b ∷ c) h k = two_slashes (b ∷ c) ∙ clean-path_of ((b ∷ c) ∷ []) (k, tt)
join-path_of (d ∷ cs) (b ∷ c) h k =
    ap (λ s. clean (slash ∷ s)) (sym (join_slash-snoc d (b ∷ c) cs))
    ∙ clean-path_of ((d ∷ cs) ++ (b ∷ c) ∷ []) (All-snoc (d ∷ cs) (b ∷ c) h k)

pub join_slash-ne-nil : (c : List ℕ) (cs : List (List ℕ)) → IsElement c → join_slash (c ∷ cs) ≢ []
unfolding join_slash
join_slash-ne-nil [] cs h e = h.nonempty refl
join_slash-ne-nil (b ∷ c) [] h e = cc
join_slash-ne-nil (b ∷ c) (d ∷ cs) h e = cc

slash_only : (s : List ℕ) → s ≢ [] → (slash ∷ s == root) ≡ false
slash_only [] h = absurd (h refl)
slash_only (b ∷ s) h = refl

-- The longer path is the child of that name.
pub path_of-child :
    (cs : List (List ℕ)) (c : List ℕ)
    → All IsElement cs
    → path_of (cs ++ c ∷ []) ≡ child_path (path_of cs) c
unfolding join_slash
path_of-child [] c h = refl
path_of-child (d ∷ cs) c h =
    rw (slash_only (join_slash (d ∷ cs)) (join_slash-ne-nil d cs h.0))
      (ap (λ s. slash ∷ s) (join_slash-snoc d c cs))
