-- ===== src/Paths/Tests.antt =====
-- A directory with one element, on which the theorems on paths are tried.
use absnfs.Prelude.{ℕ, ◌≡◌, ◌↔◌, inl, inr, false, List, [], ◌∷◌, refl}
use absnfs.Prelude.All.{All}
use absnfs.Cache.ChildOf.{child_path}
use absnfs.Paths.{parent_reference, sanitize_path, validate_filename, has_dot_dot, join_slash}
use absnfs.Paths.Clean.{IsElement, path_of}
use absnfs.Paths.Sanitize.{IsFileName, sanitize_path_iff}
use absnfs.Paths.Names.{sanitize_path-validate_filename}

abbrev docs : List (List ℕ)
docs = (b'd' ∷ b'o' ∷ []) ∷ []

docs-IsElement : All IsElement docs
docs-IsElement =
    (record { nonempty = λ e. cc; no_slash = refl; not_dot = λ e. cc; not_dot_dot = λ e. cc }, tt)

abbrev notes : List ℕ
notes = b'n' ∷ b'.' ∷ b't' ∷ []

sanitize_path_iff_example :
    (sanitize_path (path_of docs) notes ≡ inr (child_path (path_of docs) notes)) ↔ (
      IsFileName notes
      × (child_path (path_of docs) notes ≡ child_path (path_of docs) notes)
      × (has_dot_dot (child_path (path_of docs) notes) ≡ false))
sanitize_path_iff_example =
    sanitize_path_iff docs notes (child_path (path_of docs) notes) docs-IsElement

-- A name with two dots inside.
abbrev range : List ℕ
range = b'1' ∷ b'.' ∷ b'.' ∷ b'9' ∷ []

sanitize_path-validate_filename_example : sanitize_path (path_of docs) range ≡ inl parent_reference
unfolding validate_filename has_dot_dot join_slash
sanitize_path-validate_filename_example =
    sanitize_path-validate_filename docs range docs-IsElement refl
