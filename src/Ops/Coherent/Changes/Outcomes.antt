-- ===== src/Ops/Coherent/Changes/Outcomes.antt =====
-- What holds where an operation succeeds.
use absnfs.Prelude.{◌≡◌, refl, sym, ◌⊎◌, inl, inr, some, List, ℕ, arith}
use mathlib.Core.Path.{subst}
use absnfs.Prelude.All.{All}
use absnfs.Cache.Lru.{FilePath}
use absnfs.Cache.ChildOf.{child_path}
use absnfs.Paths.{PathError, sanitize_path}
use absnfs.Paths.Clean.{IsElement, path_of}
use absnfs.Paths.Sanitize.{sanitize_path_iff}
use absnfs.Ops.{Failure, Server, NfsNode, Op, non_nil, ◌>>=◌, continue}
use absnfs.Ops.Entries.{wrapped, path_in}
use absnfs.Ops.Keeps.{Keeps}

pub record Ends {F A : Type 0} (I : Server F → Type 0) (m : Op F A) (J : Server F → Type 0)
    : Type 0 where
  pub pass : (s : Server F) → I s → (a : A) → (m s).0 ≡ inr a → J (m s).1

module _ {F : Type 0} {I : Server F → Type 0} where
  pub keeps_end : {A : Type 0} {m : Op F A} → Keeps I m → Ends I m I
  keeps_end k = record { pass = λ s h a same. k.keep s h }

module _ {F : Type 0} {I J : Server F → Type 0} where
  pub after_ends :
      {A B : Type 0} {K : Server F → Type 0} {m : Op F A} {f : A → Op F B}
      → Ends I m K
      → ((a : A) → Ends K (f a) J)
      → Ends I (m >>= f) J
  unfolding ◌>>=◌
  after_ends {A} {B} {K} {m} {f} k l = record { pass = λ s h. go (m s) (k.pass s h) }
    where
      go :
          (r : (Failure ⊎ A) × Server F)
          → ((a : A) → r.0 ≡ inr a → K r.1)
          → (b : B) → (continue r.0 f r.1).0 ≡ inr b
          → J (continue r.0 f r.1).1
      go (inl e, t) h b same = absurd (ground (arith, same))
      go (inr a, t) h b same = (l a).pass t (h a refl) b same

  pub weaker_end :
      {A : Type 0} {K : Server F → Type 0} {m : Op F A}
      → ((s : Server F) → I s → K s)
      → Ends K m J
      → Ends I m J
  weaker_end w k = record { pass = λ s h a same. k.pass s (w s h) a same }

  pub some_ends :
      {A B : Type 0} (a : A) (f : A → Op F B) → Ends I (f a) J → Ends I (non_nil (some a) >>= f) J
  unfolding non_nil ◌>>=◌
  some_ends a f k = record { pass = λ s h b same. k.pass s h b same }

module _ {F : Type 0} {I J : Server F → Type 0} where
  pub then_ends :
      {A B : Type 0} {m : Op F A} {f : A → Op F B}
      → Keeps I m
      → ((a : A) → Ends I (f a) J)
      → Ends I (m >>= f) J
  then_ends k l = after_ends (keeps_end k) l

  -- In a clean directory, the path is the one of a name of one element.
  pub path_ends :
      {B : Type 0} (dir : NfsNode) (cs : List (List ℕ)) (name : List ℕ) (f : FilePath → Op F B)
      → dir.path ≡ path_of cs
      → All IsElement cs
      → (IsElement name → Ends I (f (child_path (path_of cs) name)) J)
      → Ends I (path_in dir name >>= f) J
  unfolding path_in ◌>>=◌
  path_ends {B} dir cs name f clean h k = record {
    pass = λ s i. go s i (sanitize_path dir.path name) refl;
  }
    where
      go :
          (s : Server F)
          → I s
          → (r : PathError ⊎ FilePath) → sanitize_path dir.path name ≡ r
          → (b : B) → (continue (wrapped r) f s).0 ≡ inr b
          → J (continue (wrapped r) f s).1
      go s i (inl e) same b end = absurd (ground (arith, end))
      go s i (inr path) same b end =
          let (file, there, clear) =
            (sanitize_path_iff cs name path h).0
              (subst (λ d. sanitize_path d name ≡ inr path) clean same) in
          subst (λ p. (b : B) → (f p s).0 ≡ inr b → J (f p s).1) (sym there)
            (λ b' e. (k file.element).pass s i b' e) b end
