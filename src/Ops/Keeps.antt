-- ===== src/Ops/Keeps.antt =====
-- What an operation keeps, from what its parts keep.
use absnfs.Prelude.{
  ℕ, Bool, true, false, ◌⊎◌, inl, inr, Option, none, some, List, if◌then◌else◌, if_keeps,
}
use absnfs.Ops.{
  Failure, Server, NfsNode, Op, pure, fail, non_nil, guard, look, ◌>>=◌, continue, recover,
}
use absnfs.Ops.Content.{transfer_size}
use absnfs.Ops.Entries.{path_in, writable}
use absnfs.Ops.Entries.Listing.{skip_failure}

pub record Keeps {F A : Type 0} (I : Server F → Type 0) (m : Op F A) : Type 0 where
  pub keep : (s : Server F) → I s → I (m s).1

module _ {F : Type 0} {I : Server F → Type 0} where
  module _ {A : Type 0} where
    pub pure-Keeps : (a : A) → Keeps I (pure a)
    unfolding pure
    pure-Keeps a = record { keep = λ s h. h }

    pub fail-Keeps : (e : Failure) → Keeps I (fail {A = A} e)
    unfolding fail
    fail-Keeps e = record { keep = λ s h. h }

    pub non_nil-Keeps : (p : Option A) → Keeps I (non_nil p)
    unfolding non_nil
    non_nil-Keeps none = record { keep = λ s h. h }
    non_nil-Keeps (some a) = record { keep = λ s h. h }

    pub look-Keeps : (f : F → Failure ⊎ A) → Keeps I (look f)
    unfolding look
    look-Keeps f = record { keep = λ s h. h }

    pub skip_failure-Keeps : {m : Op F A} → Keeps I m → Keeps I (skip_failure m)
    unfolding skip_failure
    skip_failure-Keeps k = record { keep = k.keep }

    pub recover-Keeps :
        (r : Failure ⊎ A) {f : Failure → Op F A}
        → ((e : Failure) → Keeps I (f e))
        → Keeps I (recover r f)
    unfolding recover
    recover-Keeps (inl e) k = record { keep = λ s h. (k e).keep s h }
    recover-Keeps (inr a) k = record { keep = λ s h. h }

    pub if-Keeps : (b : Bool) {m n : Op F A} → Keeps I m → Keeps I n → Keeps I (if b then m else n)
    if-Keeps b k l = if_keeps (λ m. Keeps I m) b k l

  pub guard-Keeps : (b : Bool) (e : Failure) → Keeps I (guard b e)
  unfolding guard
  guard-Keeps true e = record { keep = λ s h. h }
  guard-Keeps false e = record { keep = λ s h. h }

  pub path_in-Keeps : (dir : NfsNode) (name : List ℕ) → Keeps I (path_in dir name)
  unfolding path_in
  path_in-Keeps dir name = record { keep = λ s h. h }

  pub transfer_size-Keeps : Keeps I transfer_size
  unfolding transfer_size
  transfer_size-Keeps = record { keep = λ s h. h }

  pub writable-Keeps : Keeps I writable
  unfolding writable
  writable-Keeps = record {
    keep = λ s h. if_keeps (λ (r : (Failure ⊎ Unit {0}) × Server F). I r.1) s.read_only h h;
  }

  pub >>=-Keeps :
      {A B : Type 0} {m : Op F A} {f : A → Op F B}
      → Keeps I m
      → ((a : A) → Keeps I (f a))
      → Keeps I (m >>= f)
  unfolding ◌>>=◌
  >>=-Keeps {A} {B} {m} {f} k l = record { keep = λ s h. go s (m s) (k.keep s h) }
    where
      go : (s : Server F) (r : (Failure ⊎ A) × Server F) → I r.1 → I (continue r.0 f r.1).1
      go s (inl e, t) h = h
      go s (inr a, t) h = (l a).keep t h

  pub ruleset reading_laws = (
    pure-Keeps, fail-Keeps, non_nil-Keeps, look-Keeps, skip_failure-Keeps, recover-Keeps, if-Keeps,
    guard-Keeps, path_in-Keeps, transfer_size-Keeps, writable-Keeps, >>=-Keeps,
  )
