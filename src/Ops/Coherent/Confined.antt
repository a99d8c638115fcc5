-- ===== src/Ops/Coherent/Confined.antt =====
-- What the theorems on changes take from a file system: the calls that an operation makes, in the
-- states in which it makes them, change what Lstat says of certain paths at most.
use absnfs.Prelude.{◌≡◌, refl, ◌⊎◌, inl, inr, arith}
use absnfs.Cache.Lru.{FilePath}
use absnfs.Ops.{Failure, FileSystem, Outside, Server, Called, call, recover, ◌>>=◌, continue}
use absnfs.Ops.Caches.{is_done, check_context}
use absnfs.Ops.Entries.{undo_create}
use absnfs.Ops.Keeps.{Keeps, reading_laws, >>=-Keeps}
use absnfs.Ops.Coherent.{IsCoherentBut, same_coherent}
use absnfs.Ops.Coherent.Calls.{moved_coherent}
use absnfs.Ops.Coherent.Changes.Outcomes.{Ends}

module _ {F H : Type 0} (fs : FileSystem F H) (K : F → Type 0) where
  -- From files of which `K` holds, the call leads to files of which `K` holds, and it changes what
  -- Lstat says of the paths of `P` at most.
  abbrev pub IsConfined : {A : Type 0} → (FilePath → Type 0) → (F → Called F A) → Type 0
  IsConfined P g =
      (f : F) → K f → K (g f).1 × ((q : FilePath) → ¬ P q → fs.lstat (g f).1 q ≡ fs.lstat f q)

  -- A coherent attribute cache over files of which `K` holds.
  abbrev pub IsIn : (FilePath → Type 0) → Server F → Type 0
  IsIn P s = IsCoherentBut fs P s × K s.files

  module _ {P : FilePath → Type 0} where
    pub call-IsIn : {A : Type 0} (g : F → Called F A) → IsConfined P g → Keeps (IsIn P) (call g)
    unfolding call
    call-IsIn g k = record {
      keep = λ s h. (moved_coherent fs (λ f. (g f).1) s (k s.files h.1).1 h.0, (k s.files h.1).0);
    }

    pub check_context-IsIn : (o : Outside) → Keeps (IsIn P) (check_context o)
    unfolding check_context is_done
    check_context-IsIn o =
        >>=-Keeps (record { keep = λ s h. (same_coherent fs refl refl h.0, h.1) })
          (λ late. search (reading_laws))

-- What undoes a Create fails, so that behind it the call has succeeded.
module _ {F H : Type 0} (fs : FileSystem F H) (o : Outside) {I : Server F → Type 0} where
  pub undone_ends :
      {A : Type 0} (p : FilePath) (r : Failure ⊎ A)
      → Ends I (recover r (undo_create fs o {A = A} p)) I
  unfolding recover undo_create ◌>>=◌ absnfs.Ops.attempt absnfs.Ops.fail
  undone_ends p (inr a) = record { pass = λ s h b same. h }
  undone_ends p (inl e) = record { pass = λ s h b same. absurd (ground (arith, same)) }
