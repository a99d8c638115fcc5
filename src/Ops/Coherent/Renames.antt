-- ===== src/Ops/Coherent/Renames.antt =====
-- What Rename leaves in the attribute cache.
use absnfs.Prelude.{ℕ, ◌≡◌, ◌≢◌, ◌⊎◌, inl, inr, some, List, ◌∷◌, ◌++◌}
use mathlib.Core.Path.{subst}
use absnfs.Prelude.All.{All}
use absnfs.Cache.Lru.{FilePath}
use absnfs.Cache.ChildOf.{slash, child_path}
use absnfs.Paths.Clean.{IsElement, path_of}
use absnfs.Ops.{FileSystem, Outside, Server, NfsNode, call, ◌>>=◌}
use absnfs.Ops.Entries.{drop_renamed, rename}
use absnfs.Ops.Keeps.{guard-Keeps, writable-Keeps, >>=-Keeps}
use absnfs.Ops.Coherent.{IsCoherentBut, IsCoherent, check_context-coherent}
use absnfs.Ops.Coherent.Calls.{
  call-coherent, drop_attrs-ends, drop_missing_in-coherent, drop_listing-coherent, fewer,
}
use absnfs.Ops.Coherent.Changes.Outcomes.{
  Ends, after_ends, keeps_end, weaker_end, some_ends, then_ends, path_ends,
}

-- Somewhere below a path.
abbrev pub IsBelow : FilePath → FilePath → Type 0
IsBelow p q = (rest : List ℕ) × (q ≡ p ++ (slash ∷ rest))

-- Where a rename can change what Lstat says.
abbrev pub Touched : FilePath → FilePath → FilePath → FilePath → FilePath → Type 0
Touched d p e r q = (q ≡ d) ⊎ ((q ≡ p) ⊎ ((q ≡ e) ⊎ ((q ≡ r) ⊎ (IsBelow p q ⊎ IsBelow r q))))

-- A file system in which a rename changes what Lstat says of the two paths, of the two directories
-- and of what is below the two paths at most.
pub record IsLocalRename {F H : Type 0} (fs : FileSystem F H) : Type 0 where
  pub rename_local :
      (cs : List (List ℕ)) (name : List ℕ) (ds : List (List ℕ)) (new_name : List ℕ)
      → All IsElement cs
      → IsElement name
      → All IsElement ds
      → IsElement new_name
      → (f : F) (q : FilePath)
      → ¬ Touched
          (path_of cs)
          (child_path (path_of cs) name)
          (path_of ds)
          (child_path (path_of ds) new_name)
          q
      → fs.lstat (fs.rename (child_path (path_of cs) name) (child_path (path_of ds) new_name) f).1 q
        ≡ fs.lstat f q

module _ {F H : Type 0} (fs : FileSystem F H) (o : Outside) where
  drop_renamed-ends :
      (d p e r : FilePath)
      → Ends
          (IsCoherentBut fs (Touched d p e r))
          (drop_renamed fs o d p e r)
          (IsCoherentBut fs (λ q. IsBelow p q ⊎ IsBelow r q))
  unfolding drop_renamed
  drop_renamed-ends d p e r = after_ends (drop_attrs-ends fs p) (λ _.
      after_ends (drop_attrs-ends fs r) (λ _. after_ends (drop_attrs-ends fs d) (λ _.
        after_ends (drop_attrs-ends fs e) (λ _.
          weaker_end (λ s h. fewer fs s below_left h)
            (keeps_end (
              >>=-Keeps (drop_missing_in-coherent fs d) (λ _.
                >>=-Keeps (drop_missing_in-coherent fs e) (λ _.
                  >>=-Keeps (drop_listing-coherent fs d) (λ _. drop_listing-coherent fs e)))))))))
    where
      below_left :
          (q : FilePath)
          → (((Touched d p e r q × (q ≢ p)) × (q ≢ r)) × (q ≢ d)) × (q ≢ e)
          → IsBelow p q ⊎ IsBelow r q
      below_left q ((((inl k, a), b), c), f) = absurd (c k)
      below_left q ((((inr (inl k), a), b), c), f) = absurd (a k)
      below_left q ((((inr (inr (inl k)), a), b), c), f) = absurd (f k)
      below_left q ((((inr (inr (inr (inl k))), a), b), c), f) = absurd (b k)
      below_left q ((((inr (inr (inr (inr k))), a), b), c), f) = k

  -- The call of Rename, and what follows it.
  renamed_ends :
      {d d' e e' : FilePath} (p r : FilePath)
      → d ≡ d'
      → e ≡ e'
      → ((f : F) (q : FilePath)
          → ¬ Touched d' p e' r q
          → fs.lstat (fs.rename p r f).1 q ≡ fs.lstat f q)
      → Ends
          (IsCoherentBut fs (Touched d p e r))
          (call (fs.rename p r) >>= λ _. drop_renamed fs o d p e r)
          (IsCoherentBut fs (λ q. IsBelow p q ⊎ IsBelow r q))
  renamed_ends {d} {d'} {e} {e'} p r same new_same k =
      then_ends
        (call-coherent fs (fs.rename p r) (λ f q out.
          k f q (
            subst (λ x. ¬ Touched x p e' r q) same
              (subst (λ x. ¬ Touched d p x r q) new_same out))))
        (λ _. drop_renamed-ends d p e r)

-- With a file system in which a rename changes what Lstat says of the two paths, of the two
-- directories and of what is below the two paths at most, with a coherent attribute cache and in
-- clean directories: where Rename succeeds, the attribute cache is coherent with the files after it,
-- but for the paths below the old path and below the new path.
pub rename-IsCoherentBut :
    {F H : Type 0} (fs : FileSystem F H) (o : Outside) (dir new_dir : NfsNode)
    (cs ds : List (List ℕ)) (name new_name : List ℕ) (s : Server F)
    → IsLocalRename fs
    → dir.path ≡ path_of cs
    → new_dir.path ≡ path_of ds
    → All IsElement cs
    → All IsElement ds
    → IsCoherent fs s
    → (rename fs o (some dir) name (some new_dir) new_name s).0 ≡ inr tt
    → IsCoherentBut fs
        (λ q.
          IsBelow (child_path (path_of cs) name) q ⊎ IsBelow (child_path (path_of ds) new_name) q)
        (rename fs o (some dir) name (some new_dir) new_name s).1
unfolding rename
rename-IsCoherentBut fs o dir new_dir cs ds name new_name s local at new_at good new_good h done =
    let whole = some_ends dir _ (
      some_ends new_dir _ (
        then_ends (guard-Keeps _ _) (λ _. then_ends writable-Keeps (λ _.
          then_ends (check_context-coherent fs {P = λ q. ⊥} o) (λ _.
            path_ends dir cs name _ at good (λ element.
              path_ends new_dir ds new_name _ new_at new_good (λ new_element.
                weaker_end (λ s h. fewer fs s (λ q no. elim no [ ]) h)
                  (renamed_ends fs o (child_path (path_of cs) name)
                    (child_path (path_of ds) new_name) at new_at
                    (local.rename_local cs name ds new_name good element new_good
                      new_element))))))))) in
    whole.pass s h tt done
