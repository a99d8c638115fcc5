-- ===== src/Ops/Coherent/Changes.antt =====
-- Create, Remove and Symlink leave the attribute cache coherent.
pub mod Outcomes
use absnfs.Prelude.{ℕ, ◌≡◌, ◌≢◌, refl, sym, ◌∙◌, ◌⊎◌, inl, inr, Option, none, some, List, ap, arith}
use absnfs.Prelude.All.{All}
use absnfs.Attrs.{NfsAttrs}
use absnfs.Cache.Lru.{FilePath, peek}
use absnfs.Cache.ChildOf.{child_path}
use absnfs.Cache.Attr.Valid.{invalidate-IsValid, invalidate_negative_in_dir-IsValid}
use absnfs.Cache.Attr.Within.{
  invalidate-IsWithin, invalidate_negative-IsWithin, peek-invalidate_self,
}
use mathlib.Core.Path.{subst}
use absnfs.Cache.Attr
use absnfs.Paths.Clean.{IsElement, path_of}
use absnfs.Ops.{
  Failure, FileSystem, Outside, Server, NfsNode, Op, Called, call, attempt, fail, ◌>>=◌,
}
use absnfs.Ops.Caches.{drop_attrs, drop_missing_in, drop_listing}
use absnfs.Ops.Nodes.{lookup, permissions}
use absnfs.Ops.Entries.{undo_create, drop_new, create_file, create, remove, symlink}
use absnfs.Ops.Keeps.{
  Keeps, reading_laws, guard-Keeps, non_nil-Keeps, writable-Keeps, recover-Keeps, >>=-Keeps,
  fail-Keeps,
}
use absnfs.Ops.Steady.{lookup-Keeps}
use absnfs.Ops.Coherent.{
  IsCurrent, IsCoherentBut, IsCoherent, within_coherent, same_coherent, check_context-coherent,
}
use absnfs.Ops.Coherent.Calls.{
  call-coherent, attempt-coherent, drop_attrs-ends, drop_missing_in-coherent, drop_listing-coherent,
  fewer,
}
use absnfs.Ops.Coherent.Reads.{coherent-IsSteady}
use absnfs.Ops.Coherent.Changes.Outcomes.{
  Ends, after_ends, keeps_end, weaker_end, some_ends, then_ends, path_ends,
}
use absnfs.Ops.Coherent.Confined.{IsConfined, IsIn, call-IsIn, check_context-IsIn, undone_ends}

-- One of the paths that a change concerns, or one of `X`.
abbrev pub Near : (FilePath → Type 0) → FilePath → FilePath → FilePath → Type 0
Near X d p q = (q ≡ d) ⊎ ((q ≡ p) ⊎ X q)

near_other : (X : FilePath → Type 0) {d p q : FilePath} → Near X d p q → q ≢ d → q ≢ p → X q
near_other X (inl e) not_d not_p = absurd (not_d e)
near_other X (inr (inl e)) not_d not_p = absurd (not_p e)
near_other X (inr (inr x)) not_d not_p = x

module _ {F H : Type 0} (fs : FileSystem F H) (X : FilePath → Type 0) where
  drop_new-ends :
      (d p : FilePath) → Ends (IsCoherentBut fs (Near X d p)) (drop_new d p) (IsCoherentBut fs X)
  unfolding drop_new
  drop_new-ends d p = after_ends (drop_attrs-ends fs d) (λ _.
      then_ends (drop_missing_in-coherent fs d) (λ _. after_ends (drop_attrs-ends fs p) (λ _.
        weaker_end (λ s h. fewer fs s (λ q k. near_other X k.0.0 k.0.1 k.1) h)
          (keeps_end (drop_listing-coherent fs d)))))

  module _ (o : Outside) (K : F → Type 0) (dir : NfsNode) (cs : List (List ℕ)) (name : List ℕ)
      (clean : dir.path ≡ path_of cs) (good : All IsElement cs) where
    abbrev path : FilePath
    path = child_path (path_of cs) name

    abbrev Start : Server F → Type 0
    Start s = IsCoherentBut fs X s × K s.files

    -- To look away from the paths that the change concerns.
    concerned : (s : Server F) → Start s → IsIn fs K (Near X dir.path path) s
    concerned s h = (fewer fs s (λ q x. inr (inr x)) h.0, h.1)

    -- What Create and Symlink do once the path is known to be there.
    added_ends :
        Ends
          (IsIn fs K (Near X dir.path path))
          (drop_new dir.path path >>= λ _. lookup fs o path)
          (IsCoherentBut fs X)
    added_ends =
        weaker_end (λ s h. h.0)
          (after_ends (drop_new-ends dir.path path)
            (λ _. keeps_end (lookup-Keeps fs o (IsCoherentBut fs X) (coherent-IsSteady fs o) path)))

    symlink-ends :
        (target : List ℕ) (a : Option NfsAttrs)
        → IsConfined fs K (Near X dir.path path) (fs.symlink target path)
        → Ends Start (symlink fs o (some dir) name target a) (IsCoherentBut fs X)
    unfolding symlink
    symlink-ends target a links = some_ends dir _ (
        then_ends (guard-Keeps _ _) (λ _. then_ends (guard-Keeps _ _) (λ _.
          then_ends (non_nil-Keeps a) (λ _. then_ends writable-Keeps (λ _.
            path_ends dir cs name _ clean good (λ element.
              weaker_end concerned (then_ends (call-IsIn fs K _ links) (λ _. added_ends))))))))

    module _ (creates : IsConfined fs K (Near X dir.path path) (fs.create path))
        (closes : (file : H) → IsConfined fs K (Near X dir.path path) (fs.close file))
        (sets : (mode : ℕ) → IsConfined fs K (Near X dir.path path) (fs.chmod path mode)) where
      -- The calls of Create on a path that is known, and what follows them.
      create_file-ends :
          (attrs : NfsAttrs)
          → Ends
              (IsIn fs K (Near X dir.path path))
              (create_file fs o dir.path attrs path)
              (IsCoherentBut fs X)
      unfolding create_file
      create_file-ends attrs = then_ends (call-IsIn fs K _ creates) (λ file.
          then_ends (call-IsIn fs K _ (closes file)) (λ closed.
            after_ends (undone_ends fs o path closed) (λ _.
              then_ends (call-IsIn fs K _ (sets _))
                (λ moded. after_ends (undone_ends fs o path moded) (λ _. added_ends)))))

      create-ends :
          (a : Option NfsAttrs) → Ends Start (create fs o (some dir) name a) (IsCoherentBut fs X)
      unfolding create
      create-ends a = some_ends dir _ (
          then_ends (guard-Keeps _ _) (λ _. then_ends (non_nil-Keeps a) (λ attrs.
            then_ends writable-Keeps (λ _. then_ends (check_context-IsIn fs K o) (λ _.
              path_ends dir cs name _ clean good
                (λ element. weaker_end concerned (create_file-ends attrs)))))))

    remove-ends :
        IsConfined fs K (Near X dir.path path) (fs.remove path)
        → Ends Start (remove fs o (some dir) name) (IsCoherentBut fs X)
    unfolding remove
    remove-ends removes = some_ends dir _ (
        then_ends (guard-Keeps _ _) (λ _. then_ends writable-Keeps (λ _.
          then_ends (check_context-IsIn fs K o) (λ _. path_ends dir cs name _ clean good (λ element.
            weaker_end concerned (
              then_ends (call-IsIn fs K _ removes) (λ _.
                weaker_end (λ s h. h.0)
                  (after_ends (drop_attrs-ends fs path) (λ _.
                    after_ends (drop_attrs-ends fs dir.path) (λ _.
                      weaker_end (λ s h. fewer fs s (λ q k. near_other X k.0.0 k.1 k.0.1) h)
                        (keeps_end (drop_listing-coherent fs dir.path))))))))))))

-- In a clean directory, with an attribute cache that is coherent but for the paths of `X`, where
-- the file system's Create and Chmod of the path and Close of a file, from files of which `K`
-- holds, keep `K` and change what Lstat says of the directory, of the path and of the paths of `X`
-- at most (`X` may hold of the target of a symbolic link that stands at the path, and of paths that
-- lead through links): if Create answers with a node, the attribute cache is coherent with the
-- files after it but for `X`.
pub create-IsCoherentBut :
    {F H : Type 0} (fs : FileSystem F H) (X : FilePath → Type 0) (o : Outside) (K : F → Type 0)
    (dir : NfsNode) (cs : List (List ℕ)) (name : List ℕ) (a : Option NfsAttrs) (s : Server F)
    (node : NfsNode)
    → dir.path ≡ path_of cs
    → All IsElement cs
    → (let p = child_path (path_of cs) name in
        IsConfined fs K (Near X dir.path p) (fs.create p)
        × ((file : H) → IsConfined fs K (Near X dir.path p) (fs.close file))
        × ((mode : ℕ) → IsConfined fs K (Near X dir.path p) (fs.chmod p mode)))
    → K s.files
    → IsCoherentBut fs X s
    → (create fs o (some dir) name a s).0 ≡ inr node
    → IsCoherentBut fs X (create fs o (some dir) name a s).1
create-IsCoherentBut fs X o K dir cs name a s node clean good (creates, closes, sets) k h made =
    (create-ends fs X o K dir cs name clean good creates closes sets a).pass s (h, k) node made

-- In a clean directory, with an attribute cache that is coherent but for the paths of `X`, where
-- the file system's Remove of the path, from files of which `K` holds, keeps `K` and changes what
-- Lstat says of the directory, of the path and of the paths of `X` at most: if Remove succeeds, the
-- attribute cache is coherent with the files after it but for `X`.
pub remove-IsCoherentBut :
    {F H : Type 0} (fs : FileSystem F H) (X : FilePath → Type 0) (o : Outside) (K : F → Type 0)
    (dir : NfsNode) (cs : List (List ℕ)) (name : List ℕ) (s : Server F)
    → dir.path ≡ path_of cs
    → All IsElement cs
    → IsConfined fs K
        (Near X dir.path (child_path (path_of cs) name))
        (fs.remove (child_path (path_of cs) name))
    → K s.files
    → IsCoherentBut fs X s
    → (remove fs o (some dir) name s).0 ≡ inr tt
    → IsCoherentBut fs X (remove fs o (some dir) name s).1
remove-IsCoherentBut fs X o K dir cs name s clean good removes k h made =
    (remove-ends fs X o K dir cs name clean good removes).pass s (h, k) tt made

-- In a clean directory, with an attribute cache that is coherent but for the paths of `X`, where
-- the file system's Symlink at the path, from files of which `K` holds, keeps `K` and changes what
-- Lstat says of the directory, of the path and of the paths of `X` at most: if Symlink answers with
-- a node, the attribute cache is coherent with the files after it but for `X`.
pub symlink-IsCoherentBut :
    {F H : Type 0} (fs : FileSystem F H) (X : FilePath → Type 0) (o : Outside) (K : F → Type 0)
    (dir : NfsNode) (cs : List (List ℕ)) (name target : List ℕ) (a : Option NfsAttrs) (s : Server F)
    (node : NfsNode)
    → dir.path ≡ path_of cs
    → All IsElement cs
    → IsConfined fs K
        (Near X dir.path (child_path (path_of cs) name))
        (fs.symlink target (child_path (path_of cs) name))
    → K s.files
    → IsCoherentBut fs X s
    → (symlink fs o (some dir) name target a s).0 ≡ inr node
    → IsCoherentBut fs X (symlink fs o (some dir) name target a s).1
symlink-IsCoherentBut fs X o K dir cs name target a s node clean good links k h made =
    (symlink-ends fs X o K dir cs name clean good target a links).pass s (h, k) node made
