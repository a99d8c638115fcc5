-- ===== src/Ops/Coherent/Settings.antt =====
-- SetAttr leaves the attribute cache coherent.
use absnfs.Prelude.{ℕ, ◌≡◌, ◌≢◌, ◌⊎◌, inl, inr, Option, some}
use absnfs.Prelude.Int.{ℤ}
use absnfs.Attrs.{NfsAttrs}
use absnfs.Cache.Lru.{FilePath}
use absnfs.Ops.{FileSystem, Outside, Server, NfsNode}
use absnfs.Ops.Nodes.{set_attr}
use absnfs.Ops.Keeps.{non_nil-Keeps, look-Keeps, if-Keeps, pure-Keeps}
use absnfs.Ops.Coherent.{IsCoherentBut, now-coherent}
use absnfs.Ops.Coherent.Calls.{drop_attrs-ends, fewer}
use absnfs.Ops.Coherent.Confined.{IsConfined, IsIn, call-IsIn}
use absnfs.Ops.Coherent.Changes.Outcomes.{
  Ends, after_ends, keeps_end, weaker_end, some_ends, then_ends,
}

-- The path, or one of `X`.
abbrev pub At : (FilePath → Type 0) → FilePath → FilePath → Type 0
At X p q = (q ≡ p) ⊎ X q

at_other : (X : FilePath → Type 0) {p q : FilePath} → At X p q → q ≢ p → X q
at_other X (inl e) other = absurd (other e)
at_other X (inr x) other = x

-- The three calls that change a file's attributes, by its path.
pub record IsConfinedAt {F H : Type 0} (fs : FileSystem F H) (K : F → Type 0)
    (X : FilePath → Type 0) (p : FilePath) : Type 0 where
  pub sets_mode : (mode : ℕ) → IsConfined fs K (At X p) (fs.chmod p mode)
  pub sets_owner : (uid gid : ℕ) → IsConfined fs K (At X p) (fs.chown p uid gid)
  pub sets_times : (atime mtime : ℤ) → IsConfined fs K (At X p) (fs.chtimes p atime mtime)

module _ {F H : Type 0} (fs : FileSystem F H) (o : Outside) (K : F → Type 0) (X : FilePath → Type 0)
    (node : NfsNode) (local : IsConfinedAt fs K X node.path) where
  set_attr-ends :
      (a : Option NfsAttrs)
      → Ends
          (λ s. IsCoherentBut fs X s × K s.files)
          (set_attr fs o (some node) a)
          (IsCoherentBut fs X)
  unfolding set_attr
  set_attr-ends a = some_ends node _ (
      then_ends (non_nil-Keeps a) (λ attrs. then_ends (look-Keeps _) (λ _.
        weaker_end {K = IsIn fs K (At X node.path)} (λ s h. (fewer fs s (λ q x. inr x) h.0, h.1))
          (then_ends (if-Keeps _ (pure-Keeps _) (call-IsIn fs K _ (local.sets_mode _))) (λ _.
            then_ends (if-Keeps _ (pure-Keeps _) (call-IsIn fs K _ (local.sets_owner _ _))) (λ _.
              then_ends (if-Keeps _ (call-IsIn fs K _ (local.sets_times _ _)) (pure-Keeps _)) (λ _.
                weaker_end (λ s h. h.0)
                  (then_ends (now-coherent fs o) (λ t.
                    after_ends (drop_attrs-ends fs node.path) (λ _.
                      weaker_end (λ s h. fewer fs s (λ q k. at_other X k.0 k.1) h)
                        (keeps_end (pure-Keeps _))))))))))))

-- With an attribute cache that is coherent but for the paths of `X`, where Chmod, Chown and Chtimes
-- of the node's path, from files of which `K` holds, keep `K` and change what Lstat says of that
-- path and of the paths of `X` at most (these calls follow symbolic links, so `X` holds of the
-- target if the node is one): if SetAttr succeeds, the attribute cache is coherent with the files
-- after it but for `X`.
pub set_attr-IsCoherentBut :
    {F H : Type 0} (fs : FileSystem F H) (o : Outside) (K : F → Type 0) (X : FilePath → Type 0)
    (node : NfsNode) (a : Option NfsAttrs) (s : Server F) (changed : NfsNode)
    → IsConfinedAt fs K X node.path
    → K s.files
    → IsCoherentBut fs X s
    → (set_attr fs o (some node) a s).0 ≡ inr changed
    → IsCoherentBut fs X (set_attr fs o (some node) a s).1
set_attr-IsCoherentBut fs o K X node a s changed local k h done =
    (set_attr-ends fs o K X node local a).pass s (h, k) changed done
