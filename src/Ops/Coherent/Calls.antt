-- ===== src/Ops/Coherent/Calls.antt =====
-- The calls of the file system and of the caches, on a coherent attribute cache.
use absnfs.Prelude.{◌≡◌, ◌≢◌, refl, some, arith}
use absnfs.Cache.Lru.{FilePath, peek}
use absnfs.Cache.Attr.Valid.{invalidate-IsValid, invalidate_negative_in_dir-IsValid}
use absnfs.Cache.Attr.Within.{
  invalidate-IsWithin, invalidate_negative-IsWithin, peek-invalidate_self,
}
use mathlib.Core.Path.{subst}
use absnfs.Cache.Attr
use absnfs.Ops.{FileSystem, Server, Called, call, attempt}
use absnfs.Ops.Caches.{drop_attrs, drop_missing_in, drop_listing}
use absnfs.Ops.Keeps.{Keeps}
use absnfs.Ops.Coherent.{IsCoherentBut, within_coherent, same_coherent}
use absnfs.Ops.Coherent.Changes.Outcomes.{Ends}

module _ {F H : Type 0} (fs : FileSystem F H) where
  -- A call that changes what Lstat says of the excepted paths at most.
  pub moved_coherent :
      {P : FilePath → Type 0} (g : F → F) (s : Server F)
      → ((q : FilePath) → ¬ P q → fs.lstat (g s.files) q ≡ fs.lstat s.files q)
      → IsCoherentBut fs P s
      → IsCoherentBut fs P (record s { files = g s.files })
  moved_coherent g s k h = record {
    valid = h.valid;
    current = λ q v out there. rw (k q out) (h.current q v out there);
  }

  pub call-coherent :
      {P : FilePath → Type 0} {A : Type 0} (g : F → Called F A)
      → ((f : F) (q : FilePath) → ¬ P q → fs.lstat (g f).1 q ≡ fs.lstat f q)
      → Keeps (IsCoherentBut fs P) (call g)
  unfolding call
  call-coherent g k = record { keep = λ s h. moved_coherent (λ f. (g f).1) s (k s.files) h }

  pub attempt-coherent :
      {P : FilePath → Type 0} {A : Type 0} (g : F → Called F A)
      → ((f : F) (q : FilePath) → ¬ P q → fs.lstat (g f).1 q ≡ fs.lstat f q)
      → Keeps (IsCoherentBut fs P) (attempt g)
  unfolding attempt
  attempt-coherent g k = record { keep = λ s h. moved_coherent (λ f. (g f).1) s (k s.files) h }

  -- A path whose entry is dropped is excepted no more.
  dropped-coherent :
      {P : FilePath → Type 0} (p : FilePath) (s : Server F)
      → IsCoherentBut fs P s
      → IsCoherentBut fs (λ q. P q × (q ≢ p)) (drop_attrs p s).1
  unfolding drop_attrs
  dropped-coherent {P} p s h = record {
    valid = invalidate-IsValid p h.valid;
    current = λ q v out there.
        h.current q v
          (λ near. out (
            near,
            λ e. absurd (
                ground (
                  arith,
                  peek-invalidate_self p h.valid,
                  subst (λ r. peek r (Attr.invalidate p s.attr_cache).lru ≡ some v) e there,
                )),
          ))
          ((invalidate-IsWithin p h.valid).there q v there);
  }

  pub drop_attrs-ends :
      {P : FilePath → Type 0} (p : FilePath)
      → Ends (IsCoherentBut fs P) (drop_attrs p) (IsCoherentBut fs (λ q. P q × (q ≢ p)))
  drop_attrs-ends p = record { pass = λ s h a same. dropped-coherent p s h }

  pub drop_missing_in-coherent :
      {P : FilePath → Type 0} (d : FilePath) → Keeps (IsCoherentBut fs P) (drop_missing_in d)
  unfolding drop_missing_in
  drop_missing_in-coherent d = record {
    keep = λ s h.
        within_coherent fs refl (invalidate_negative_in_dir-IsValid d h.valid)
          (invalidate_negative-IsWithin d h.valid) h;
  }

  pub drop_listing-coherent :
      {P : FilePath → Type 0} (d : FilePath) → Keeps (IsCoherentBut fs P) (drop_listing d)
  unfolding drop_listing
  drop_listing-coherent d = record { keep = λ s h. same_coherent fs refl refl h }

  pub fewer :
      {P Q : FilePath → Type 0} (s : Server F)
      → ((q : FilePath) → P q → Q q)
      → IsCoherentBut fs P s
      → IsCoherentBut fs Q s
  fewer s k h = record {
    valid = h.valid;
    current = λ q v out there. h.current q v (λ p. out (k q p)) there;
  }
