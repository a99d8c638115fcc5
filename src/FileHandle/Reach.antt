-- ===== src/FileHandle/Reach.antt =====
-- The file handle map over any sequence of calls.
use absnfs.Prelude.{ℕ, suc, ◌+◌, ◌^◌, ◌≤◌, ◌<◌, ◌≡◌, some, arith, Option-cases, inl, inr, nat_eq}
use absnfs.Prelude.Int.{ℤ}
use absnfs.Prelude.Assoc.{lookup}
use absnfs.FileHandle.{File, FileHandleMap, new_map, allocate, release, release_all}
use absnfs.FileHandle.Valid.{IsValid, new_map-IsValid, release_all-IsValid}
use absnfs.FileHandle.Laws.{allocate_total, release-IsValid}

module _ {ℓ} {F : Type ℓ} where
  -- What `n` calls reach from a new map.
  pub data Reach (max : ℤ) : ℕ → FileHandleMap F → Type ℓ where
    start : Reach max 0 (new_map max)
    allocated :
        {n : ℕ} {fm fm' : FileHandleMap F} (f : File F) (h : ℕ)
        → Reach max n fm
        → allocate f fm ≡ some (h, fm')
        → Reach max (suc n) fm'
    released :
        {n : ℕ} {fm : FileHandleMap F} (h : ℕ) → Reach max n fm → Reach max (suc n) (release h fm)
    released_all :
        {n : ℕ} {fm : FileHandleMap F} → Reach max n fm → Reach max (suc n) (release_all fm)

  release_next : (h : ℕ) (fm : FileHandleMap F) → (release h fm).next_handle ≡ fm.next_handle
  unfolding release
  release_next h fm = elim (Option-cases (lookup h fm.handles)) [
    | inl e ↦ rw (e, release)
    | inr (f, e) ↦ rw (e, release)
  ]

  -- Fewer than 2^64 - 1 calls of Allocate, Release and ReleaseAll on a new map leave a valid map:
  -- live and freed numbers are apart, two handles never stand for one path, and there are no more
  -- handles than the limit.
  pub FileHandleMap-IsValid :
      {max : ℤ} {n : ℕ} {fm : FileHandleMap F}
      → Reach max n fm
      → n + 1 < 2 ^ 64
      → IsValid fm × (fm.next_handle ≤ n + 1)
  unfolding new_map release_all
  FileHandleMap-IsValid {max} start small = (new_map-IsValid max, omega arith)
  FileHandleMap-IsValid (allocated {n} {fm} {fm'} f h r e) small =
      let (w, next) = FileHandleMap-IsValid r (omega arith) in
      let (k, m, runs, v, grown) = allocate_total f w (omega arith) in
      let same : m ≡ fm' = ground arith in rw (← same) (v, omega arith)
  FileHandleMap-IsValid (released {n} {fm} h r) small =
      let (w, next) = FileHandleMap-IsValid r (omega arith) in
      (release-IsValid h w, omega (arith, release_next h fm))
  FileHandleMap-IsValid (released_all {n} {fm} r) small =
      let (w, next) = FileHandleMap-IsValid r (omega arith) in (release_all-IsValid fm, omega arith)
