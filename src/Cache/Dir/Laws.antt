-- ===== src/Cache/Dir/Laws.antt =====
-- What a caller of the directory cache sees.
use absnfs.Prelude.{
  ◌≡◌, refl, Option, none, some, List, length, if◌then◌else◌, bytes_eq, arith, ltb, Bool-cases, inl,
  inr,
}
use absnfs.Prelude.Int.{ℤ, ltb_ℤ, ◌+ℤ◌}
use absnfs.Cache.Lru.{FilePath, peek}
use absnfs.Cache.Lru.Peek.{peek-store_self}
use absnfs.Cache.Dir.{CachedDirEntry, DirCache, get, put}
use absnfs.Cache.Dir.Valid.{IsValid}

module _ {ℓ} {I : Type ℓ} where
  abbrev pub reply : ℤ → Option (CachedDirEntry I) → Option (List I)
  reply now none = none
  reply now (some v) = if ltb_ℤ v.valid_until now then none else some v.entries

  get-reply :
      (p : FilePath) (now later : ℤ) (c : DirCache I)
      → (get p now later c).0 ≡ reply now (peek p c.lru)
  unfolding get peek
  get-reply p now later c = ground arith

  -- In a valid cache, after a Put, a Get of the same path finds the listing up to and including the
  -- instant at which its time to live ends, if the listing is not too long to be cached. If it is,
  -- a Get finds what it would have found before.
  pub get-put_listing :
      (p : FilePath) (l : List I) (put_at now later : ℤ) {c : DirCache I}
      → IsValid c
      → (get p now later (put p l put_at c)).0 ≡ (
          if ltb c.max_dir_size (length l)
          then (get p now later c).0
          else (if ltb_ℤ (put_at +ℤ c.timeout) now then none else some l))
  unfolding put
  get-put_listing p l put_at now later {c} w = elim (Bool-cases (ltb c.max_dir_size (length l))) [
    | inl long ↦ simp long refl
    | inr fits ↦
        simp fits
          (rw (get-reply, peek-store_self c.max_entries p _ w.linked w.positive w.bounded) refl)
  ]
