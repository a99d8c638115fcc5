-- ===== src/Cache/Dir.antt =====
-- cache.go, DirCache: directory listings with a time to live, an LRU bound and a bound on the size
-- of one listing. A directory entry, an `os.FileInfo`, is a parameter `I`.
pub mod Valid
pub mod Laws
pub mod Tests
use absnfs.Prelude.{
  ℕ, zero, suc, ◌+◌, ◌^◌, ◌%◌, Bool, true, false, Option, none, some, List, length, ltb, nat_beq,
  if◌then◌else◌, bytes_eq,
}
use absnfs.Prelude.Int.{ℤ, pos, ltb_ℤ, ◌+ℤ◌}
use absnfs.Prelude.Assoc.{lookup}
use absnfs.Attrs.{seconds}
use absnfs.Cache.Attr.{size_or, duration_or}
use absnfs.Cache.Lru
use absnfs.Cache.Lru.{FilePath, Slot, Lru}

pub record CachedDirEntry {ℓ} (I : Type ℓ) : Type ℓ where
  pub entries : List I
  pub valid_until : ℤ

pub record DirCache {ℓ} (I : Type ℓ) : Type ℓ where
  pub lru : Lru (CachedDirEntry I)
  pub timeout : ℤ
  pub max_entries : ℕ
  pub max_dir_size : ℕ
  pub hits : ℕ
  pub misses : ℕ

module _ {ℓ} {I : Type ℓ} where
  unfoldable pub new_dir_cache : ℤ → ℤ → ℤ → DirCache I
  new_dir_cache timeout max_entries max_dir_size = record {
    lru = Lru.empty 0;
    timeout = duration_or (seconds 10) timeout;
    max_entries = size_or 1000 max_entries;
    max_dir_size = size_or 10000 max_dir_size;
    hits = 0;
    misses = 0;
  }

  -- `atomic.AddUint64(&c.misses, 1)` and the same for the hits.
  unfoldable pub count_miss : DirCache I → DirCache I
  count_miss c = record c { misses = (c.misses + 1) % 2 ^ 64 }

  unfoldable pub count_hit : DirCache I → DirCache I
  count_hit c = record c { hits = (c.hits + 1) % 2 ^ 64 }

  -- The section that uses the entry, if it is still there.
  unfoldable pub touch : FilePath → DirCache I → DirCache I
  touch path c = record c { lru = Lru.update_access_log path c.lru }

  -- The section that removes an entry found expired, if it still is.
  unfoldable pub expire : FilePath → ℤ → DirCache I → DirCache I
  expire path now c = elim (lookup path c.lru.entries) [
    | none ↦ c
    | some s ↦ if ltb_ℤ s.value.valid_until now then record c { lru = Lru.remove path c.lru } else c
  ]

  -- `Get` with no other call between its sections. `later` is the instant of the second check.
  unfoldable pub get : FilePath → ℤ → ℤ → DirCache I → Option (List I) × DirCache I
  unfolding count_miss count_hit touch expire
  get path now later c = elim (lookup path c.lru.entries) [
    | none ↦ (none, count_miss c)
    | some s ↦
        if ltb_ℤ s.value.valid_until now
        then (none, expire path later (count_miss c))
        else (some s.value.entries, count_hit (touch path c))
  ]

  -- A listing that is too long is not cached, and the one that was there stays.
  unfoldable pub put : FilePath → List I → ℤ → DirCache I → DirCache I
  put path entries now c =
      let entry : CachedDirEntry I = record { entries = entries; valid_until = now +ℤ c.timeout } in
      if ltb c.max_dir_size (length entries)
      then c
      else record c { lru = Lru.store c.max_entries path entry c.lru }

  unfoldable pub invalidate : FilePath → DirCache I → DirCache I
  invalidate path c = record c { lru = Lru.remove path c.lru }

  unfoldable pub clear : DirCache I → DirCache I
  clear c = record c { lru = Lru.empty c.lru.fresh }

  unfoldable pub size : DirCache I → ℕ
  size c = length c.lru.entries

  unfoldable pub stats : DirCache I → ℕ × ℕ × ℕ
  stats c = (length c.lru.entries, c.hits, c.misses)

  unfoldable pub resize : ℤ → DirCache I → DirCache I
  resize new_max c =
      let n = size_or 1000 new_max in
      if nat_beq c.max_entries n then c else record c { max_entries = n; lru = Lru.shrink n c.lru }

  unfoldable pub update_ttl : ℤ → DirCache I → DirCache I
  update_ttl new_timeout c = record c { timeout = duration_or (seconds 10) new_timeout }
