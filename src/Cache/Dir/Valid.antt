-- ===== src/Cache/Dir/Valid.antt =====
-- The invariant of the directory cache, the critical sections as steps, and that they keep it.
use absnfs.Prelude.{
  ℕ, ◌<◌, ◌≤◌, Bool-cases, if_keeps, nat_beq, Option, none, some, List, length, if◌then◌else◌,
  bytes_eq, arith, ltb, inl, inr, Option-cases,
}
use absnfs.Prelude.Int.{ℤ, ltb_ℤ}
use absnfs.Prelude.Assoc.{lookup, insert}
use absnfs.Prelude.All.{AllValues, AllValues-take, AllValues-delete, AllValues-insert}
use absnfs.Cache.Attr.{size_or}
use absnfs.Cache.Lru
use absnfs.Cache.Lru.{FilePath, Slot, Lru}
use absnfs.Cache.Lru.Inv.{
  IsLinked, empty-IsLinked, update_access_log-IsLinked, store-IsLinked, remove-IsLinked,
  shrink-IsLinked,
}
use absnfs.Cache.Lru.Bounds.{length-store, length-shrink, length-remove, length-update}
use absnfs.Cache.Lru.View.{view, view-store, view-remove, view-shrink}
use absnfs.Cache.Attr.Valid.{size_or-pos, used_entries}
use absnfs.Cache.Dir.{
  CachedDirEntry, DirCache, new_dir_cache, count_miss, count_hit, touch, expire, put, invalidate,
  clear, resize, update_ttl, get,
}

module _ {ℓ} {I : Type ℓ} where
  abbrev pub Fits : ℕ → CachedDirEntry I → Type 0
  Fits n v = length v.entries ≤ n

  pub record IsValid (c : DirCache I) : Type ℓ where
    pub linked : IsLinked c.lru
    pub positive : 0 < c.max_entries
    pub bounded : length c.lru.entries ≤ c.max_entries
    pub listings : AllValues (Fits c.max_dir_size) (view c.lru)

  -- One critical section, or one atomic addition.
  pub data Step (c : DirCache I) : DirCache I → Type ℓ where
    touched : (p : FilePath) → Step c (touch p c)
    expired : (p : FilePath) (now : ℤ) → Step c (expire p now c)
    stored : (p : FilePath) (l : List I) (now : ℤ) → Step c (put p l now c)
    invalidated : (p : FilePath) → Step c (invalidate p c)
    cleared : Step c (clear c)
    resized : (n : ℤ) → Step c (resize n c)
    ttl_updated : (t : ℤ) → Step c (update_ttl t c)
    missed : Step c (count_miss c)
    found : Step c (count_hit c)

  pub data Reach (timeout max_entries max_dir_size : ℤ) : DirCache I → Type ℓ where
    start : Reach timeout max_entries max_dir_size (new_dir_cache timeout max_entries max_dir_size)
    next :
        {c d : DirCache I}
        → Reach timeout max_entries max_dir_size c
        → Step c d
        → Reach timeout max_entries max_dir_size d

  pub touch-IsValid : (p : FilePath) {c : DirCache I} → IsValid c → IsValid (touch p c)
  unfolding touch
  touch-IsValid p {c} w = record {
    linked = update_access_log-IsLinked p w.linked;
    positive = w.positive;
    bounded = rw (length-update p w.linked) w.bounded;
    listings = used_entries (Fits c.max_dir_size) p w.linked w.listings;
  }

  pub invalidate-IsValid : (p : FilePath) {c : DirCache I} → IsValid c → IsValid (invalidate p c)
  unfolding invalidate
  invalidate-IsValid p {c} w = record {
    linked = remove-IsLinked p w.linked;
    positive = w.positive;
    bounded = omega (arith, length-remove p w.linked, w.bounded);
    listings =
        rw (view-remove p w.linked)
          (AllValues-delete (Fits c.max_dir_size) p (view c.lru) w.listings);
  }

  pub expire-IsValid :
      (p : FilePath) (now : ℤ) {c : DirCache I} → IsValid c → IsValid (expire p now c)
  unfolding expire invalidate
  expire-IsValid p now {c} w = go (lookup p c.lru.entries)
    where
      go :
          (o : Option (Slot (CachedDirEntry I)))
          → IsValid (elim o [
            | none ↦ c
            | some s ↦
                if ltb_ℤ s.value.valid_until now then record c { lru = Lru.remove p c.lru } else c
          ])
      go none = w
      go (some s) = if_keeps IsValid (ltb_ℤ s.value.valid_until now) (invalidate-IsValid p w) w

  pub put-IsValid :
      (p : FilePath) (l : List I) (now : ℤ) {c : DirCache I} → IsValid c → IsValid (put p l now c)
  unfolding put
  put-IsValid p l now {c} w = elim (Bool-cases (ltb c.max_dir_size (length l))) [
    | inl long ↦ rw long w
    | inr fits ↦ rw fits (record {
      linked = store-IsLinked c.max_entries p _ w.linked;
      positive = w.positive;
      bounded = length-store c.max_entries p _ w.linked w.positive w.bounded;
      listings = rw (view-store c.max_entries p _ w.linked w.positive w.bounded) (
          AllValues-take (Fits c.max_dir_size) c.max_entries (insert p _ (view c.lru))
            (AllValues-insert (Fits c.max_dir_size) p _ (view c.lru) (ground arith) w.listings));
    })
  ]

  pub get-IsValid :
      (p : FilePath) (now later : ℤ) {c : DirCache I} → IsValid c → IsValid (get p now later c).1
  unfolding get count_miss count_hit
  get-IsValid p now later {c} w = elim (Option-cases (lookup p c.lru.entries)) [
    | inl e ↦ rw (e, get) (counted w)
    | inr (s, e) ↦ elim (Bool-cases (ltb_ℤ s.value.valid_until now)) [
      | inl old ↦ rw (e, old, get) (expire-IsValid p later (counted w))
      | inr fresh ↦ rw (e, fresh, get) (hit_counted (touch-IsValid p w))
    ]
  ]
    where
      counted : {d : DirCache I} → IsValid d → IsValid (count_miss d)
      counted v = record {
        linked = v.linked;
        positive = v.positive;
        bounded = v.bounded;
        listings = v.listings;
      }

      hit_counted : {d : DirCache I} → IsValid d → IsValid (count_hit d)
      hit_counted v = record {
        linked = v.linked;
        positive = v.positive;
        bounded = v.bounded;
        listings = v.listings;
      }

  clear-IsValid : {c : DirCache I} → IsValid c → IsValid (clear c)
  unfolding clear Lru.empty view Lru.View.view_of
  clear-IsValid {c} w = record {
    linked = empty-IsLinked c.lru.fresh;
    positive = w.positive;
    bounded = omega arith;
    listings = tt;
  }

  new_dir_cache-IsValid : (t m s : ℤ) → IsValid (new_dir_cache t m s)
  unfolding new_dir_cache Lru.empty view Lru.View.view_of
  new_dir_cache-IsValid t m s = record {
    linked = empty-IsLinked 0;
    positive = size_or-pos 1000 m (omega arith);
    bounded = omega arith;
    listings = tt;
  }

  resize-IsValid : (n : ℤ) {c : DirCache I} → IsValid c → IsValid (resize n c)
  unfolding resize
  resize-IsValid n {c} w = if_keeps IsValid (nat_beq c.max_entries (size_or 1000 n)) w (record {
    linked = shrink-IsLinked (size_or 1000 n) w.linked;
    positive = size_or-pos 1000 n (omega arith);
    bounded = length-shrink (size_or 1000 n) w.linked;
    listings =
        rw (view-shrink (size_or 1000 n) w.linked)
          (AllValues-take (Fits c.max_dir_size) (size_or 1000 n) (view c.lru) w.listings);
  })

  Step-IsValid : {c d : DirCache I} → Step c d → IsValid c → IsValid d
  unfolding update_ttl count_miss count_hit
  Step-IsValid (touched p) w = touch-IsValid p w
  Step-IsValid (expired p now) w = expire-IsValid p now w
  Step-IsValid (stored p l now) w = put-IsValid p l now w
  Step-IsValid (invalidated p) w = invalidate-IsValid p w
  Step-IsValid cleared w = clear-IsValid w
  Step-IsValid (resized n) w = resize-IsValid n w
  Step-IsValid (ttl_updated t) w = record {
    linked = w.linked;
    positive = w.positive;
    bounded = w.bounded;
    listings = w.listings;
  }
  Step-IsValid missed w = record {
    linked = w.linked;
    positive = w.positive;
    bounded = w.bounded;
    listings = w.listings;
  }
  Step-IsValid found w = record {
    linked = w.linked;
    positive = w.positive;
    bounded = w.bounded;
    listings = w.listings;
  }

  -- After any sequence of critical sections, in any interleaving, the map and the access list are
  -- in bijection, the cache holds at most `max_entries` listings, and no listing is longer than
  -- `max_dir_size`.
  pub DirCache-IsValid :
      {timeout max_entries max_dir_size : ℤ} {c : DirCache I}
      → Reach timeout max_entries max_dir_size c
      → IsValid c
  DirCache-IsValid {timeout} {max_entries} {max_dir_size} start =
      new_dir_cache-IsValid timeout max_entries max_dir_size
  DirCache-IsValid (next r st) = Step-IsValid st (DirCache-IsValid r)
