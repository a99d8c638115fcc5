-- ===== src/Cache/Attr/Steps.antt =====
-- The critical sections of the attribute cache as steps, in any order: what other goroutines do
-- between the sections of one call is a step like any other.
use absnfs.Prelude.{Bool, bytes_eq}
use absnfs.Prelude.Int.{ℤ}
use absnfs.Attrs.{NfsAttrs}
use absnfs.Cache.Lru.{FilePath}
use absnfs.Cache.Attr.{
  AttrCache, new_attr_cache, configure_negative_caching, touch, expire, put, store_negative,
  invalidate, clear, invalidate_negative_in_dir, resize, update_ttl,
}
use absnfs.Cache.Attr.Valid.{
  IsValid, touch-IsValid, expire-IsValid, put-IsValid, store_negative-IsValid, invalidate-IsValid,
  clear-IsValid, invalidate_negative_in_dir-IsValid, resize-IsValid, update_ttl-IsValid,
  configure-IsValid, new_attr_cache-IsValid,
}

-- One critical section.
pub data Step (c : AttrCache) : AttrCache → Type 0 where
  touched : (p : FilePath) → Step c (touch p c)
  expired : (p : FilePath) (now : ℤ) → Step c (expire p now c)
  stored : (p : FilePath) (a : NfsAttrs) (now : ℤ) → Step c (put p a now c)
  stored_negative : (p : FilePath) (ttl now : ℤ) → Step c (store_negative p ttl now c)
  invalidated : (p : FilePath) → Step c (invalidate p c)
  invalidated_in : (dir : FilePath) → Step c (invalidate_negative_in_dir dir c)
  cleared : Step c (clear c)
  resized : (n : ℤ) → Step c (resize n c)
  ttl_updated : (ttl : ℤ) → Step c (update_ttl ttl c)
  configured : (on : Bool) (ttl : ℤ) → Step c (configure_negative_caching on ttl c)

-- What a sequence of sections reaches from a new cache.
pub data Reach (ttl size : ℤ) : AttrCache → Type 0 where
  start : Reach ttl size (new_attr_cache ttl size)
  next : {c d : AttrCache} → Reach ttl size c → Step c d → Reach ttl size d

Step-IsValid : {c d : AttrCache} → Step c d → IsValid c → IsValid d
Step-IsValid (touched p) w = touch-IsValid p w
Step-IsValid (expired p now) w = expire-IsValid p now w
Step-IsValid (stored p a now) w = put-IsValid p a now w
Step-IsValid (stored_negative p ttl now) w = store_negative-IsValid p ttl now w
Step-IsValid (invalidated p) w = invalidate-IsValid p w
Step-IsValid (invalidated_in dir) w = invalidate_negative_in_dir-IsValid dir w
Step-IsValid cleared w = clear-IsValid w
Step-IsValid (resized n) w = resize-IsValid n w
Step-IsValid (ttl_updated ttl) w = update_ttl-IsValid ttl w
Step-IsValid (configured on ttl) w = configure-IsValid on ttl w

-- After any sequence of critical sections, in any interleaving, the map and the access list are in
-- bijection, the cache holds at most `max_size` entries, and each entry is either negative without
-- attributes or positive with attributes.
pub AttrCache-IsValid : {ttl size : ℤ} {c : AttrCache} → Reach ttl size c → IsValid c
AttrCache-IsValid {ttl} {size} start = new_attr_cache-IsValid ttl size
AttrCache-IsValid (next r st) = Step-IsValid st (AttrCache-IsValid r)
