-- ===== src/Cache/Attr/Tests.antt =====
-- An attribute cache with one file and one negative entry, on which its theorems are tried.
use absnfs.Prelude.{◌≡◌, refl, true, [], ◌∷◌, bytes_eq, if◌then◌else◌}
use absnfs.Prelude.Int.{pos, ltb_ℤ, ◌+ℤ◌}
use absnfs.Prelude.Assoc.{insert, delete}
use absnfs.Attrs.{NfsAttrs, seconds}
use absnfs.Cache.Lru
use absnfs.Cache.Lru.{FilePath, peek}
use absnfs.Cache.Attr.{
  AttrCache, miss, hit, new_attr_cache, copy_attrs, configure_negative_caching, get, put,
  store_negative,
}
use absnfs.Cache.Attr.Valid.{IsValid}
use absnfs.Cache.Attr.Steps.{
  Reach, start, next, stored, stored_negative, configured, AttrCache-IsValid,
}
use absnfs.Cache.Attr.Laws.{get-put_attrs}

abbrev path_a : FilePath
path_a = b'/' ∷ b'a' ∷ []

abbrev path_b : FilePath
path_b = b'/' ∷ b'b' ∷ []

abbrev attrs_a : NfsAttrs
attrs_a = record {
  mode = 420;
  size = pos 7;
  file_id = 3;
  mtime = pos 1;
  atime = pos 1;
  uid = 0;
  gid = 0;
  valid_until = pos 99;
}

abbrev configured_cache : AttrCache
configured_cache = configure_negative_caching true (seconds 1) (new_attr_cache (seconds 5) (pos 2))

abbrev cache : AttrCache
cache = store_negative path_b (seconds 1) (pos 10) (put path_a attrs_a (pos 5) configured_cache)

Reach-configured : Reach (seconds 5) (pos 2) configured_cache
Reach-configured = next start (configured true (seconds 1))

reach : Reach (seconds 5) (pos 2) cache
reach =
    next (next Reach-configured (stored path_a attrs_a (pos 5)))
      (stored_negative path_b (seconds 1) (pos 10))

AttrCache-IsValid_example : IsValid cache
AttrCache-IsValid_example = AttrCache-IsValid reach

get-put_attrs_example :
    (get path_a (pos 8) (pos 9) (put path_a attrs_a (pos 7) cache)).0
    ≡ (if ltb_ℤ (pos 8) (pos 7 +ℤ cache.ttl) then hit (copy_attrs attrs_a) else miss)
unfolding copy_attrs
get-put_attrs_example =
    get-put_attrs path_a attrs_a (pos 7) (pos 8) (pos 9) (AttrCache-IsValid reach)

found_a : (get path_a (pos 6) (pos 7) cache).0 ≡ hit (copy_attrs attrs_a)
unfolding get put configure_negative_caching new_attr_cache Lru.store Lru.empty insert delete ◌+ℤ◌
found_a = refl
