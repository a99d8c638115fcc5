-- ===== src/Cache/Attr.antt =====
-- cache.go, AttrCache: file attributes and negative lookups, with a time to live and an LRU bound.
-- Each function between a `Lock` and its `Unlock` is one step. The caller passes the instants that
-- `time.Now()` returns; metrics and debug logs of a hit or a miss are left out.
pub mod Valid
pub mod Laws
pub mod Steps
pub mod Within
pub mod Tests
use absnfs.Prelude.{
  ℕ, zero, suc, ◌+◌, Bool, true, false, ◌&&◌, Option, none, some, List, [], ◌∷◌, length,
  if◌then◌else◌, bytes_eq, nat_beq,
}
use absnfs.Prelude.Int.{ℤ, pos, negsuc, ltb_ℤ, ◌+ℤ◌}
use absnfs.Prelude.Assoc.{lookup}
use absnfs.Attrs.{NfsAttrs, seconds, new_nfs_attrs}
use absnfs.Cache.ChildOf.{is_child_of}
use absnfs.Cache.Lru
use absnfs.Cache.Lru.{FilePath, Slot, Lru}

-- `attrs` is nil in a negative entry.
pub record CachedAttrs : Type 0 where
  pub attrs : Option NfsAttrs
  pub expire_at : ℤ
  pub is_negative : Bool

pub record AttrCache : Type 0 where
  pub lru : Lru CachedAttrs
  pub ttl : ℤ
  pub negative_ttl : ℤ
  pub max_size : ℕ
  pub enable_negative : Bool

-- A size that is not positive is replaced by the default.
abbrev pub size_or : ℕ → ℤ → ℕ
size_or default (pos zero) = default
size_or default (pos (suc n)) = suc n
size_or default (negsuc n) = default

-- So is a duration.
abbrev pub duration_or : ℤ → ℤ → ℤ
duration_or default d = if ltb_ℤ (pos 0) d then d else default

unfoldable pub new_attr_cache : ℤ → ℤ → AttrCache
new_attr_cache ttl max_size = record {
  lru = Lru.empty 0;
  ttl = ttl;
  negative_ttl = seconds 5;
  max_size = size_or 10000 max_size;
  enable_negative = false;
}

unfoldable pub configure_negative_caching : Bool → ℤ → AttrCache → AttrCache
configure_negative_caching enable ttl c = record c {
  enable_negative = enable;
  negative_ttl = duration_or c.negative_ttl ttl;
}

-- The copies that `Get` and `Put` make: every field but `validUntil`.
unfoldable pub copy_attrs : NfsAttrs → NfsAttrs
unfolding new_nfs_attrs
copy_attrs a = record (new_nfs_attrs a.mode a.size a.mtime a.atime a.uid a.gid) {
  file_id = a.file_id;
}

-- What `Get` answers: (nil, false), (nil, true), (attrs, true), or a nil dereference.
pub data Found : Type 0 where
  miss negative : Found
  hit : NfsAttrs → Found
  nil_panic : Found

abbrev pub copied : Option NfsAttrs → Found
copied none = nil_panic
copied (some a) = hit (copy_attrs a)

-- The part of `Get` under the read lock: the answer at the instant `now`.
abbrev pub answer : ℤ → Option (Slot CachedAttrs) → Found
answer now none = miss
answer now (some s) =
    if ltb_ℤ now s.value.expire_at
    then (if s.value.is_negative then negative else copied s.value.attrs)
    else miss

-- The second critical section after a hit: the entry is used, if it is still there.
unfoldable pub touch : FilePath → AttrCache → AttrCache
touch path c = record c { lru = Lru.update_access_log path c.lru }

-- The second critical section after an expired entry: the check is made again.
unfoldable pub expire : FilePath → ℤ → AttrCache → AttrCache
expire path now c = elim (lookup path c.lru.entries) [
  | none ↦ c
  | some s ↦ if ltb_ℤ s.value.expire_at now then record c { lru = Lru.remove path c.lru } else c
]

abbrev pub after_answer : Found → FilePath → ℤ → AttrCache → AttrCache
after_answer miss path now c = expire path now c
after_answer nil_panic path now c = c
after_answer _ path now c = touch path c

-- `Get` with no other call between its sections. `later` is the instant of the second check.
unfoldable pub get : FilePath → ℤ → ℤ → AttrCache → Found × AttrCache
unfolding touch expire
get path now later c =
    let found = answer now (lookup path c.lru.entries) in (found, after_answer found path later c)

unfoldable pub put : FilePath → NfsAttrs → ℤ → AttrCache → AttrCache
unfolding copy_attrs
put path a now c =
    let entry : CachedAttrs = record {
      attrs = some (copy_attrs a);
      expire_at = now +ℤ c.ttl;
      is_negative = false;
    } in
    record c { lru = Lru.store c.max_size path entry c.lru }

-- The section of `PutNegative` that stores, with the time to live that a section before has read.
abbrev pub store_negative : FilePath → ℤ → ℤ → AttrCache → AttrCache
store_negative path negative_ttl now c =
    let entry : CachedAttrs = record {
      attrs = none;
      expire_at = now +ℤ negative_ttl;
      is_negative = true;
    } in
    record c { lru = Lru.store c.max_size path entry c.lru }

-- `PutNegative` with no other call between its sections.
unfoldable pub put_negative : FilePath → ℤ → AttrCache → AttrCache
put_negative path now c = if c.enable_negative then store_negative path c.negative_ttl now c else c

unfoldable pub invalidate : FilePath → AttrCache → AttrCache
invalidate path c = record c { lru = Lru.remove path c.lru }

unfoldable pub clear : AttrCache → AttrCache
clear c = record c { lru = Lru.empty c.lru.fresh }

unfoldable pub size : AttrCache → ℕ
size c = length c.lru.entries

unfoldable pub stats : AttrCache → ℕ × ℕ
stats c = (length c.lru.entries, c.max_size)

abbrev pub count_negative : List (FilePath × Slot CachedAttrs) → ℕ
count_negative [] = 0
count_negative ((path, s) ∷ m) = (if s.value.is_negative then 1 else 0) + count_negative m

unfoldable pub negative_stats : AttrCache → ℕ
negative_stats c = count_negative c.lru.entries

-- The first loop of `InvalidateNegativeInDir`: the paths to delete.
unfoldable pub negative_children : FilePath → List (FilePath × Slot CachedAttrs) → List FilePath
negative_children dir [] = []
negative_children dir ((path, s) ∷ m) =
    let rest = negative_children dir m in
    if s.value.is_negative && is_child_of path dir then path ∷ rest else rest

-- The second loop.
unfoldable pub remove_all : List FilePath → Lru CachedAttrs → Lru CachedAttrs
remove_all [] l = l
remove_all (path ∷ paths) l = remove_all paths (Lru.remove path l)

unfoldable pub invalidate_negative_in_dir : FilePath → AttrCache → AttrCache
unfolding negative_children remove_all
invalidate_negative_in_dir dir c = record c {
  lru = remove_all (negative_children dir c.lru.entries) c.lru;
}

unfoldable pub resize : ℤ → AttrCache → AttrCache
resize new_size c =
    let n = size_or 10000 new_size in
    if nat_beq c.max_size n then c else record c { max_size = n; lru = Lru.shrink n c.lru }

unfoldable pub update_ttl : ℤ → AttrCache → AttrCache
update_ttl new_ttl c = record c { ttl = duration_or (seconds 5) new_ttl }
