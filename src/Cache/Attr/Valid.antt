-- ===== src/Cache/Attr/Valid.antt =====
-- The invariant of the attribute cache, and that every critical section keeps it.
use absnfs.Prelude.{
  ℕ, ◌<◌, ◌≤◌, ◌≡◌, ◌⊎◌, inl, inr, refl, true, false, Bool-cases, if_keeps, nat_beq, Option, none,
  some, List, [], ◌∷◌, length, if◌then◌else◌, bytes_eq, arith, Bool, zero, suc,
}
use absnfs.Prelude.Int.{ℤ, pos, negsuc, ltb_ℤ}
use absnfs.Prelude.Assoc.{lookup, insert}
use absnfs.Prelude.All.{
  AllValues, AllValues-take, AllValues-delete, AllValues-insert, AllValues-lookup,
}
use absnfs.Attrs.{NfsAttrs, zero_time, new_nfs_attrs}
use absnfs.Cache.Lru
use absnfs.Cache.Lru.{FilePath, Slot, Lru, peek}
use absnfs.Cache.Lru.Inv.{
  IsLinked, empty-IsLinked, update_access_log-IsLinked, store-IsLinked, remove-IsLinked,
  shrink-IsLinked,
}
use absnfs.Cache.Lru.Bounds.{length-store, length-shrink, length-remove, length-update}
use absnfs.Cache.Lru.View.{view, view-update, view-store, view-remove, view-shrink, lookup-view}
use absnfs.Cache.Attr.{
  CachedAttrs, AttrCache, size_or, new_attr_cache, configure_negative_caching, copy_attrs, touch,
  expire, put, store_negative, invalidate, clear, remove_all, negative_children,
  invalidate_negative_in_dir, resize, update_ttl, Found, miss, negative, hit, nil_panic, answer,
  after_answer, get, put_negative,
}

-- A negative entry has no attributes. A positive one has some, which no instant finds fresh.
abbrev pub IsEntry : CachedAttrs → Type 0
IsEntry v =
    ((v.is_negative ≡ true) × (v.attrs ≡ none))
    ⊎ ((a : NfsAttrs) × (v.is_negative ≡ false) × (v.attrs ≡ some a) × (a.valid_until ≡ zero_time))

pub record IsValid (c : AttrCache) : Type 0 where
  pub linked : IsLinked c.lru
  pub positive : 0 < c.max_size
  pub bounded : length c.lru.entries ≤ c.max_size
  pub entries : AllValues IsEntry (view c.lru)

module _ {ℓ κ} {V : Type ℓ} (P : V → Type κ) where
  pub used_entries :
      (p : FilePath) {l : Lru V}
      → IsLinked l
      → AllValues P (view l)
      → AllValues P (view (Lru.update_access_log p l))
  used_entries p {l} w h = rw (view-update p w) (go (lookup p (view l)) refl)
    where
      go :
          (o : Option V)
          → lookup p (view l) ≡ o
          → AllValues P (elim o [ none ↦ view l | some v ↦ insert p v (view l) ])
      go none e = h
      go (some v) e = AllValues-insert P p v (view l) (AllValues-lookup P p v (view l) h e) h

pub touch-IsValid : (p : FilePath) {c : AttrCache} → IsValid c → IsValid (touch p c)
unfolding touch
touch-IsValid p {c} w = record {
  linked = update_access_log-IsLinked p w.linked;
  positive = w.positive;
  bounded = rw (length-update p w.linked) w.bounded;
  entries = used_entries IsEntry p w.linked w.entries;
}

pub invalidate-IsValid : (p : FilePath) {c : AttrCache} → IsValid c → IsValid (invalidate p c)
unfolding invalidate
invalidate-IsValid p {c} w = record {
  linked = remove-IsLinked p w.linked;
  positive = w.positive;
  bounded = omega (arith, length-remove p w.linked, w.bounded);
  entries = rw (view-remove p w.linked) (AllValues-delete IsEntry p (view c.lru) w.entries);
}

store-IsValid :
    (p : FilePath) (v : CachedAttrs) {c : AttrCache}
    → IsValid c
    → IsEntry v
    → IsValid (record c { lru = Lru.store c.max_size p v c.lru })
store-IsValid p v {c} w h = record {
  linked = store-IsLinked c.max_size p v w.linked;
  positive = w.positive;
  bounded = length-store c.max_size p v w.linked w.positive w.bounded;
  entries = rw (view-store c.max_size p v w.linked w.positive w.bounded) (
      AllValues-take IsEntry c.max_size (insert p v (view c.lru))
        (AllValues-insert IsEntry p v (view c.lru) h w.entries));
}

pub put-IsValid :
    (p : FilePath) (a : NfsAttrs) (now : ℤ) {c : AttrCache} → IsValid c → IsValid (put p a now c)
unfolding put new_nfs_attrs
put-IsValid p a now w = store-IsValid p _ w (inr (copy_attrs a, refl, refl, refl))

pub store_negative-IsValid :
    (p : FilePath) (ttl now : ℤ) {c : AttrCache} → IsValid c → IsValid (store_negative p ttl now c)
store_negative-IsValid p ttl now w = store-IsValid p _ w (inl (refl, refl))

pub expire-IsValid : (p : FilePath) (now : ℤ) {c : AttrCache} → IsValid c → IsValid (expire p now c)
unfolding expire invalidate
expire-IsValid p now {c} w = go (lookup p c.lru.entries)
  where
    go :
        (o : Option (Slot CachedAttrs))
        → IsValid (elim o [
          | none ↦ c
          | some s ↦
              if ltb_ℤ s.value.expire_at now then record c { lru = Lru.remove p c.lru } else c
        ])
    go none = w
    go (some s) = if_keeps IsValid (ltb_ℤ s.value.expire_at now) (invalidate-IsValid p w) w

after_answer-IsValid :
    (f : Found) (p : FilePath) (now : ℤ) {c : AttrCache}
    → IsValid c
    → IsValid (after_answer f p now c)
after_answer-IsValid miss p now w = expire-IsValid p now w
after_answer-IsValid nil_panic p now w = w
after_answer-IsValid negative p now w = touch-IsValid p w
after_answer-IsValid (hit a) p now w = touch-IsValid p w

pub get-IsValid :
    (p : FilePath) (now later : ℤ) {c : AttrCache} → IsValid c → IsValid (get p now later c).1
unfolding get
get-IsValid p now later {c} w = after_answer-IsValid (answer now (lookup p c.lru.entries)) p later w

pub put_negative-IsValid :
    (p : FilePath) (now : ℤ) {c : AttrCache} → IsValid c → IsValid (put_negative p now c)
unfolding put_negative
put_negative-IsValid p now {c} w =
    if_keeps IsValid c.enable_negative (store_negative-IsValid p c.negative_ttl now w) w

pub clear-IsValid : {c : AttrCache} → IsValid c → IsValid (clear c)
unfolding clear Lru.empty view Lru.View.view_of
clear-IsValid {c} w = record {
  linked = empty-IsLinked c.lru.fresh;
  positive = w.positive;
  bounded = omega arith;
  entries = tt;
}

pub size_or-pos : (d : ℕ) (n : ℤ) → 0 < d → 0 < size_or d n
size_or-pos d (pos zero) h = h
size_or-pos d (pos (suc n)) h = omega arith
size_or-pos d (negsuc n) h = h

pub new_attr_cache-IsValid : (ttl size : ℤ) → IsValid (new_attr_cache ttl size)
unfolding new_attr_cache Lru.empty view Lru.View.view_of
new_attr_cache-IsValid ttl size = record {
  linked = empty-IsLinked 0;
  positive = size_or-pos 10000 size (omega arith);
  bounded = omega arith;
  entries = tt;
}

pub resize-IsValid : (n : ℤ) {c : AttrCache} → IsValid c → IsValid (resize n c)
unfolding resize
resize-IsValid n {c} w = elim (Bool-cases (nat_beq c.max_size (size_or 10000 n))) [
  | inl same ↦ rw same w
  | inr other ↦ rw other (record {
    linked = shrink-IsLinked (size_or 10000 n) w.linked;
    positive = size_or-pos 10000 n (omega arith);
    bounded = length-shrink (size_or 10000 n) w.linked;
    entries =
        rw (view-shrink (size_or 10000 n) w.linked)
          (AllValues-take IsEntry (size_or 10000 n) (view c.lru) w.entries);
  })
]

pub remove_all-IsValid :
    (ps : List FilePath) {c : AttrCache}
    → IsValid c
    → IsValid (record c { lru = remove_all ps c.lru })
unfolding remove_all invalidate
remove_all-IsValid [] w = w
remove_all-IsValid (p ∷ ps) w = remove_all-IsValid ps (invalidate-IsValid p w)

pub invalidate_negative_in_dir-IsValid :
    (dir : FilePath) {c : AttrCache} → IsValid c → IsValid (invalidate_negative_in_dir dir c)
unfolding invalidate_negative_in_dir
invalidate_negative_in_dir-IsValid dir {c} w =
    remove_all-IsValid (negative_children dir c.lru.entries) w

pub configure-IsValid :
    (on : Bool) (ttl : ℤ) {c : AttrCache}
    → IsValid c
    → IsValid (configure_negative_caching on ttl c)
unfolding configure_negative_caching
configure-IsValid on ttl w = record {
  linked = w.linked;
  positive = w.positive;
  bounded = w.bounded;
  entries = w.entries;
}

pub update_ttl-IsValid : (ttl : ℤ) {c : AttrCache} → IsValid c → IsValid (update_ttl ttl c)
unfolding update_ttl
update_ttl-IsValid ttl w = record {
  linked = w.linked;
  positive = w.positive;
  bounded = w.bounded;
  entries = w.entries;
}
