-- ===== src/Cache/Attr/Laws.antt =====
-- What a caller of the attribute cache sees.
use absnfs.Prelude.{
  ◌≡◌, ◌≢◌, inl, inr, refl, Bool, false, ◌&&◌, ◌||◌, ◌∙◌, Bool-cases, Option, none, some, List, [],
  ◌∷◌, if◌then◌else◌, bytes_eq, arith, ◌==◌, list_beq_iff,
}
use absnfs.Prelude.Int.{ℤ, pos, ltb_ℤ, ◌+ℤ◌, ◌≤ℤ◌}
use absnfs.Prelude.Assoc.{lookup, Distinct}
use absnfs.Prelude.All.{AllValues-lookup}
use absnfs.Attrs.{NfsAttrs, zero_time, new_nfs_attrs, is_valid}
use absnfs.Cache.ChildOf.{is_child_of}
use absnfs.Cache.Lru.{FilePath, Slot, Lru, peek}
use absnfs.Cache.Lru.Inv.{IsLinked, remove-IsLinked}
use absnfs.Cache.Lru.View.{lookup-view}
use absnfs.Cache.Lru.Peek.{peek-remove, peek-store_self}
use absnfs.Cache.Attr.{
  CachedAttrs, AttrCache, Found, miss, negative, hit, nil_panic, copied, copy_attrs, get, put,
  put_negative, negative_children, remove_all, invalidate_negative_in_dir,
}
use absnfs.Cache.Attr.Valid.{IsValid, IsEntry}

-- What a read at an instant finds in what the map holds.
abbrev pub reply : ℤ → Option CachedAttrs → Found
reply now none = miss
reply now (some v) =
    if ltb_ℤ now v.expire_at then (if v.is_negative then negative else copied v.attrs) else miss

pub get-reply :
    (p : FilePath) (now later : ℤ) (c : AttrCache)
    → (get p now later c).0 ≡ reply now (peek p c.lru)
unfolding get peek
get-reply p now later c = ground arith

-- In a valid cache, after a Put, a Get of the same path finds the attributes exactly while the time
-- to live has not passed. They are the ones that were put, but for the freshness mark, which is the
-- zero time.
pub get-put_attrs :
    (p : FilePath) (a : NfsAttrs) (put_at now later : ℤ) {c : AttrCache}
    → IsValid c
    → (get p now later (put p a put_at c)).0
      ≡ (if ltb_ℤ now (put_at +ℤ c.ttl) then hit (record a { valid_until = zero_time }) else miss)
unfolding put new_nfs_attrs
get-put_attrs p a put_at now later {c} w =
    rw (get-reply, peek-store_self c.max_size p _ w.linked w.positive w.bounded) refl

-- In a valid cache, after a PutNegative, a Get of the same path reports that it does not exist,
-- exactly while the negative time to live has not passed, if negative caching is on. If it is off
-- the cache is as before.
pub get-put_negative :
    (p : FilePath) (put_at now later : ℤ) {c : AttrCache}
    → IsValid c
    → (get p now later (put_negative p put_at c)).0 ≡ (
        if c.enable_negative
        then (if ltb_ℤ now (put_at +ℤ c.negative_ttl) then negative else miss)
        else (get p now later c).0)
unfolding put_negative
get-put_negative p put_at now later {c} w = elim (Bool-cases c.enable_negative) [
  | inl on ↦
      simp on (rw (get-reply, peek-store_self c.max_size p _ w.linked w.positive w.bounded) refl)
  | inr off ↦ simp off refl
]

-- In a valid cache no Get dereferences nil attributes.
pub get-ne-nil_panic :
    (p : FilePath) (now later : ℤ) {c : AttrCache} → IsValid c → (get p now later c).0 ≢ nil_panic
get-ne-nil_panic p now later {c} w h = go (peek p c.lru) refl (rw get-reply at h)
  where
    go : (o : Option CachedAttrs) → peek p c.lru ≡ o → ¬ (reply now o ≡ nil_panic)
    go none e k = cc
    go (some v) e k =
        let shape = AllValues-lookup IsEntry p v _ w.entries (rw (lookup-view p w.linked) e) in
        ground arith

reply_stale :
    (now : ℤ) (o : Option CachedAttrs) (a : NfsAttrs)
    → reply now o ≡ hit a
    → a.valid_until ≡ zero_time
unfolding copy_attrs
reply_stale now o a h = ground arith

-- The attributes that a Get hands out are past their freshness mark at every instant that is not
-- before the zero time, whatever was put.
pub get-hit_stale :
    (p : FilePath) (now later t : ℤ) (c : AttrCache) (a : NfsAttrs)
    → (get p now later c).0 ≡ hit a
    → pos 0 ≤ℤ t
    → is_valid t a ≡ false
unfolding is_valid
get-hit_stale p now later t c a h k =
    rw (reply_stale now (peek p c.lru) a (rw get-reply at h)) (ground arith)

abbrev has_path : FilePath → List FilePath → Bool
has_path q [] = false
has_path q (p ∷ ps) = (p == q) || has_path q ps

abbrev is_negative_child : FilePath → FilePath → Option (Slot CachedAttrs) → Bool
is_negative_child dir q none = false
is_negative_child dir q (some s) = s.value.is_negative && is_child_of q dir

has-negative_children :
    (dir q : FilePath) (m : List (FilePath × Slot CachedAttrs))
    → Distinct m
    → has_path q (negative_children dir m) ≡ is_negative_child dir q (lookup q m)
unfolding negative_children
has-negative_children dir q [] d = refl
has-negative_children dir q ((p, s) ∷ m) d = elim (Bool-cases (p == q)) [
  | inl same ↦
      let e = (list_beq_iff p q).0 same in
      rw (← e) (ground (arith, list_beq_iff p p, has-negative_children dir p m d.1))
  | inr other ↦ ground (arith, has-negative_children dir q m d.1)
]

peek-remove_all :
    (q : FilePath) (ps : List FilePath) {l : Lru CachedAttrs}
    → IsLinked l
    → peek q (remove_all ps l) ≡ (if has_path q ps then none else peek q l)
unfolding remove_all
peek-remove_all q [] w = refl
peek-remove_all q (p ∷ ps) {l} w =
    peek-remove_all q ps (remove-IsLinked p w) ∙ ground (arith, peek-remove p q w)

-- What is left of an entry of `q` when the negative entries in `dir` are invalidated.
abbrev pub kept : FilePath → FilePath → Option CachedAttrs → Option CachedAttrs
kept dir q none = none
kept dir q (some v) = if v.is_negative && is_child_of q dir then none else some v

-- In a valid cache InvalidateNegativeInDir removes exactly the negative entries whose path is a
-- direct child of the directory.
pub peek-invalidate_negative_in_dir :
    (dir q : FilePath) {c : AttrCache}
    → IsValid c
    → peek q (invalidate_negative_in_dir dir c).lru ≡ kept dir q (peek q c.lru)
unfolding invalidate_negative_in_dir peek
peek-invalidate_negative_in_dir dir q {c} w =
    peek-remove_all q (negative_children dir c.lru.entries) w.linked
    ∙ ground (arith, has-negative_children dir q c.lru.entries w.linked.keys)
