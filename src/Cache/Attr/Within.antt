-- ===== src/Cache/Attr/Within.antt =====
-- What an operation can leave in the attribute cache: an entry that was there, or the one that it
-- puts.
use absnfs.Prelude.{
  ◌≡◌, ◌⊎◌, inl, inr, sym, ◌∙◌, true, false, Bool-cases, Option-cases, none, some, bytes_eq, arith,
  list_beq_iff,
}
use absnfs.Prelude.Int.{ℤ, ltb_ℤ, ◌+ℤ◌}
use absnfs.Prelude.Assoc.{lookup}
use absnfs.Attrs.{NfsAttrs}
use absnfs.Cache.Lru.{FilePath, peek}
use absnfs.Cache.Lru.Peek.{peek-remove, peek-store_within, peek-update}
use absnfs.Cache.Attr.{
  CachedAttrs, AttrCache, Found, miss, negative, hit, nil_panic, answer, after_answer, copy_attrs,
  touch, expire, get, put, put_negative, invalidate, invalidate_negative_in_dir,
}
use absnfs.Cache.Attr.Valid.{IsValid}
use absnfs.Cache.Attr.Laws.{peek-invalidate_negative_in_dir}

-- Every entry of the second cache is one of the first.
pub record IsWithin (c d : AttrCache) : Type 0 where
  pub there : (q : FilePath) (v : CachedAttrs) → peek q d.lru ≡ some v → peek q c.lru ≡ some v

pub invalidate-IsWithin : (p : FilePath) {c : AttrCache} → IsValid c → IsWithin c (invalidate p c)
unfolding invalidate
invalidate-IsWithin p {c} w = record { there = λ q v h. ground (arith, peek-remove p q w.linked) }

pub peek-invalidate_self :
    (p : FilePath) {c : AttrCache} → IsValid c → peek p (invalidate p c).lru ≡ none
unfolding invalidate
peek-invalidate_self p {c} w = ground (arith, peek-remove p p w.linked, list_beq_iff p p)

pub invalidate_negative-IsWithin :
    (dir : FilePath) {c : AttrCache} → IsValid c → IsWithin c (invalidate_negative_in_dir dir c)
invalidate_negative-IsWithin dir {c} w = record {
  there = λ q v h. ground (arith, peek-invalidate_negative_in_dir dir q w);
}

touch-IsWithin : (p : FilePath) {c : AttrCache} → IsValid c → IsWithin c (touch p c)
unfolding touch
touch-IsWithin p w = record { there = λ q v h. sym (peek-update p q w.linked) ∙ h }

expire-IsWithin : (p : FilePath) (now : ℤ) {c : AttrCache} → IsValid c → IsWithin c (expire p now c)
unfolding invalidate expire
expire-IsWithin p now {c} w = elim (Option-cases (lookup p c.lru.entries)) [
  | inl e ↦ rw (e, expire) (record { there = λ q v h. h })
  | inr (s, e) ↦ elim (Bool-cases (ltb_ℤ s.value.expire_at now)) [
    | inl old ↦ rw (e, old, expire) (invalidate-IsWithin p w)
    | inr fresh ↦ rw (e, fresh, expire) (record { there = λ q v h. h })
  ]
]

after_answer-IsWithin :
    (f : Found) (p : FilePath) (now : ℤ) {c : AttrCache}
    → IsValid c
    → IsWithin c (after_answer f p now c)
after_answer-IsWithin miss p now w = expire-IsWithin p now w
after_answer-IsWithin nil_panic p now w = record { there = λ q v h. h }
after_answer-IsWithin negative p now w = touch-IsWithin p w
after_answer-IsWithin (hit a) p now w = touch-IsWithin p w

pub get-IsWithin :
    (p : FilePath) (now later : ℤ) {c : AttrCache} → IsValid c → IsWithin c (get p now later c).1
unfolding get
get-IsWithin p now later {c} w =
    after_answer-IsWithin (answer now (lookup p c.lru.entries)) p later w

pub put_within :
    (p q : FilePath) (a : NfsAttrs) (now : ℤ) (u : CachedAttrs) {c : AttrCache}
    → IsValid c
    → peek q (put p a now c).lru ≡ some u
    → ((p ≡ q)
        × (u ≡ record {
          attrs = some (copy_attrs a);
          expire_at = now +ℤ c.ttl;
          is_negative = false;
        }))
      ⊎ (peek q c.lru ≡ some u)
unfolding put
put_within p q a now u {c} w h =
    peek-store_within c.max_size p q _ u w.linked w.positive w.bounded h

pub put_negative_within :
    (p q : FilePath) (now : ℤ) (u : CachedAttrs) {c : AttrCache}
    → IsValid c
    → peek q (put_negative p now c).lru ≡ some u
    → ((p ≡ q)
        × (u ≡ record { attrs = none; expire_at = now +ℤ c.negative_ttl; is_negative = true }))
      ⊎ (peek q c.lru ≡ some u)
unfolding put_negative
put_negative_within p q now u {c} w = elim (Bool-cases c.enable_negative) [
  | inl on ↦ simp on (peek-store_within c.max_size p q _ u w.linked w.positive w.bounded)
  | inr off ↦ simp off (λ h. inr h)
]
