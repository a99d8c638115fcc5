-- ===== src/Cache/Lru/Peek.antt =====
-- What the LRU map holds for each path after an operation.
use absnfs.Prelude.{
  ℕ, zero, suc, ◌<◌, ◌≤◌, ◌≡◌, refl, sym, ap, ◌∙◌, none, some, length, if◌then◌else◌, bytes_eq,
  arith, list_beq_iff, ◌==◌, List, [], ◌∷◌, take, ◌⊎◌, inl, inr, Bool-cases,
}
use absnfs.Prelude.Assoc.{lookup, insert, lookup-delete, lookup-insert}
use absnfs.Cache.Lru.{FilePath, Lru, remove, store, update_access_log, peek}
use absnfs.Cache.Lru.Inv.{IsLinked, remove-IsLinked, store-IsLinked}
use absnfs.Cache.Lru.Bounds.{length-update}
use absnfs.Cache.Lru.View.{view, view-remove, view-store, lookup-view}

module _ {ℓ} {V : Type ℓ} where
  pub peek-remove :
      (p q : FilePath) {c : Lru V}
      → IsLinked c
      → peek q (remove p c) ≡ (if p == q then none else peek q c)
  peek-remove p q {c} w =
      sym (lookup-view q (remove-IsLinked p w))
      ∙ ap (lookup q) (view-remove p w)
      ∙ lookup-delete p q (view c)
      ∙ ap (λ o. if p == q then none else o) (lookup-view q w)

  pub peek-store_self :
      (max : ℕ) (p : FilePath) (v : V) {c : Lru V}
      → IsLinked c
      → 0 < max
      → length c.entries ≤ max
      → peek p (store max p v c) ≡ some v
  unfolding insert
  peek-store_self zero p v w h k = elim h [ ]
  peek-store_self (suc n) p v {c} w h k =
      sym (lookup-view p (store-IsLinked (suc n) p v w))
      ∙ ap (lookup p) (view-store (suc n) p v w h k)
      ∙ ground (arith, list_beq_iff p p)

  pub peek-update :
      (p q : FilePath) {c : Lru V} → IsLinked c → peek q (update_access_log p c) ≡ peek q c
  unfolding peek
  peek-update p q {c} w = rw (length-update p w) refl

  lookup-take :
      (n : ℕ) (q : FilePath) (m : List (FilePath × V)) (v : V)
      → lookup q (take n m) ≡ some v
      → lookup q m ≡ some v
  lookup-take zero q m v h = cc
  lookup-take (suc n) q [] v h = cc
  lookup-take (suc n) q ((p, w) ∷ m) v h = ground (arith, lookup-take n q m v)

  -- What is stored, or what was there.
  pub peek-store_within :
      (max : ℕ) (p q : FilePath) (v u : V) {c : Lru V}
      → IsLinked c
      → 0 < max
      → length c.entries ≤ max
      → peek q (store max p v c) ≡ some u
      → ((p ≡ q) × (u ≡ v)) ⊎ (peek q c ≡ some u)
  peek-store_within max p q v u {c} w h k there =
      let seen : lookup q (insert p v (view c)) ≡ some u =
        lookup-take max q (insert p v (view c)) u (
          ap (lookup q) (sym (view-store max p v w h k))
          ∙ lookup-view q (store-IsLinked max p v w)
          ∙ there) in
      let same : (if p == q then some v else peek q c) ≡ some u =
        ap (λ o. if p == q then some v else o) (sym (lookup-view q w))
        ∙ sym (lookup-insert p q v (view c))
        ∙ seen in
      elim (Bool-cases (p == q)) [
        | inl e ↦ inl ((list_beq_iff p q).0 e, ground (arith, same))
        | inr e ↦ inr (ground (arith, same))
      ]
