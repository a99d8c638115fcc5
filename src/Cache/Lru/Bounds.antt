-- ===== src/Cache/Lru/Bounds.antt =====
-- How many entries the LRU map holds after each operation.
use absnfs.Prelude.{
  ℕ, zero, suc, ◌-◌, ◌<◌, ◌≤◌, ◌≡◌, length, bytes_eq, nat_eq, arith, Option-cases, inl, inr, last?,
  last?-none,
}
use absnfs.Prelude.Assoc.{lookup, insert, length-delete, lookup-last, length-delete-le}
use absnfs.Cache.Lru.Forms.{
  room, store-added, store-refreshed, update_absent, update-moved, remove_absent,
  remove-without_pair,
}
use absnfs.Cache.Lru.Inv.{IsLinked, evict_back-IsLinked}
use absnfs.Cache.Lru.{
  FilePath, Lru, remove, evict_back, store, evict_while, shrink, update_access_log,
}

module _ {ℓ} {V : Type ℓ} where
  -- On a map that is not empty an eviction removes one entry.
  pub length-evict_back :
      {c : Lru V} → IsLinked c → length (evict_back c).entries ≡ length c.entries - 1
  unfolding evict_back
  length-evict_back {c} w = elim (Option-cases (last? c.access_list)) [
    | inl e ↦ rw (e, evict_back) (omega (arith, w.balanced, last?-none c.access_list e))
    | inr ((e, p), q) ↦
        let (s, at_p, elem) = w.backward e p (lookup-last c.access_list w.elements q) in
        rw (q, evict_back) (omega (arith, length-delete p c.entries w.keys at_p))
  ]

  -- A store never leaves more than `max` entries.
  pub length-store :
      (max : ℕ) (p : FilePath) (v : V) {c : Lru V}
      → IsLinked c
      → 0 < max
      → length c.entries ≤ max
      → length (store max p v c).entries ≤ max
  unfolding insert
  length-store max p v {c} w h k = elim (Option-cases (lookup p c.entries)) [
    | inl absent ↦
        rw (store-added p c absent max v)
          (ground (arith, length-evict_back w, length-delete-le p (room p c max).entries))
    | inr (s, at_p) ↦
        let (e, elem, there) = w.forward p s at_p in
        rw (store-refreshed p c s e at_p elem there max v)
          (omega (arith, length-delete p c.entries w.keys at_p))
  ]

  -- The loop of a resize ends with at most `max` entries.
  evict_while_done :
      (fuel max : ℕ) {c : Lru V}
      → IsLinked c
      → length c.entries ≤ fuel
      → length (evict_while fuel max c).entries ≤ max
  unfolding evict_while
  evict_while_done zero max w h = omega arith
  evict_while_done (suc fuel) max {c} w h =
      ground
        (arith, w.balanced, length-evict_back w, evict_while_done fuel max (evict_back-IsLinked w))

  pub length-shrink : (max : ℕ) {c : Lru V} → IsLinked c → length (shrink max c).entries ≤ max
  unfolding shrink
  length-shrink max {c} w =
      evict_while_done (length c.access_list) max w (omega (arith, w.balanced))

  pub length-update :
      (p : FilePath) {c : Lru V} → IsLinked c → (update_access_log p c).entries ≡ c.entries
  length-update p {c} w = elim (Option-cases (lookup p c.entries)) [
    | inl absent ↦ rw (update_absent p c absent)
    | inr (s, at_p) ↦
        let (e, elem, there) = w.forward p s at_p in rw (update-moved p c s e at_p elem there)
  ]

  pub length-remove :
      (p : FilePath) {c : Lru V} → IsLinked c → length (remove p c).entries ≤ length c.entries
  length-remove p {c} w = elim (Option-cases (lookup p c.entries)) [
    | inl absent ↦ rw (remove_absent p c absent) (omega arith)
    | inr (s, at_p) ↦
        let (e, elem, there) = w.forward p s at_p in
        rw (remove-without_pair p c s e at_p elem there) (length-delete-le p c.entries)
  ]
