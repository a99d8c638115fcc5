-- ===== src/Cache/Lru/View.antt =====
-- The LRU map as a client sees it: the cached pairs, the most recently used one first. Every
-- operation is the plain one on this list.
mod Lists
use absnfs.Prelude.{
  ℕ, zero, suc, ◌+◌, ◌-◌, ◌<◌, ◌≤◌, ◌≡◌, refl, ap, Option, none, some, length, leb, ltb, ◌&&◌, [],
  if◌then◌else◌, bytes_eq, nat_eq, arith, Bool-cases, Option-cases, inl, inr, last?, ◌∷◌, List,
  take,
}
use absnfs.Prelude.Assoc.{
  lookup, delete, insert, lookup-insert_self, lookup-delete, delete-Distinct, lookup-last,
  delete_absent,
}
use absnfs.Prelude.{
  ◌∙◌, sym, last?-none, last?-pos, take_of_length-le, take-take, nat_beq_iff, ◌==◌,
}
use absnfs.Cache.Lru.Bounds.{length-store, length-evict_back}
use absnfs.Cache.Lru.Inv.{
  IsLinked, evict_back-IsLinked, room-IsLinked, room_absent, store-IsLinked, absent_element,
  same_element,
}
use absnfs.Cache.Lru.Forms.{
  moved, refreshed, added, room, without_pair, update_absent, update-moved, remove_absent,
  remove-without_pair, store-added, store-refreshed,
}
use absnfs.Cache.Lru.{
  FilePath, Slot, Lru, evict_back, store, remove, update_access_log, peek, shrink, evict_while,
}
unfoldable pub use Lists.{view_of}
use Lists.{
  Avoids, Avoids-of, delete-last, lookup-view_of-Avoids, lookup-view_of, view_of-delete_element,
  view_of-delete, view_of-insert, view_of-take, view_of-cons, length-view_of_full,
}

module _ {ℓ} {V : Type ℓ} where
  unfoldable pub view : Lru V → List (FilePath × V)
  view c = view_of c.entries c.access_list

  view-Avoids :
      {c : Lru V} (p : FilePath) → IsLinked c → lookup p c.entries ≡ none → Avoids p c.access_list
  view-Avoids {c} p w h = Avoids-of p c.access_list w.elements (λ f. absent_element p f w h)

  -- In a linked cache the view, the pairs in order of use, shows for each path what the map holds
  -- for it.
  pub lookup-view : (p : FilePath) {c : Lru V} → IsLinked c → lookup p (view c) ≡ peek p c
  unfolding view peek
  lookup-view p {c} w = elim (Option-cases (lookup p c.entries)) [
    | inl h ↦ rw (h, peek) (lookup-view_of-Avoids p c.entries c.access_list (view-Avoids p w h))
    | inr (s, h) ↦
        let (e, elem, there) = w.forward p s h in
        rw (h, peek) (lookup-view_of e p c.entries c.access_list s there h)
  ]

  pub length-view : {c : Lru V} → IsLinked c → length (view c) ≡ length c.entries
  unfolding view
  length-view {c} w =
      length-view_of_full c.entries c.access_list w.elements
        (λ e p h. let (s, at_p, elem) = w.backward e p h in (s, at_p))
      ∙ w.balanced

  not_viewed :
      (p : FilePath) {c : Lru V} → IsLinked c → lookup p c.entries ≡ none → lookup p (view c) ≡ none
  unfolding view
  not_viewed p {c} w h = lookup-view_of-Avoids p c.entries c.access_list (view-Avoids p w h)

  delete-view :
      (e : ℕ) (p : FilePath) {c : Lru V}
      → IsLinked c
      → lookup e c.access_list ≡ some p
      → view_of c.entries (delete e c.access_list) ≡ delete p (view c)
  unfolding view
  delete-view e p {c} w there =
      view_of-delete_element e p c.entries c.access_list w.elements there
        (λ f k. same_element f e p w k there)

  Avoids-rest :
      (e : ℕ) (p : FilePath) {c : Lru V}
      → IsLinked c
      → lookup e c.access_list ≡ some p
      → Avoids p (delete e c.access_list)
  Avoids-rest e p {c} w there =
      Avoids-of p (delete e c.access_list) (delete-Distinct e c.access_list w.elements)
        (λ f k. gone f (rw (lookup-delete e f c.access_list) at k))
    where
      gone : (f : ℕ) → ¬ ((if e == f then none else lookup f c.access_list) ≡ some p)
      gone f k = ground (arith, nat_beq_iff e f, same_element f e p w)

  view-without_pair :
      (e : ℕ) (p : FilePath) {c : Lru V}
      → IsLinked c
      → lookup e c.access_list ≡ some p
      → view (without_pair p c e) ≡ delete p (view c)
  unfolding view
  view-without_pair e p {c} w there =
      view_of-delete p c.entries (delete e c.access_list) (Avoids-rest e p w there)
      ∙ delete-view e p w there

  view-moved :
      (e : ℕ) (p : FilePath) {c : Lru V} (s : Slot V)
      → IsLinked c
      → lookup e c.access_list ≡ some p
      → lookup p c.entries ≡ some s
      → view (moved p c e) ≡ insert p s.value (view c)
  unfolding view insert
  view-moved e p {c} s w there h =
      view_of-cons e p c.entries (delete e c.access_list) s h
      ∙ ap (λ t. (p, s.value) ∷ t) (delete-view e p w there)

  view-refreshed :
      (e : ℕ) (p : FilePath) (v : V) {c : Lru V}
      → IsLinked c
      → lookup e c.access_list ≡ some p
      → view (refreshed p c e v) ≡ insert p v (view c)
  unfolding view insert
  view-refreshed e p v {c} w there =
      let s : Slot V = record { value = v; list_element = some e } in
      let rest = delete e c.access_list in
      view_of-cons e p (insert p s c.entries) rest s (lookup-insert_self p s c.entries)
      ∙ ap (λ t. (p, v) ∷ t)
          (view_of-insert p s c.entries rest (Avoids-rest e p w there) ∙ delete-view e p w there)

  view-added :
      (p : FilePath) (v : V) {c : Lru V}
      → IsLinked c
      → lookup p c.entries ≡ none
      → view (added p c v) ≡ (p, v) ∷ view c
  unfolding view
  view-added p v {c} w h =
      let s : Slot V = record { value = v; list_element = some c.fresh } in
      view_of-cons c.fresh p (insert p s c.entries) c.access_list s
        (lookup-insert_self p s c.entries)
      ∙ ap (λ t. (p, v) ∷ t) (view_of-insert p s c.entries c.access_list (view-Avoids p w h))

  view-last :
      (n e : ℕ) (p : FilePath) {c : Lru V}
      → IsLinked c
      → length c.access_list ≡ suc n
      → last? c.access_list ≡ some (e, p)
      → view (without_pair p c e) ≡ take n (view c)
  unfolding view
  view-last n e p {c} w len h =
      let l = c.access_list in
      view_of-delete p c.entries (delete e l) (Avoids-rest e p w (lookup-last l w.elements h))
      ∙ ap (view_of c.entries) (delete-last n e p l w.elements len h)
      ∙ view_of-take n c.entries l (
          length-view_of_full c.entries l w.elements
            (λ f q k. let (s, at_q, elem) = w.backward f q k in (s, at_q)))

  -- An eviction drops the pair that was used the longest time ago.
  pub view-evict_back :
      {c : Lru V} → IsLinked c → view (evict_back c) ≡ take (length c.entries - 1) (view c)
  unfolding evict_back
  view-evict_back {c} w = elim (Option-cases (last? c.access_list)) [
    | inl h ↦
        rw (h, evict_back)
          (sym (
            take_of_length-le (length c.entries - 1) (view c)
              (omega (arith, w.balanced, length-view w, last?-none c.access_list h))))
    | inr ((e, p), h) ↦
        rw (h, evict_back)
          (view-last (length c.entries - 1) e p w
            (omega (arith, w.balanced, last?-pos c.access_list h)) h)
  ]

  view-room :
      (n : ℕ) (p : FilePath) {c : Lru V}
      → IsLinked c
      → length c.entries ≤ suc n
      → view (room p c (suc n)) ≡ take n (view c)
  view-room n p {c} w fits = elim (Bool-cases (leb (suc n) (length c.entries))) [
    | inl full ↦ rw full (view-evict_back w ∙ ap (λ (k : ℕ). take k (view c)) (ground arith))
    | inr free ↦ rw free (sym (take_of_length-le n (view c) (ground (arith, length-view w))))
  ]

  view-store_absent :
      (n : ℕ) (p : FilePath) (v : V) {c : Lru V}
      → IsLinked c
      → length c.entries ≤ suc n
      → lookup p c.entries ≡ none
      → view (store (suc n) p v c) ≡ take (suc n) (insert p v (view c))
  unfolding insert
  view-store_absent n p v {c} w fits absent = rw (store-added p c absent (suc n) v) (
      view-added p v (room-IsLinked p (suc n) w) (room_absent p (suc n) c absent)
      ∙ ap (λ t. (p, v) ∷ t)
          (view-room n p w fits
            ∙ ap (take n) (sym (delete_absent p (view c) (not_viewed p w absent)))))

  -- In a linked cache that holds at most `max` pairs, `max` not being 0, a store puts its pair
  -- first, without the pair that the path had, and keeps the `max` pairs that were used last.
  pub view-store :
      (max : ℕ) (p : FilePath) (v : V) {c : Lru V}
      → IsLinked c
      → 0 < max
      → length c.entries ≤ max
      → view (store max p v c) ≡ take max (insert p v (view c))
  view-store zero p v w pos fits = absurd (omega arith)
  view-store (suc n) p v {c} w pos fits = elim (Option-cases (lookup p c.entries)) [
    | inl absent ↦ view-store_absent n p v w fits absent
    | inr (s, h) ↦
        let (e, elem, there) = w.forward p s h in
        let same : view (store (suc n) p v c) ≡ insert p v (view c) =
          rw (store-refreshed p c s e h elem there (suc n) v) (view-refreshed e p v w there) in
        same
        ∙ sym (
            take_of_length-le (suc n) (insert p v (view c)) (
              rw (← same) (
                omega (
                  arith,
                  length-view (store-IsLinked (suc n) p v w),
                  length-store (suc n) p v w pos fits,
                ))))
  ]

  -- In a linked cache, to use a path brings its pair to the front, if it has one.
  pub view-update :
      (p : FilePath) {c : Lru V}
      → IsLinked c
      → view (update_access_log p c)
        ≡ elim (lookup p (view c)) [ none ↦ view c | some v ↦ insert p v (view c) ]
  unfolding peek
  view-update p {c} w = elim (Option-cases (lookup p c.entries)) [
    | inl absent ↦ rw (update_absent p c absent, not_viewed p w absent)
    | inr (s, h) ↦
        let (e, elem, there) = w.forward p s h in
        rw (update-moved p c s e h elem there, lookup-view p w, h, peek)
          (view-moved e p s w there h)
  ]

  -- In a linked cache a removal takes out the pair of its path and keeps the order of the others.
  pub view-remove : (p : FilePath) {c : Lru V} → IsLinked c → view (remove p c) ≡ delete p (view c)
  view-remove p {c} w = elim (Option-cases (lookup p c.entries)) [
    | inl absent ↦
        rw (remove_absent p c absent) (sym (delete_absent p (view c) (not_viewed p w absent)))
    | inr (s, h) ↦
        let (e, elem, there) = w.forward p s h in
        rw (remove-without_pair p c s e h elem there) (view-without_pair e p w there)
  ]

  view-evict_while :
      (fuel max : ℕ) {c : Lru V}
      → IsLinked c
      → length c.entries ≤ fuel
      → view (evict_while fuel max c) ≡ take max (view c)
  unfolding evict_while
  view-evict_while zero max {c} w h =
      sym (take_of_length-le max (view c) (omega (arith, length-view w)))
  view-evict_while (suc fuel) max {c} w h =
      elim (Bool-cases (ltb max (length c.entries) && ltb 0 (length c.access_list))) [
        | inl more ↦ rw more (
            view-evict_while fuel max (evict_back-IsLinked w) (omega (arith, length-evict_back w))
            ∙ ap (take max) (view-evict_back w)
            ∙ take-take max (length c.entries - 1) (view c) (ground arith))
        | inr done ↦
            rw done
              (sym (take_of_length-le max (view c) (ground (arith, length-view w, w.balanced))))
      ]

  -- In a linked cache the loop of Resize ends with the `max` pairs that were used last.
  pub view-shrink : (max : ℕ) {c : Lru V} → IsLinked c → view (shrink max c) ≡ take max (view c)
  unfolding shrink
  view-shrink max {c} w = view-evict_while (length c.access_list) max w (omega (arith, w.balanced))
