-- ===== src/Cache/Lru/Inv.antt =====
-- The invariant of the LRU map: the map and the list are in bijection.
use absnfs.Prelude.{
  ℕ, zero, suc, ◌<◌, ◌≡◌, ◌≢◌, refl, none, some, length, leb, ltb, ◌&&◌, Bool-cases, ap, bytes_eq,
  arith, ◌==◌, list_beq_iff, nat_eq, Option-cases, inl, inr, last?,
}
use absnfs.Prelude.Assoc.{
  lookup, delete, insert, Distinct, lookup-delete, lookup-insert, delete-Distinct, insert-Distinct,
  length-delete, length-insert, lookup-last, delete_absent,
}
use absnfs.Cache.Lru.Forms.{
  moved, added, room, update_absent, update-moved, remove_absent, remove-without_pair, store-added,
  store-refreshed,
}
use absnfs.Cache.Lru.{
  FilePath, Slot, Lru, empty, update_access_log, remove, evict_back, store, evict_while, shrink,
}

pub record IsLinked {ℓ} {V : Type ℓ} (c : Lru V) : Type ℓ where
  pub keys : Distinct c.entries
  pub elements : Distinct c.access_list
  pub forward :
      (p : FilePath) (s : Slot V)
      → lookup p c.entries ≡ some s
      → (e : ℕ) × (s.list_element ≡ some e) × (lookup e c.access_list ≡ some p)
  pub backward :
      (e : ℕ) (p : FilePath)
      → lookup e c.access_list ≡ some p
      → (s : Slot V) × (lookup p c.entries ≡ some s) × (s.list_element ≡ some e)
  pub below : (e : ℕ) (p : FilePath) → lookup e c.access_list ≡ some p → e < c.fresh
  pub balanced : length c.access_list ≡ length c.entries

module _ {ℓ} {V : Type ℓ} where
  pub empty-IsLinked : (n : ℕ) → IsLinked (empty {V = V} n)
  unfolding empty
  empty-IsLinked n = record {
    keys = tt;
    elements = tt;
    forward = λ p s h. cc;
    backward = λ e p h. cc;
    below = λ e p h. cc;
    balanced = refl;
  }

  -- Deleting an element and its path keeps the bijection.
  pub drop_pair-IsLinked :
      {c : Lru V} (e : ℕ) (p : FilePath)
      → IsLinked c
      → lookup e c.access_list ≡ some p
      → IsLinked (record c { entries = delete p c.entries; access_list = delete e c.access_list })
  drop_pair-IsLinked {c} e p w h =
      let (s, at_p, elem) = w.backward e p h in
      record {
        keys = delete-Distinct p c.entries w.keys;
        elements = delete-Distinct e c.access_list w.elements;
        forward = λ q r k.
            let (f, fe, fq) = w.forward q r (ground (arith, lookup-delete p q c.entries)) in
            (
              f,
              fe,
              ground (
                arith,
                lookup-delete e f c.access_list,
                lookup-delete p q c.entries,
                list_beq_iff p q,
              ),
            );
        backward = λ f q k.
            let (r, rq, re) = w.backward f q (ground (arith, lookup-delete e f c.access_list)) in
            (
              r,
              ground (
                arith,
                lookup-delete e f c.access_list,
                lookup-delete p q c.entries,
                list_beq_iff p q,
              ),
              re,
            );
        below = λ f q k. w.below f q (ground (arith, lookup-delete e f c.access_list));
        balanced = omega (
          arith,
          length-delete p c.entries w.keys at_p,
          length-delete e c.access_list w.elements h,
          w.balanced,
        );
      }

  pub evict_back-IsLinked : {c : Lru V} → IsLinked c → IsLinked (evict_back c)
  unfolding evict_back
  evict_back-IsLinked {c} w = elim (Option-cases (last? c.access_list)) [
    | inl e ↦ rw (e, evict_back) w
    | inr ((e, p), q) ↦
        rw (q, evict_back) (drop_pair-IsLinked e p w (lookup-last c.access_list w.elements q))
  ]

  -- One path has one element.
  pub same_element :
      {c : Lru V} (e f : ℕ) (p : FilePath)
      → IsLinked c
      → lookup e c.access_list ≡ some p
      → lookup f c.access_list ≡ some p
      → e ≡ f
  same_element e f p w h k =
      let (s, sp, se) = w.backward e p h in let (r, rp, re) = w.backward f p k in ground arith

  -- No element has the next identity.
  pub fresh_absent : {c : Lru V} → IsLinked c → lookup c.fresh c.access_list ≡ none
  fresh_absent {c} w = elim (Option-cases (lookup c.fresh c.access_list)) [
    | inl h ↦ h
    | inr (p, h) ↦ absurd (omega (arith, w.below c.fresh p h))
  ]

  pub moved-IsLinked :
      {c : Lru V} (e : ℕ) (p : FilePath)
      → IsLinked c
      → lookup e c.access_list ≡ some p
      → IsLinked (moved p c e)
  moved-IsLinked {c} e p w there = record {
    keys = w.keys;
    elements = insert-Distinct e p c.access_list w.elements;
    forward = λ q r k.
        let (f, fe, fq) = w.forward q r k in
        (f, fe, ground (arith, lookup-insert e f p c.access_list));
    backward = λ f q k. w.backward f q (ground (arith, lookup-insert e f p c.access_list));
    below = λ f q k. w.below f q (ground (arith, lookup-insert e f p c.access_list));
    balanced = omega (arith, length-insert e p c.access_list w.elements there, w.balanced);
  }

  -- A new value at a path, with the element that it had.
  pub revalue-IsLinked :
      {c : Lru V} (e : ℕ) (p : FilePath) (v : V)
      → IsLinked c
      → lookup e c.access_list ≡ some p
      → IsLinked
          (record c { entries = insert p (record { value = v; list_element = some e }) c.entries })
  revalue-IsLinked {c} e p v w there =
      let slot : Slot V = record { value = v; list_element = some e } in
      let (s, at_p, elem) = w.backward e p there in
      record {
        keys = insert-Distinct p slot c.entries w.keys;
        elements = w.elements;
        forward = λ q r k. elim (Bool-cases (p == q)) [
          | inl same ↦ (
            e,
            ground (arith, lookup-insert p q slot c.entries),
            ground (arith, list_beq_iff p q),
          )
          | inr other ↦ w.forward q r (ground (arith, lookup-insert p q slot c.entries))
        ];
        backward = λ f q k. elim (Bool-cases (p == q)) [
          | inl same ↦ (
            slot,
            ground (arith, lookup-insert p q slot c.entries),
            ap some (same_element e f q w (ground (arith, list_beq_iff p q)) k),
          )
          | inr other ↦
              let (r, rq, re) = w.backward f q k in
              (r, ground (arith, lookup-insert p q slot c.entries), re)
        ];
        below = w.below;
        balanced = omega (arith, length-insert p slot c.entries w.keys at_p, w.balanced);
      }

  pub absent_element :
      {c : Lru V} (p : FilePath) (f : ℕ)
      → IsLinked c
      → lookup p c.entries ≡ none
      → lookup f c.access_list ≢ some p
  absent_element p f w absent h = let (s, sp, se) = w.backward f p h in cc

  pub added-IsLinked :
      {c : Lru V} (p : FilePath) (v : V)
      → IsLinked c
      → lookup p c.entries ≡ none
      → IsLinked (added p c v)
  unfolding insert
  added-IsLinked {c} p v w absent =
      let slot : Slot V = record { value = v; list_element = some c.fresh } in
      record {
        keys = insert-Distinct p slot c.entries w.keys;
        elements = (fresh_absent w, w.elements);
        forward = λ q r k. elim (Bool-cases (p == q)) [
          | inl same ↦ (
            c.fresh,
            ground (arith, lookup-insert p q slot c.entries),
            ground (arith, list_beq_iff p q),
          )
          | inr other ↦
              let (f, fe, fq) = w.forward q r (ground (arith, lookup-insert p q slot c.entries)) in
              (f, fe, ground (arith, w.below f q fq))
        ];
        backward = λ f q k. elim (Bool-cases (p == q)) [
          | inl same ↦ (
            slot,
            ground (arith, lookup-insert p q slot c.entries),
            ground (arith, list_beq_iff p q, absent_element p f w absent),
          )
          | inr other ↦
              let (r, rq, re) = w.backward f q (ground (arith, list_beq_iff p q)) in
              (r, ground (arith, lookup-insert p q slot c.entries), re)
        ];
        below = λ f q k. ground (arith, w.below f q);
        balanced = omega (arith, ap length (delete_absent p c.entries absent), w.balanced);
      }

  pub room-IsLinked : (p : FilePath) (max : ℕ) {c : Lru V} → IsLinked c → IsLinked (room p c max)
  room-IsLinked p max {c} w = elim (Bool-cases (leb max (length c.entries))) [
    | inl full ↦ rw full (evict_back-IsLinked w)
    | inr free ↦ rw free w
  ]

  -- Evicting removes entries and adds none.
  pub room_absent :
      (p : FilePath) (max : ℕ) (c : Lru V)
      → lookup p c.entries ≡ none
      → lookup p (room p c max).entries ≡ none
  unfolding evict_back
  room_absent p max c h = elim (Option-cases (last? c.access_list)) [
    | inl e ↦ ground arith
    | inr ((e, q), k) ↦ ground (arith, lookup-delete q p c.entries)
  ]

  pub update_access_log-IsLinked :
      (p : FilePath) {c : Lru V} → IsLinked c → IsLinked (update_access_log p c)
  update_access_log-IsLinked p {c} w = elim (Option-cases (lookup p c.entries)) [
    | inl absent ↦ rw (update_absent p c absent) w
    | inr (s, at_p) ↦
        let (e, elem, there) = w.forward p s at_p in
        rw (update-moved p c s e at_p elem there) (moved-IsLinked e p w there)
  ]

  pub remove-IsLinked : (p : FilePath) {c : Lru V} → IsLinked c → IsLinked (remove p c)
  remove-IsLinked p {c} w = elim (Option-cases (lookup p c.entries)) [
    | inl absent ↦ rw (remove_absent p c absent) w
    | inr (s, at_p) ↦
        let (e, elem, there) = w.forward p s at_p in
        rw (remove-without_pair p c s e at_p elem there) (drop_pair-IsLinked e p w there)
  ]

  pub store-IsLinked :
      (max : ℕ) (p : FilePath) (v : V) {c : Lru V} → IsLinked c → IsLinked (store max p v c)
  store-IsLinked max p v {c} w = elim (Option-cases (lookup p c.entries)) [
    | inl absent ↦
        rw (store-added p c absent max v)
          (added-IsLinked p v (room-IsLinked p max w) (room_absent p max c absent))
    | inr (s, at_p) ↦
        let (e, elem, there) = w.forward p s at_p in
        rw (store-refreshed p c s e at_p elem there max v)
          (moved-IsLinked e p (revalue-IsLinked e p v w there) there)
  ]

  pub evict_while-IsLinked :
      (fuel max : ℕ) {c : Lru V} → IsLinked c → IsLinked (evict_while fuel max c)
  unfolding evict_while
  evict_while-IsLinked zero max w = w
  evict_while-IsLinked (suc fuel) max {c} w =
      elim (Bool-cases (ltb max (length c.entries) && ltb 0 (length c.access_list))) [
        | inl more ↦ rw more (evict_while-IsLinked fuel max (evict_back-IsLinked w))
        | inr done ↦ rw done w
      ]

  pub shrink-IsLinked : (max : ℕ) {c : Lru V} → IsLinked c → IsLinked (shrink max c)
  unfolding shrink
  shrink-IsLinked max {c} w = evict_while-IsLinked (length c.access_list) max w
