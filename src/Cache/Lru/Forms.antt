-- ===== src/Cache/Lru/Forms.antt =====
-- What the operations on the LRU map compute, once the case of the path is known.
use absnfs.Prelude.{
  ℕ, suc, ◌≡◌, none, some, ◌∷◌, length, bytes_eq, nat_eq, arith, if◌then◌else◌, leb,
}
use absnfs.Prelude.Assoc.{
  lookup, delete, insert, lookup-insert_self, insert-insert, delete-insert, delete_absent,
}
use absnfs.Cache.Lru.{
  FilePath, Slot, Lru, move_to_front, push_front, touch_slot, update_access_log, detach_slot,
  remove_from_access_log, remove, evict_back, make_room, store,
}

module _ {ℓ} {V : Type ℓ} (p : FilePath) (c : Lru V) where
  -- The entry of `p` and its element `e` are gone.
  abbrev pub without_pair : ℕ → Lru V
  without_pair e = record c { entries = delete p c.entries; access_list = delete e c.access_list }

  -- The element `e` of `p` is at the front.
  abbrev pub moved : ℕ → Lru V
  moved e = record c { access_list = insert e p c.access_list }

  -- So it is, and the entry has a new value.
  abbrev pub refreshed : ℕ → V → Lru V
  refreshed e v = record c {
    entries = insert p (record { value = v; list_element = some e }) c.entries;
    access_list = insert e p c.access_list;
  }

  -- `p` came in with a fresh element.
  abbrev pub added : V → Lru V
  added v = record c {
    entries = insert p (record { value = v; list_element = some c.fresh }) c.entries;
    access_list = (c.fresh, p) ∷ c.access_list;
    fresh = suc c.fresh;
  }

  update_inserted :
      (slot : Slot V)
      → update_access_log p (record c { entries = insert p slot c.entries })
        ≡ touch_slot p slot (record c { entries = insert p slot c.entries })
  unfolding update_access_log
  update_inserted slot = rw (lookup-insert_self p slot c.entries, update_access_log)

  -- The path of a full map's last element goes, if `p` is new.
  abbrev pub room : ℕ → Lru V
  room max = if leb max (length c.entries) then evict_back c else c

  module _ (s : Slot V) (e : ℕ) (at_p : lookup p c.entries ≡ some s)
      (elem : s.list_element ≡ some e) (there : lookup e c.access_list ≡ some p) where
    pub update-moved : update_access_log p c ≡ moved e
    unfolding update_access_log
    update-moved = rw (at_p, update_access_log, elem, touch_slot, there, move_to_front)

    pub remove-without_pair : remove p c ≡ without_pair e
    unfolding remove
    remove-without_pair = rw (at_p, remove_from_access_log, elem, detach_slot, delete-insert)

    pub make_room_present : (max : ℕ) → make_room max p c ≡ c
    unfolding make_room
    make_room_present max = ground arith

    pub store-refreshed : (max : ℕ) (v : V) → store max p v c ≡ refreshed e v
    unfolding store
    store-refreshed max v =
        rw (make_room_present max, at_p, elem, update_inserted, touch_slot, there, move_to_front)

  module _ (absent : lookup p c.entries ≡ none) where
    pub remove_absent : remove p c ≡ c
    unfolding remove
    remove_absent = rw (absent, remove_from_access_log, delete_absent p c.entries absent)

    pub update_absent : update_access_log p c ≡ c
    unfolding update_access_log
    update_absent = rw (absent, update_access_log)

    make_room_absent : (max : ℕ) → make_room max p c ≡ room max
    unfolding make_room
    make_room_absent max = ground arith

module _ {ℓ} {V : Type ℓ} (p : FilePath) (c : Lru V) where
  pub store-added :
      lookup p c.entries ≡ none → (max : ℕ) (v : V) → store max p v c ≡ added p (room p c max) v
  unfolding store
  store-added absent max v = rw (
    make_room_absent p c absent max,
    absent,
    update_inserted,
    touch_slot,
    push_front,
    insert-insert,
  )
