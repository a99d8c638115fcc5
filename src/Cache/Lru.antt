-- ===== src/Cache/Lru.antt =====
-- The map and the access list that both caches of cache.go keep, with the operations on them that
-- the two types repeat. A list element has an identity, as the pointer `*list.Element` has, and an
-- entry of the map holds the identity of its element.
mod Forms
pub mod Inv
pub mod Bounds
pub mod View
pub mod Peek
mod Tests
use absnfs.Prelude.{
  ℕ, zero, suc, Bool, true, false, ◌&&◌, not, Option, none, some, List, [], ◌∷◌, ltb, leb, length,
  last?, if◌then◌else◌, bytes_eq, nat_eq,
}
use absnfs.Prelude.Assoc.{lookup, delete, insert}

-- A path, as bytes.
abbrev pub FilePath : Type 0
FilePath = List ℕ

-- An entry of the map: what is cached, and `listElement`.
pub record Slot {ℓ} (V : Type ℓ) : Type ℓ where
  pub value : V
  pub list_element : Option ℕ

-- The front of `access_list` is the most recently used path. `fresh` is an identity that no
-- element has had.
pub record Lru {ℓ} (V : Type ℓ) : Type ℓ where
  pub entries : List (FilePath × Slot V)
  pub access_list : List (ℕ × FilePath)
  pub fresh : ℕ

-- `list.MoveToFront(e)`, which does nothing to an element of another list.
unfoldable pub move_to_front : ℕ → List (ℕ × FilePath) → List (ℕ × FilePath)
move_to_front e l = elim (lookup e l) [ none ↦ l | some p ↦ insert e p l ]

module _ {ℓ} {V : Type ℓ} where
  unfoldable pub empty : ℕ → Lru V
  empty n = record { entries = []; access_list = []; fresh = n }

  -- `accessList.PushFront(path)`, whose element the entry keeps.
  unfoldable pub push_front : FilePath → Slot V → Lru V → Lru V
  push_front path s c = record c {
    entries = insert path (record s { list_element = some c.fresh }) c.entries;
    access_list = (c.fresh, path) ∷ c.access_list;
    fresh = suc c.fresh;
  }

  -- The entry at `path` becomes the most recently used one.
  unfoldable pub touch_slot : FilePath → Slot V → Lru V → Lru V
  unfolding move_to_front push_front
  touch_slot path s c = elim s.list_element [
    | some e ↦ record c { access_list = move_to_front e c.access_list }
    | none ↦ push_front path s c
  ]

  unfoldable pub update_access_log : FilePath → Lru V → Lru V
  unfolding touch_slot
  update_access_log path c = elim (lookup path c.entries) [
    | none ↦ c
    | some s ↦ touch_slot path s c
  ]

  unfoldable pub detach_slot : FilePath → Slot V → Lru V → Lru V
  detach_slot path s c = elim s.list_element [
    | none ↦ c
    | some e ↦ record c {
      entries = insert path (record s { list_element = none }) c.entries;
      access_list = delete e c.access_list;
    }
  ]

  unfoldable pub remove_from_access_log : FilePath → Lru V → Lru V
  unfolding detach_slot
  remove_from_access_log path c = elim (lookup path c.entries) [
    | none ↦ c
    | some s ↦ detach_slot path s c
  ]

  -- `removeFromAccessLog(path)` and then `delete(cache, path)`.
  unfoldable pub remove : FilePath → Lru V → Lru V
  unfolding remove_from_access_log
  remove path c =
      let c' = remove_from_access_log path c in record c' { entries = delete path c'.entries }

  -- The entry of the list's last element goes, and the element with it.
  unfoldable pub evict_back : Lru V → Lru V
  evict_back c = elim (last? c.access_list) [
    | none ↦ c
    | some (e, p) ↦ record c { entries = delete p c.entries; access_list = delete e c.access_list }
  ]

  abbrev pub is_present : Option (Slot V) → Bool
  is_present none = false
  is_present (some s) = true

  -- Makes room for a path that is not in a full map.
  unfoldable pub make_room : ℕ → FilePath → Lru V → Lru V
  unfolding evict_back
  make_room max path c =
      if leb max (length c.entries) && not (is_present (lookup path c.entries))
      then evict_back c
      else c

  abbrev pub existing_element : Option (Slot V) → Option ℕ
  existing_element none = none
  existing_element (some s) = s.list_element

  -- `Put`: an entry that is there keeps its element.
  unfoldable pub store : ℕ → FilePath → V → Lru V → Lru V
  unfolding make_room update_access_log
  store max path value c =
      let c' = make_room max path c in
      let slot : Slot V = record {
        value = value;
        list_element = existing_element (lookup path c.entries);
      } in
      update_access_log path (record c' { entries = insert path slot c'.entries })

  -- The loop of `Resize`. A round that evicts takes one element off the list, so the length of the
  -- list is fuel enough.
  unfoldable pub evict_while : ℕ → ℕ → Lru V → Lru V
  unfolding evict_back
  evict_while zero max c = c
  evict_while (suc fuel) max c =
      let rest = evict_while fuel max (evict_back c) in
      if ltb max (length c.entries) && ltb 0 (length c.access_list) then rest else c

  unfoldable pub shrink : ℕ → Lru V → Lru V
  unfolding evict_while
  shrink max c = evict_while (length c.access_list) max c

  -- What the cache holds for a path.
  unfoldable pub peek : FilePath → Lru V → Option V
  peek path c = elim (lookup path c.entries) [ none ↦ none | some s ↦ some s.value ]
