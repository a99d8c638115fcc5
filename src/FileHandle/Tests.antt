-- ===== src/FileHandle/Tests.antt =====
-- A map of two handles, on which the theorems on handles are tried.
use absnfs.Prelude.{
  ℕ, ◌+◌, ◌^◌, ◌<◌, ◌≤◌, ◌≡◌, refl, Option, none, some, [], ◌∷◌, nat_beq, if◌then◌else◌, bytes_eq,
  nat_eq, arith,
}
use absnfs.Prelude.Int.{pos}
use absnfs.Prelude.Assoc.{insert, delete}
use absnfs.MinHeap.{pop_min, push_value, least, remove_value}
use absnfs.FileHandle.{
  File, node, FileHandleMap, limit_of, new_map, path_of, existing_handle, allocate, get,
  take_handle, count, evict,
}
use absnfs.FileHandle.Valid.{IsValid}
use absnfs.FileHandle.Laws.{allocate_total, allocate_room}
use absnfs.FileHandle.Reach.{Reach, start, allocated, FileHandleMap-IsValid}
use absnfs.FileHandle.SelfEviction.{allocate_evicts_result}

abbrev file_a : File ℕ
file_a = node (b'/' ∷ b'a' ∷ []) 10

abbrev file_b : File ℕ
file_b = node (b'/' ∷ b'b' ∷ []) 20

abbrev file_c : File ℕ
file_c = node (b'/' ∷ b'c' ∷ []) 30

abbrev file_d : File ℕ
file_d = node (b'/' ∷ b'd' ∷ []) 40

abbrev fresh_map : FileHandleMap ℕ
fresh_map = new_map (pos 2)

abbrev map_of : Option (ℕ × FileHandleMap ℕ) → FileHandleMap ℕ
map_of none = fresh_map
map_of (some (h, fm)) = fm

abbrev one : FileHandleMap ℕ
one = map_of (allocate file_a fresh_map)

abbrev two : FileHandleMap ℕ
two = map_of (allocate file_b one)

-- The third file takes the place of the first.
abbrev full : FileHandleMap ℕ
full = map_of (allocate file_c two)

Reach-one : Reach (pos 2) 1 one
unfolding allocate new_map take_handle insert delete pop_min evict
Reach-one = allocated file_a 1 start refl

Reach-two : Reach (pos 2) 2 two
unfolding allocate new_map take_handle insert delete pop_min evict
Reach-two = allocated file_b 2 Reach-one refl

Reach-full : Reach (pos 2) 3 full
unfolding allocate new_map take_handle insert delete pop_min evict
Reach-full = allocated file_c 3 Reach-two refl

FileHandleMap-IsValid_example : IsValid full × (full.next_handle ≤ 3 + 1)
FileHandleMap-IsValid_example = FileHandleMap-IsValid Reach-full (omega arith)

one-IsValid : IsValid one
one-IsValid = (FileHandleMap-IsValid Reach-one (omega arith)).0

two-IsValid : IsValid two
two-IsValid = (FileHandleMap-IsValid Reach-two (omega arith)).0

full-IsValid : IsValid full
full-IsValid = (FileHandleMap-IsValid Reach-full (omega arith)).0

one_small : one.next_handle + 1 < 2 ^ 64
one_small = omega (arith, (FileHandleMap-IsValid Reach-one (omega arith)).1)

two_small : two.next_handle + 1 < 2 ^ 64
two_small = omega (arith, (FileHandleMap-IsValid Reach-two (omega arith)).1)

full_small : full.next_handle + 1 < 2 ^ 64
full_small = omega (arith, (FileHandleMap-IsValid Reach-full (omega arith)).1)

has_a : existing_handle (path_of file_a) one ≡ some 1
unfolding allocate new_map take_handle insert delete pop_min evict
has_a = refl

b_is_new : existing_handle (path_of file_b) one ≡ none
unfolding allocate new_map take_handle insert delete pop_min evict
b_is_new = refl

d_is_new : existing_handle (path_of file_d) full ≡ none
unfolding allocate new_map take_handle insert delete pop_min evict
d_is_new = refl

one_of_two : count one < limit_of one.max_handles
unfolding count allocate new_map take_handle insert delete pop_min evict
one_of_two = omega arith

is_full : count full ≡ limit_of full.max_handles
unfolding count allocate new_map take_handle insert delete pop_min evict
is_full = refl

all_above : (k : ℕ) (g : File ℕ) → get k full ≡ some g → (take_handle full).0 < k
unfolding get allocate new_map take_handle insert delete pop_min evict push_value least remove_value
all_above k g e = ground (arith, e)

allocate_total_example :
    (h : ℕ) × (fm' : FileHandleMap ℕ) × (allocate file_c two ≡ some (h, fm'))
    × IsValid fm'
    × (fm'.next_handle ≤ two.next_handle + 1)
allocate_total_example = allocate_total file_c two-IsValid two_small

allocate_room_example :
    (h : ℕ) × (fm' : FileHandleMap ℕ) × (allocate file_b one ≡ some (h, fm'))
    × (get h one ≡ none)
    × ((k : ℕ) → get k fm' ≡ (if nat_beq h k then some file_b else get k one))
allocate_room_example = allocate_room file_b one-IsValid one_small b_is_new one_of_two

allocate_evicts_result_example :
    (fm' : FileHandleMap ℕ) × (allocate file_d full ≡ some ((take_handle full).0, fm'))
    × (get (take_handle full).0 fm' ≡ none)
allocate_evicts_result_example =
    allocate_evicts_result file_d full-IsValid full_small d_is_new is_full all_above
