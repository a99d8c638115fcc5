-- ===== src/FileHandle.antt =====
-- filehandle.go and FileHandleMap of types.go: the numbers that clients hold for files. Each method
-- holds the lock from its first line to its last, so it is one step. What `absfs.File` holds beside
-- a node's path is a parameter `F`.
pub mod Bind
pub mod Evict
pub mod Valid
pub mod Alloc
pub mod Laws
pub mod Reach
pub mod SelfEviction
pub mod Tests
use absnfs.Prelude.{
  ◌⊎◌, inl, inr, ℕ, zero, suc, ◌+◌, ◌-◌, ◌/◌, ◌%◌, ◌^◌, Bool, true, false, Option, none, some, List,
  [], ◌∷◌, length, ltb, if◌then◌else◌, bytes_eq, nat_eq,
}
use absnfs.Prelude.Int.{ℤ, pos, negsuc}
use absnfs.Prelude.Assoc.{lookup, delete, insert}
use absnfs.MinHeap.{pop_min, push_value}

-- An `absfs.File`: an *NFSNode with its path, or a file of another type.
pub data File {ℓ} (F : Type ℓ) : Type ℓ where
  node : List ℕ → F → File F
  other : F → File F

-- `closed` lists the files that `Close` was called on, the last one first. It is no field of the
-- source, but an effect of its methods.
pub record FileHandleMap {ℓ} (F : Type ℓ) : Type ℓ where
  pub handles : List (ℕ × File F)
  pub path_handles : List (List ℕ × ℕ)
  pub next_handle : ℕ
  pub free_handles : List ℕ
  pub max_handles : ℤ
  pub closed : List (File F)

abbrev pub default_max_handles : ℕ
default_max_handles = 100000

-- `uint64(math.MaxUint64)`.
abbrev pub max_uint64 : ℕ
max_uint64 = 2 ^ 64 - 1

-- `maxH`, once it is not zero or negative.
abbrev pub limit_of : ℤ → ℕ
limit_of (pos zero) = default_max_handles
limit_of (pos (suc n)) = suc n
limit_of (negsuc n) = default_max_handles

-- The number of handles that one eviction removes.
abbrev pub evict_count : ℕ → ℕ
evict_count max = if ltb (max / 10) 1 then 1 else max / 10

abbrev pub record_path : Option (List ℕ) → ℕ → List (List ℕ × ℕ) → List (List ℕ × ℕ)
record_path none h m = m
record_path (some p) h m = insert p h m

module _ {ℓ} {F : Type ℓ} where
  unfoldable pub new_map : ℤ → FileHandleMap F
  new_map max = record {
    handles = [];
    path_handles = [];
    next_handle = 1;
    free_handles = [];
    max_handles = max;
    closed = [];
  }

  -- The path by which a file is found again: that of a node, unless it is empty.
  abbrev pub path_of : File F → Option (List ℕ)
  path_of (node [] x) = none
  path_of (node (b ∷ p) x) = some (b ∷ p)
  path_of (other x) = none

  abbrev pub existing_handle : Option (List ℕ) → FileHandleMap F → Option ℕ
  existing_handle none fm = none
  existing_handle (some p) fm = lookup p fm.path_handles

  -- `delete(fm.pathHandles, node.path)`, for a node.
  abbrev pub forget_path : File F → List (List ℕ × ℕ) → List (List ℕ × ℕ)
  forget_path (node p x) m = delete p m
  forget_path (other x) m = m

  -- The body of `Release`, and of the eviction, for a handle that is live.
  unfoldable pub drop_handle : ℕ → File F → FileHandleMap F → FileHandleMap F
  drop_handle h f fm = record fm {
    handles = delete h fm.handles;
    path_handles = forget_path f fm.path_handles;
    free_handles = push_value h fm.free_handles;
    closed = f ∷ fm.closed;
  }

  -- A freed number, the least first, or else the next one.
  unfoldable pub take_handle : FileHandleMap F → ℕ × FileHandleMap F
  take_handle fm = elim (pop_min fm.free_handles) [
    | some (h, rest) ↦ (h, record fm { free_handles = rest })
    | none ↦ (fm.next_handle, record fm { next_handle = (fm.next_handle + 1) % 2 ^ 64 })
  ]

  -- The least live handle; the search starts from `m`.
  unfoldable pub min_handle : ℕ → List (ℕ × File F) → ℕ
  min_handle m [] = m
  min_handle m ((h, f) ∷ l) = min_handle (if ltb h m then h else m) l

  -- The loop that evicts from `h` on. `none` means that the fuel ran out.
  unfoldable pub evict_loop : ℕ → ℕ → ℕ → FileHandleMap F → Option (FileHandleMap F)
  unfolding drop_handle
  evict_loop fuel zero h fm = some fm
  evict_loop zero (suc count) h fm = none
  evict_loop (suc fuel) (suc count) h fm = elim (lookup h fm.handles) [
    | none ↦ evict_loop fuel (suc count) ((h + 1) % 2 ^ 64) fm
    | some f ↦ evict_loop fuel count ((h + 1) % 2 ^ 64) (drop_handle h f fm)
  ]

  -- Live handles lie below `nextHandle`, so the loop ends within that many rounds.
  unfoldable pub evict : FileHandleMap F → Option (FileHandleMap F)
  unfolding evict_loop min_handle
  evict fm =
      let max = limit_of fm.max_handles in
      if ltb max (length fm.handles)
      then evict_loop fm.next_handle (evict_count max) (min_handle max_uint64 fm.handles) fm
      else some fm

  -- The map once a new handle stands for the file.
  unfoldable pub bind_handle : ℕ → File F → FileHandleMap F → FileHandleMap F
  bind_handle h f fm = record fm {
    handles = insert h f fm.handles;
    path_handles = record_path (path_of f) h fm.path_handles;
  }

  unfoldable pub allocate_new : File F → FileHandleMap F → Option (ℕ × FileHandleMap F)
  unfolding take_handle bind_handle evict
  allocate_new f fm =
      let taken = take_handle fm in
      elim (evict (bind_handle taken.0 f taken.1)) [ none ↦ none | some fm' ↦ some (taken.0, fm') ]

  unfoldable pub allocate : File F → FileHandleMap F → Option (ℕ × FileHandleMap F)
  unfolding allocate_new
  allocate f fm = elim (existing_handle (path_of f) fm) [
    | some h ↦ some (h, record fm { handles = insert h f fm.handles })
    | none ↦ allocate_new f fm
  ]

  unfoldable pub get : ℕ → FileHandleMap F → Option (File F)
  get h fm = lookup h fm.handles

  -- The error names the handle.
  unfoldable pub get_or_error : ℕ → FileHandleMap F → ℕ ⊎ File F
  get_or_error h fm = elim (lookup h fm.handles) [ none ↦ inl h | some f ↦ inr f ]

  unfoldable pub release : ℕ → FileHandleMap F → FileHandleMap F
  unfolding drop_handle
  release h fm = elim (lookup h fm.handles) [ none ↦ fm | some f ↦ drop_handle h f fm ]

  abbrev pub close_all : List (ℕ × File F) → List (File F) → List (File F)
  close_all [] closed = closed
  close_all ((h, f) ∷ l) closed = close_all l (f ∷ closed)

  unfoldable pub release_all : FileHandleMap F → FileHandleMap F
  release_all fm = record fm {
    handles = [];
    path_handles = [];
    free_handles = [];
    closed = close_all fm.handles fm.closed;
  }

  unfoldable pub count : FileHandleMap F → ℕ
  count fm = length fm.handles
