-- ===== src/FileHandle/Valid.antt =====
-- The invariant of the file handle map.
use absnfs.Prelude.{ℕ, ◌+◌, ◌≤◌, ◌<◌, ◌≡◌, true, none, some, List, length, bytes_eq, nat_eq, arith}
use absnfs.Prelude.Int.{ℤ}
use absnfs.Prelude.Assoc.{lookup, Distinct}
use absnfs.MinHeap.{contains, NoRepeat}
use absnfs.FileHandle.{File, FileHandleMap, limit_of, path_of, new_map, release_all}

-- All but the bound on the number of handles, which `Allocate` breaks and mends.
pub record IsSound {ℓ} {F : Type ℓ} (fm : FileHandleMap F) : Type ℓ where
  pub keys : Distinct fm.handles
  pub path_keys : Distinct fm.path_handles
  -- Live and freed numbers have been handed out, and none is both.
  pub live_below : (h : ℕ) (f : File F) → lookup h fm.handles ≡ some f → h < fm.next_handle
  pub free_below : (h : ℕ) → contains h fm.free_handles ≡ true → h < fm.next_handle
  pub free_once : NoRepeat fm.free_handles
  pub free_dead : (h : ℕ) → contains h fm.free_handles ≡ true → lookup h fm.handles ≡ none
  -- The reverse map holds the paths of the live nodes, and nothing else.
  pub forward :
      (p : List ℕ) (h : ℕ)
      → lookup p fm.path_handles ≡ some h
      → (f : File F) × (lookup h fm.handles ≡ some f) × (path_of f ≡ some p)
  pub backward :
      (h : ℕ) (f : File F) (p : List ℕ)
      → lookup h fm.handles ≡ some f
      → path_of f ≡ some p
      → lookup p fm.path_handles ≡ some h

pub record IsValid {ℓ} {F : Type ℓ} (fm : FileHandleMap F) : Type ℓ where
  pub sound : IsSound fm
  pub bounded : length fm.handles ≤ limit_of fm.max_handles

-- The counter is accounted for: all but `slack` of the numbers below it are live or free, and it has
-- not gone beyond what one number for each handle needs.
pub record IsCounted {ℓ} {F : Type ℓ} (slack : ℕ) (fm : FileHandleMap F) : Type ℓ where
  pub total : fm.next_handle ≤ length fm.handles + length fm.free_handles + slack
  pub low : fm.next_handle ≤ limit_of fm.max_handles + slack + 1

module _ {ℓ} {F : Type ℓ} where
  pub new_map-IsValid : (max : ℤ) → IsValid (new_map {F = F} max)
  unfolding new_map
  new_map-IsValid max = record {
    sound = record {
      keys = tt;
      path_keys = tt;
      live_below = λ h f e. cc;
      free_below = λ h e. cc;
      free_once = tt;
      free_dead = λ h e. cc;
      forward = λ p h e. cc;
      backward = λ h f p e k. cc;
    };
    bounded = omega arith;
  }

  pub release_all-IsValid : (fm : FileHandleMap F) → IsValid (release_all fm)
  unfolding release_all
  release_all-IsValid fm = record {
    sound = record {
      keys = tt;
      path_keys = tt;
      live_below = λ h f e. cc;
      free_below = λ h e. cc;
      free_once = tt;
      free_dead = λ h e. cc;
      forward = λ p h e. cc;
      backward = λ h f p e k. cc;
    };
    bounded = omega arith;
  }
