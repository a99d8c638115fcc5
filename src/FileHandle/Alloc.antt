-- ===== src/FileHandle/Alloc.antt =====
-- The parts of `Allocate`: the eviction ends and mends the bound, and the new handle is in.
use absnfs.Prelude.{
  ℕ, zero, ◌+◌, ◌^◌, ◌≤◌, ◌<◌, ◌≡◌, refl, true, Option, none, some, List, length, bytes_eq, nat_eq,
  arith, inl, inr, ltb, Bool-cases, ap, ◌∙◌, false,
}
use absnfs.Prelude.Int.{ℤ, pos}
use absnfs.Prelude.Assoc.{lookup, insert, delete_absent}
use absnfs.FileHandle.{
  File, FileHandleMap, limit_of, evict_count, max_uint64, path_of, existing_handle, take_handle,
  bind_handle, min_handle, evict, allocate_new, allocate,
}
use absnfs.FileHandle.Valid.{IsSound, IsValid, IsCounted}
use absnfs.FileHandle.Evict.{live_from, live_from_min, evict_loop_ends, Evicted}
use absnfs.FileHandle.Bind.{Taken, take_handle-Taken, bind_handle-IsSound}

pub limit-pos : (m : ℤ) → 0 < limit_of m
limit-pos (pos zero) = omega arith
limit-pos m = omega arith

pub evict_count-bounds : (max : ℕ) → 0 < max → (0 < evict_count max) × (evict_count max ≤ max)
evict_count-bounds max h = ground arith

module _ {ℓ} {F : Type ℓ} where
  Evicted-bounded :
      (fm fm' : FileHandleMap F)
      → Evicted (evict_count (limit_of fm.max_handles)) fm fm'
      → length fm.handles ≤ limit_of fm.max_handles + 1
      → length fm'.handles ≤ limit_of fm'.max_handles
  Evicted-bounded fm fm' e fits = rw e.same_limit (
      omega
        (arith, e.fewer, evict_count-bounds (limit_of fm.max_handles) (limit-pos fm.max_handles)))

  -- What `evict` leaves of a map with at most one handle too many.
  pub evict_total :
      {fm : FileHandleMap F}
      → IsSound fm
      → fm.next_handle < 2 ^ 64
      → length fm.handles ≤ limit_of fm.max_handles + 1
      → (fm' : FileHandleMap F) × (evict fm ≡ some fm')
        × IsValid fm'
        × (fm'.next_handle ≡ fm.next_handle)
        × (fm'.max_handles ≡ fm.max_handles)
        × (length fm'.handles + length fm'.free_handles
            ≡ length fm.handles + length fm.free_handles)
  unfolding evict
  evict_total {fm} w small fits =
      elim (Bool-cases (ltb (limit_of fm.max_handles) (length fm.handles))) [
        | inl over ↦
            let start = min_handle max_uint64 fm.handles in
            let (fm', runs, e) =
              evict_loop_ends fm.next_handle (evict_count (limit_of fm.max_handles)) start w small
                (enough over) (omega arith) in
            (
              fm',
              rw over runs,
              record { sound = e.sound; bounded = Evicted-bounded fm fm' e fits },
              e.same_next,
              e.same_limit,
              e.freed,
            )
        | inr under ↦ (fm, rw under, record { sound = w; bounded = ground arith }, refl, refl, refl)
      ]
    where
      enough :
          ltb (limit_of fm.max_handles) (length fm.handles) ≡ true
          → evict_count (limit_of fm.max_handles)
            ≤ live_from (min_handle max_uint64 fm.handles) fm.handles
      enough over =
          rw (live_from_min max_uint64 (min_handle max_uint64 fm.handles) fm.handles (omega arith))
            (ground
              (arith, evict_count-bounds (limit_of fm.max_handles) (limit-pos fm.max_handles)))

  -- A file that has a handle keeps it, and the file is the one that was passed.
  pub allocate_existing :
      (f : File F) (fm : FileHandleMap F) (h : ℕ)
      → existing_handle (path_of f) fm ≡ some h
      → allocate f fm ≡ some (h, record fm { handles = insert h f fm.handles })
  unfolding allocate
  allocate_existing f fm h e = rw (e, allocate)

  pub allocate_fresh :
      (f : File F) (fm : FileHandleMap F)
      → existing_handle (path_of f) fm ≡ none
      → allocate f fm ≡ allocate_new f fm
  unfolding allocate
  allocate_fresh f fm e = rw (e, allocate)

  pub existing_live :
      (f : File F) {fm : FileHandleMap F} (h : ℕ)
      → IsSound fm
      → existing_handle (path_of f) fm ≡ some h
      → (p : List ℕ) × (g : File F) × (path_of f ≡ some p)
        × (lookup h fm.handles ≡ some g)
        × (path_of g ≡ some p)
  existing_live f {fm} h w e = go (path_of f) refl e
    where
      go :
          (o : Option (List ℕ))
          → path_of f ≡ o
          → existing_handle o fm ≡ some h
          → (p : List ℕ) × (g : File F) × (path_of f ≡ some p)
            × (lookup h fm.handles ≡ some g)
            × (path_of g ≡ some p)
      go none at_f k = cc
      go (some p) at_f k = let (g, live, at_g) = w.forward p h k in (p, g, at_f, live, at_g)

  -- The map before an eviction: the new handle is in.
  pub bound-IsSound :
      (f : File F) {fm : FileHandleMap F}
      → IsSound fm
      → fm.next_handle + 1 < 2 ^ 64
      → existing_handle (path_of f) fm ≡ none
      → IsSound (bind_handle (take_handle fm).0 f (take_handle fm).1)
  bound-IsSound f {fm} w small fresh =
      let t = take_handle-Taken fm w small in
      bind_handle-IsSound (take_handle fm).0 f t.sound t.dead t.handed_out t.not_free
        (rw_paths (path_of f) (take_handle fm).1 t.same_paths fresh)
    where
      rw_paths :
          (o : Option (List ℕ)) (fm' : FileHandleMap F)
          → fm'.path_handles ≡ fm.path_handles
          → existing_handle o fm ≡ none
          → existing_handle o fm' ≡ none
      rw_paths none fm' e k = k
      rw_paths (some p) fm' e k = rw e k

  -- With the new handle in, the map holds one handle more.
  pub length-bound :
      (f : File F) {fm : FileHandleMap F}
      → IsSound fm
      → fm.next_handle + 1 < 2 ^ 64
      → length (bind_handle (take_handle fm).0 f (take_handle fm).1).handles ≡ length fm.handles + 1
  unfolding bind_handle insert
  length-bound f {fm} w small =
      let t = take_handle-Taken fm w small in
      omega (
        arith,
        ap length (delete_absent (take_handle fm).0 (take_handle fm).1.handles t.dead),
        ap length t.same_handles,
      )

  -- The result of a new allocation, in terms of the eviction.
  pub allocate_new_lem :
      (f : File F) (fm fm' : FileHandleMap F)
      → evict (bind_handle (take_handle fm).0 f (take_handle fm).1) ≡ some fm'
      → allocate_new f fm ≡ some ((take_handle fm).0, fm')
  unfolding allocate_new
  allocate_new_lem f fm fm' e = rw (e, allocate_new)

  pub evict_not_over :
      (fm : FileHandleMap F) → length fm.handles ≤ limit_of fm.max_handles → evict fm ≡ some fm
  unfolding evict
  evict_not_over fm h = ground arith

  pub bind_same :
      (h : ℕ) (f : File F) (m : FileHandleMap F)
      → ((bind_handle h f m).next_handle ≡ m.next_handle)
        × ((bind_handle h f m).max_handles ≡ m.max_handles)
        × ((bind_handle h f m).free_handles ≡ m.free_handles)
  unfolding bind_handle
  bind_same h f m = (refl, refl, refl)

  -- What a new handle and the eviction leave of the account.
  allocate-IsCounted :
      (slack : ℕ) (fm m fm' : FileHandleMap F) (h : ℕ)
      → IsValid fm
      → Taken fm h m
      → (fm'.next_handle ≡ m.next_handle)
      → (fm'.max_handles ≡ m.max_handles)
      → length fm'.handles + length fm'.free_handles ≡ length fm.handles + 1 + length m.free_handles
      → IsCounted slack fm
      → IsCounted slack fm'
  allocate-IsCounted slack fm m fm' h w t next limit total c = record {
    total = omega (arith, t.balance, c.total);
    low =
        rw (limit, t.same_limit)
          (elim (Bool-cases (ltb 0 (length fm.free_handles))) [
            | inl some_free ↦ omega (arith, t.spared (ground arith), c.low)
            | inr no_free ↦ omega (arith, ltb-false no_free, t.next-le, c.total, w.bounded)
          ]);
  }
    where
      ltb-false : ltb 0 (length fm.free_handles) ≡ false → length fm.free_handles ≡ 0
      ltb-false e = ground arith

  pub allocate_new_total :
      (f : File F) (fm : FileHandleMap F)
      → IsValid fm
      → fm.next_handle + 1 < 2 ^ 64
      → existing_handle (path_of f) fm ≡ none
      → (fm' : FileHandleMap F) × (evict (bind_handle (take_handle fm).0 f (take_handle fm).1)
          ≡ some fm')
        × IsValid fm'
        × (fm'.next_handle ≤ fm.next_handle + 1)
        × (fm'.max_handles ≡ fm.max_handles)
        × ((slack : ℕ) → IsCounted slack fm → IsCounted slack fm')
  allocate_new_total f fm w small fresh =
      let taken = take_handle fm in
      let t = take_handle-Taken fm w.sound small in
      let same = bind_same taken.0 f taken.1 in
      let (fm', ends, v, next, limit, freed) =
        evict_total (bound-IsSound f w.sound small fresh) (omega (arith, same.0, t.next-le))
          (rw (same.1, t.same_limit) (omega (arith, length-bound f w.sound small, w.bounded))) in
      (
        fm',
        ends,
        v,
        omega (arith, next, same.0, t.next-le),
        limit ∙ same.1 ∙ t.same_limit,
        λ slack.
            allocate-IsCounted slack fm taken.1 fm' taken.0 w t (next ∙ same.0) (limit ∙ same.1)
              (freed ∙ rw (same.2, length-bound f w.sound small) refl),
      )
