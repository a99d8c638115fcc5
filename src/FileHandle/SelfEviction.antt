-- ===== src/FileHandle/SelfEviction.antt =====
-- The eviction takes the least numbers for the oldest. A freed number is the least one again when it
-- is reused, so `Allocate` can evict the handle that it returns.
use absnfs.Prelude.{
  ◌∙◌, sym, ℕ, zero, suc, ◌+◌, ◌%◌, ◌^◌, ◌≤◌, ◌<◌, ◌≡◌, refl, none, some, List, [], ◌∷◌, length,
  bytes_eq, nat_eq, arith, nat_beq_iff, Option-cases, inl, inr, lt→ltb,
}
use absnfs.Prelude.Assoc.{
  lookup, insert, Distinct, lookup-delete, lookup-insert_self, delete_absent,
}
use absnfs.FileHandle.{
  File, FileHandleMap, limit_of, evict_count, max_uint64, path_of, existing_handle, take_handle,
  bind_handle, min_handle, evict_loop, evict, drop_handle, allocate, get, count,
}
use absnfs.FileHandle.Valid.{IsSound, IsValid}
use absnfs.FileHandle.Evict.{evict_loop_dead, evict_loop_live}
use absnfs.FileHandle.Bind.{take_handle-Taken}
use absnfs.FileHandle.Alloc.{
  allocate_fresh, allocate_new_total, allocate_new_lem, bind_same, evict_count-bounds, limit-pos,
  length-bound,
}

module _ {ℓ} {F : Type ℓ} where
  -- A handle that is not live does not come back in the loop.
  evict_loop_keeps_dead :
      (fuel n h k : ℕ) (fm fm' : FileHandleMap F)
      → lookup k fm.handles ≡ none
      → evict_loop fuel n h fm ≡ some fm'
      → lookup k fm'.handles ≡ none
  unfolding evict_loop drop_handle
  evict_loop_keeps_dead zero zero h k fm fm' dead runs = ground arith
  evict_loop_keeps_dead (suc fuel) zero h k fm fm' dead runs = ground arith
  evict_loop_keeps_dead zero (suc n) h k fm fm' dead runs = cc
  evict_loop_keeps_dead (suc fuel) (suc n) h k fm fm' dead runs =
      elim (Option-cases (lookup h fm.handles)) [
        | inl e ↦
            evict_loop_keeps_dead fuel (suc n) ((h + 1) % 2 ^ 64) k fm fm' dead
              (sym (evict_loop_dead fuel n h fm e) ∙ runs)
        | inr (f, e) ↦
            evict_loop_keeps_dead fuel n ((h + 1) % 2 ^ 64) k (drop_handle h f fm) fm'
              (ground (arith, lookup-delete h k fm.handles))
              (sym (evict_loop_live fuel n h fm f e) ∙ runs)
      ]

  -- The least of a map all of whose numbers are above the one that the search starts from.
  min_handle_stays :
      (m : ℕ) (l : List (ℕ × File F))
      → Distinct l
      → ((k : ℕ) (f : File F) → lookup k l ≡ some f → m ≤ k)
      → min_handle m l ≡ m
  unfolding min_handle
  min_handle_stays m [] d above = refl
  min_handle_stays m ((k, f) ∷ l) d above = ground (
    arith,
    above k f,
    nat_beq_iff k k,
    min_handle_stays m l d.1 (λ i g e. above i g (ground (arith, nat_beq_iff k i))),
  )

  -- The loop evicts the handle that it starts at.
  first_evicted :
      (fuel n h : ℕ) (f : File F) (fm fm' : FileHandleMap F)
      → 0 < n
      → lookup h fm.handles ≡ some f
      → evict_loop fuel n h fm ≡ some fm'
      → lookup h fm'.handles ≡ none
  unfolding evict_loop drop_handle
  first_evicted fuel zero h f fm fm' pos live runs = absurd (omega arith)
  first_evicted zero (suc n) h f fm fm' pos live runs = cc
  first_evicted (suc fuel) (suc n) h f fm fm' pos live runs =
      evict_loop_keeps_dead fuel n ((h + 1) % 2 ^ 64) h (drop_handle h f fm) fm'
        (ground (arith, lookup-delete h h fm.handles, nat_beq_iff h h))
        (sym (evict_loop_live fuel n h fm f live) ∙ runs)

  evict_least :
      (h : ℕ) (f : File F) (fm fm' : FileHandleMap F)
      → limit_of fm.max_handles < length fm.handles
      → min_handle max_uint64 fm.handles ≡ h
      → lookup h fm.handles ≡ some f
      → evict fm ≡ some fm'
      → lookup h fm'.handles ≡ none
  unfolding evict
  evict_least h f fm fm' over least live runs =
      first_evicted fm.next_handle (evict_count (limit_of fm.max_handles)) h f fm fm'
        (evict_count-bounds (limit_of fm.max_handles) (limit-pos fm.max_handles)).0 live
        (rw (← least) (ground arith))

  lookup-bound :
      (h : ℕ) (f : File F) (fm : FileHandleMap F) → lookup h (bind_handle h f fm).handles ≡ some f
  unfolding bind_handle
  lookup-bound h f fm = lookup-insert_self h f fm.handles

  least_bound :
      (h : ℕ) (f : File F) (fm : FileHandleMap F)
      → IsSound fm
      → lookup h fm.handles ≡ none
      → h < fm.next_handle
      → fm.next_handle < 2 ^ 64
      → ((k : ℕ) (g : File F) → lookup k fm.handles ≡ some g → h < k)
      → min_handle max_uint64 (bind_handle h f fm).handles ≡ h
  unfolding bind_handle insert min_handle
  least_bound h f fm w dead below small above =
      rw (delete_absent h fm.handles dead, lt→ltb h max_uint64 (omega arith))
        (min_handle_stays h fm.handles w.keys (λ k g e. omega (arith, above k g e)))

  -- A valid map that is full, whose counter has not come to its end, and whose least freed number
  -- lies below all live ones, as it does after an eviction: to allocate a handle for a new file
  -- returns that number, and the handle does not exist afterwards.
  pub allocate_evicts_result :
      (f : File F) {fm : FileHandleMap F}
      → IsValid fm
      → fm.next_handle + 1 < 2 ^ 64
      → existing_handle (path_of f) fm ≡ none
      → count fm ≡ limit_of fm.max_handles
      → ((k : ℕ) (g : File F) → get k fm ≡ some g → (take_handle fm).0 < k)
      → (fm' : FileHandleMap F) × (allocate f fm ≡ some ((take_handle fm).0, fm'))
        × (get (take_handle fm).0 fm' ≡ none)
  unfolding count get
  allocate_evicts_result f {fm} w small fresh full below =
      let h = (take_handle fm).0 in
      let fm₁ = (take_handle fm).1 in
      let t = take_handle-Taken fm w.sound small in
      let (fm', ends, v, next, limit, counted) = allocate_new_total f fm w small fresh in
      (
        fm',
        allocate_fresh f fm fresh ∙ allocate_new_lem f fm fm' ends,
        evict_least h f (bind_handle h f fm₁) fm'
            (rw ((bind_same h f fm₁).1, t.same_limit) (omega (arith, length-bound f w.sound small)))
            (least_bound h f fm₁ t.sound t.dead t.handed_out (omega (arith, t.next-le))
              (λ k g e. below k g (rw t.same_handles at e)))
            (lookup-bound h f fm₁) ends,
      )
