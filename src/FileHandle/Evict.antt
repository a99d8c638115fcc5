-- ===== src/FileHandle/Evict.antt =====
-- Dropping a handle keeps the map sound, and the eviction loop ends.
use absnfs.Prelude.{
  ℕ, zero, suc, ◌+◌, ◌%◌, ◌^◌, ◌≤◌, ◌<◌, ◌≡◌, refl, true, false, Option, none, some, List, [], ◌∷◌,
  length, bytes_eq, nat_eq, arith, if◌then◌else◌, nat_beq_iff, ltb, leb, list_beq_iff, Bool,
  list_beq, ap, Option-cases, inl, inr,
}
use absnfs.Prelude.Assoc.{
  lookup, delete, Distinct, lookup-delete, delete_absent, delete-Distinct, length-delete,
}
use absnfs.MinHeap.{contains, push_value}
use absnfs.FileHandle.{
  File, node, other, FileHandleMap, path_of, forget_path, drop_handle, evict_loop, min_handle,
}
use absnfs.FileHandle.Valid.{IsSound}

module _ {ℓ} {F : Type ℓ} where
  abbrev pub stands_at : File F → List ℕ → Bool
  stands_at (node p x) q = list_beq p q
  stands_at (other x) q = false

  lookup-forget_path :
      (f : File F) (q : List ℕ) (m : List (List ℕ × ℕ))
      → lookup q (forget_path f m) ≡ (if stands_at f q then none else lookup q m)
  lookup-forget_path (node p x) q m = lookup-delete p q m
  lookup-forget_path (other x) q m = refl

  forget_path-Distinct :
      (f : File F) (m : List (List ℕ × ℕ)) → Distinct m → Distinct (forget_path f m)
  forget_path-Distinct (node p x) m d = delete-Distinct p m d
  forget_path-Distinct (other x) m d = d

  -- The path of a file is where it stands.
  pub stands_at_path : (f : File F) (p : List ℕ) → path_of f ≡ some p → stands_at f p ≡ true
  stands_at_path (node [] x) p e = cc
  stands_at_path (node (b ∷ r) x) p e = ground (arith, list_beq_iff (b ∷ r) p)
  stands_at_path (other x) p e = cc

  path_of_stands :
      (f g : File F) (p : List ℕ) → stands_at f p ≡ true → path_of g ≡ some p → path_of f ≡ some p
  path_of_stands (node [] x) (node [] y) p e k = cc
  path_of_stands (node [] x) (node (b ∷ r) y) p e k = ground (arith, list_beq_iff [] p)
  path_of_stands (node [] x) (other y) p e k = cc
  path_of_stands (node (b ∷ r) x) g p e k = ap some ((list_beq_iff (b ∷ r) p).0 e)
  path_of_stands (other x) g p e k = cc

  module _ {fm : FileHandleMap F} (h : ℕ) (f : File F) (w : IsSound fm)
      (live : lookup h fm.handles ≡ some f) where
    drop_free_dead :
        (k : ℕ) → contains k (h ∷ fm.free_handles) ≡ true → lookup k (delete h fm.handles) ≡ none
    drop_free_dead k e = ground (arith, lookup-delete h k fm.handles, w.free_dead k)

    drop_forward :
        (p : List ℕ) (k : ℕ)
        → lookup p (forget_path f fm.path_handles) ≡ some k
        → (g : File F) × (lookup k (delete h fm.handles) ≡ some g) × (path_of g ≡ some p)
    drop_forward p k e =
        let (g, at_k, at_p) =
          w.forward p k (ground (arith, lookup-forget_path f p fm.path_handles)) in
        (
          g,
          ground (
            arith,
            lookup-delete h k fm.handles,
            lookup-forget_path f p fm.path_handles,
            stands_at_path f p,
            nat_beq_iff h k,
          ),
          at_p,
        )

    drop_backward :
        (k : ℕ) (g : File F) (p : List ℕ)
        → lookup k (delete h fm.handles) ≡ some g
        → path_of g ≡ some p
        → lookup p (forget_path f fm.path_handles) ≡ some k
    drop_backward k g p e at_p = ground (
      arith,
      lookup-delete h k fm.handles,
      lookup-forget_path f p fm.path_handles,
      path_of_stands f g p,
      w.backward k g p,
      w.backward h f p,
    )

    pub drop_handle-IsSound : IsSound (drop_handle h f fm)
    unfolding drop_handle push_value
    drop_handle-IsSound = record {
      keys = delete-Distinct h fm.handles w.keys;
      path_keys = forget_path-Distinct f fm.path_handles w.path_keys;
      live_below = λ k g e. w.live_below k g (ground (arith, lookup-delete h k fm.handles));
      free_below = λ k e. ground (arith, w.free_below k, w.live_below h f live);
      free_once = (ground (arith, w.free_dead h), w.free_once);
      free_dead = drop_free_dead;
      forward = drop_forward;
      backward = drop_backward;
    }

    pub length-drop_handle : suc (length (drop_handle h f fm).handles) ≡ length fm.handles
    unfolding drop_handle
    length-drop_handle = length-delete h fm.handles w.keys live

  -- The number of live handles from `k` on.
  abbrev pub live_from : ℕ → List (ℕ × File F) → ℕ
  live_from k [] = 0
  live_from k ((h, f) ∷ l) = (if leb k h then 1 else 0) + live_from k l

  live_from_absent :
      (k : ℕ) (l : List (ℕ × File F)) → lookup k l ≡ none → live_from (k + 1) l ≡ live_from k l
  live_from_absent k [] e = refl
  live_from_absent k ((h, f) ∷ l) e = ground (arith, live_from_absent k l)

  live_from_drop :
      (k : ℕ) (l : List (ℕ × File F)) (f : File F)
      → Distinct l
      → lookup k l ≡ some f
      → suc (live_from (k + 1) (delete k l)) ≡ live_from k l
  unfolding delete
  live_from_drop k [] f d e = cc
  live_from_drop k ((h, g) ∷ l) f d e =
      ground (arith, live_from_drop k l f d.1, live_from_absent k l, delete_absent k l)

  pub live_from_pos :
      (k n : ℕ) (l : List (ℕ × File F))
      → Distinct l
      → ((h : ℕ) (f : File F) → lookup h l ≡ some f → h < n)
      → 0 < live_from k l
      → k < n
  live_from_pos k n [] d below pos = absurd (omega arith)
  live_from_pos k n ((h, f) ∷ l) d below pos = ground (
    arith,
    below h f,
    nat_beq_iff h h,
    live_from_pos k n l d.1 (λ i g e. below i g (ground (arith, nat_beq_iff h i))),
  )

  pub min_handle-le : (m : ℕ) (l : List (ℕ × File F)) → min_handle m l ≤ m
  unfolding min_handle
  min_handle-le m [] = omega arith
  min_handle-le m ((h, f) ∷ l) = ground (arith, min_handle-le (if ltb h m then h else m) l)

  -- From the least live handle on there are all of them.
  pub live_from_min :
      (m k : ℕ) (l : List (ℕ × File F)) → k ≤ min_handle m l → live_from k l ≡ length l
  unfolding min_handle
  live_from_min m k [] h = refl
  live_from_min m k ((i, f) ∷ l) h = ground (
    arith,
    min_handle-le (if ltb i m then i else m) l,
    live_from_min (if ltb i m then i else m) k l,
  )

-- What the loop leaves: a sound map with `count` handles fewer, and the same limit and counter.
pub record Evicted {ℓ} {F : Type ℓ} (count : ℕ) (fm fm' : FileHandleMap F) : Type ℓ where
  pub sound : IsSound fm'
  pub fewer : length fm'.handles + count ≡ length fm.handles
  pub same_next : fm'.next_handle ≡ fm.next_handle
  pub same_limit : fm'.max_handles ≡ fm.max_handles
  -- A dropped number is free.
  pub freed :
      length fm'.handles + length fm'.free_handles ≡ length fm.handles + length fm.free_handles

module _ {ℓ} {F : Type ℓ} where
  pub evict_loop_dead :
      (fuel count h : ℕ) (fm : FileHandleMap F)
      → lookup h fm.handles ≡ none
      → evict_loop (suc fuel) (suc count) h fm ≡ evict_loop fuel (suc count) ((h + 1) % 2 ^ 64) fm
  unfolding evict_loop
  evict_loop_dead fuel count h fm dead = rw (dead, evict_loop)

  pub evict_loop_live :
      (fuel count h : ℕ) (fm : FileHandleMap F) (f : File F)
      → lookup h fm.handles ≡ some f
      → evict_loop (suc fuel) (suc count) h fm
        ≡ evict_loop fuel count ((h + 1) % 2 ^ 64) (drop_handle h f fm)
  unfolding evict_loop
  evict_loop_live fuel count h fm f live = rw (live, evict_loop)

  -- One handle more was evicted.
  add_one :
      {count : ℕ} (h : ℕ) (f : File F) (fm : FileHandleMap F) {r : Option (FileHandleMap F)}
      → suc (length (drop_handle h f fm).handles) ≡ length fm.handles
      → (fm' : FileHandleMap F) × (r ≡ some fm') × Evicted count (drop_handle h f fm) fm'
      → (fm' : FileHandleMap F) × (r ≡ some fm') × Evicted (suc count) fm fm'
  unfolding drop_handle push_value
  add_one h f fm one (fm', runs, e) = (
    fm',
    runs,
    record {
      sound = e.sound;
      fewer = omega (arith, e.fewer, one);
      same_next = e.same_next;
      same_limit = e.same_limit;
      freed = omega (arith, e.freed, one);
    },
  )

  -- With enough live handles from `h` on, the loop ends before its fuel does.
  pub evict_loop_ends :
      (fuel count h : ℕ) {fm : FileHandleMap F}
      → IsSound fm
      → fm.next_handle < 2 ^ 64
      → count ≤ live_from h fm.handles
      → fm.next_handle ≤ fuel + h
      → (fm' : FileHandleMap F) × (evict_loop fuel count h fm ≡ some fm') × Evicted count fm fm'
  unfolding evict_loop
  evict_loop_ends zero zero h {fm} w small enough far = (
    fm,
    refl,
    record { sound = w; fewer = omega arith; same_next = refl; same_limit = refl; freed = refl },
  )
  evict_loop_ends (suc fuel) zero h {fm} w small enough far = (
    fm,
    refl,
    record { sound = w; fewer = omega arith; same_next = refl; same_limit = refl; freed = refl },
  )
  evict_loop_ends zero (suc count) h {fm} w small enough far =
      absurd (omega (arith, live_from_pos h fm.next_handle fm.handles w.keys w.live_below))
  evict_loop_ends (suc fuel) (suc count) h {fm} w small enough far =
      let below = live_from_pos h fm.next_handle fm.handles w.keys w.live_below (omega arith) in
      let step : (h + 1) % 2 ^ 64 ≡ h + 1 = omega arith in
      elim (Option-cases (lookup h fm.handles)) [
        | inl dead ↦
            rw (evict_loop_dead fuel count h fm dead, step)
              (evict_loop_ends fuel (suc count) (h + 1) w small
                (omega (arith, live_from_absent h fm.handles dead)) (omega arith))
        | inr (f, live) ↦
            rw (evict_loop_live fuel count h fm f live, step)
              (add_one h f fm (length-drop_handle h f w live) (
                evict_loop_ends fuel count (h + 1) (drop_handle-IsSound h f w live) small
                  (unfold drop_handle in omega (arith, live_from_drop h fm.handles f w.keys live))
                  (omega arith)))
      ]
