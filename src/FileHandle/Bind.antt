-- ===== src/FileHandle/Bind.antt =====
-- A new handle for a file that has none: which number it gets, and that the map stays sound.
use absnfs.Prelude.{
  ℕ, [], ◌∷◌, length, ◌+◌, ◌%◌, ◌^◌, ◌≤◌, ◌<◌, ◌≡◌, refl, true, false, Option, none, some, List,
  bytes_eq, nat_eq, arith, nat_beq, nat_beq_iff, list_beq_iff, Option-cases, inl, inr, Bool,
  Bool-cases, list_beq,
}
use absnfs.Prelude.Assoc.{lookup, insert, Distinct, lookup-insert, insert-Distinct}
use absnfs.MinHeap.{contains, pop_min, Popped, pop_min-Popped, pop_min-none_iff, is_empty}
use absnfs.FileHandle.{
  File, FileHandleMap, path_of, existing_handle, record_path, take_handle, bind_handle,
}
use absnfs.FileHandle.Valid.{IsSound}

record_path-Distinct :
    (o : Option (List ℕ)) (h : ℕ) (m : List (List ℕ × ℕ))
    → Distinct m
    → Distinct (record_path o h m)
record_path-Distinct none h m d = d
record_path-Distinct (some p) h m d = insert-Distinct p h m d

length_of_empty : (h : List ℕ) → is_empty h ≡ true → length h ≡ 0
unfolding is_empty
length_of_empty [] e = refl
length_of_empty (x ∷ h) e = absurd (ground arith)

module _ {ℓ} {F : Type ℓ} where
  -- What `take_handle` gives: a number that is neither live nor freed.
  pub record Taken (fm : FileHandleMap F) (h : ℕ) (fm' : FileHandleMap F) : Type ℓ where
    pub sound : IsSound fm'
    pub same_handles : fm'.handles ≡ fm.handles
    pub same_paths : fm'.path_handles ≡ fm.path_handles
    pub same_limit : fm'.max_handles ≡ fm.max_handles
    pub dead : lookup h fm'.handles ≡ none
    pub handed_out : h < fm'.next_handle
    pub not_free : contains h fm'.free_handles ≡ false
    pub next-le : fm'.next_handle ≤ fm.next_handle + 1
    -- The counter moves only where no number is free.
    pub balance :
        fm'.next_handle + length fm.free_handles ≡ fm.next_handle + length fm'.free_handles + 1
    pub spared : 0 < length fm.free_handles → fm'.next_handle ≡ fm.next_handle

  take_freed :
      (fm : FileHandleMap F) (h : ℕ) (rest : List ℕ)
      → IsSound fm
      → Popped fm.free_handles h rest
      → Taken fm h (record fm { free_handles = rest })
  take_freed fm h rest w p = record {
    sound = record {
      keys = w.keys;
      path_keys = w.path_keys;
      live_below = w.live_below;
      free_below = λ k e. w.free_below k (ground (arith, p.rest k));
      free_once = p.once;
      free_dead = λ k e. w.free_dead k (ground (arith, p.rest k));
      forward = w.forward;
      backward = w.backward;
    };
    same_handles = refl;
    same_paths = refl;
    same_limit = refl;
    dead = w.free_dead h p.there;
    handed_out = w.free_below h p.there;
    not_free = ground (arith, p.rest h, nat_beq_iff h h);
    next-le = omega arith;
    balance = omega (arith, p.fewer);
    spared = λ some_free. refl;
  }

  take_next :
      (fm : FileHandleMap F)
      → IsSound fm
      → fm.next_handle + 1 < 2 ^ 64
      → length fm.free_handles ≡ 0
      → Taken fm fm.next_handle (record fm { next_handle = fm.next_handle + 1 })
  take_next fm w small no_free = record {
    sound = record {
      keys = w.keys;
      path_keys = w.path_keys;
      live_below = λ k f e. omega (arith, w.live_below k f e);
      free_below = λ k e. omega (arith, w.free_below k e);
      free_once = w.free_once;
      free_dead = w.free_dead;
      forward = w.forward;
      backward = w.backward;
    };
    same_handles = refl;
    same_paths = refl;
    same_limit = refl;
    dead = not_live (lookup fm.next_handle fm.handles) refl;
    handed_out = omega arith;
    not_free = not_freed (contains fm.next_handle fm.free_handles) refl;
    next-le = omega arith;
    balance = omega arith;
    spared = λ some_free. absurd (omega arith);
  }
    where
      not_live : (o : Option (File F)) → lookup fm.next_handle fm.handles ≡ o → o ≡ none
      not_live none e = refl
      not_live (some f) e = absurd (omega (arith, w.live_below fm.next_handle f e))

      not_freed : (b : Bool) → contains fm.next_handle fm.free_handles ≡ b → b ≡ false
      not_freed true e = absurd (omega (arith, w.free_below fm.next_handle e))
      not_freed false e = refl

  pub take_handle-Taken :
      (fm : FileHandleMap F)
      → IsSound fm
      → fm.next_handle + 1 < 2 ^ 64
      → Taken fm (take_handle fm).0 (take_handle fm).1
  unfolding take_handle
  take_handle-Taken fm w small = elim (Option-cases (pop_min fm.free_handles)) [
    | inl e ↦
        let step : (fm.next_handle + 1) % 2 ^ 64 ≡ fm.next_handle + 1 = omega arith in
        rw (e, take_handle, step)
          (take_next fm w small
            (length_of_empty fm.free_handles ((pop_min-none_iff fm.free_handles).0 e)))
    | inr ((h, rest), e) ↦
        rw (e, take_handle)
          (take_freed fm h rest w (pop_min-Popped fm.free_handles h rest w.free_once e))
  ]

  module _ (h : ℕ) (f : File F) {fm : FileHandleMap F} (w : IsSound fm)
      (dead : lookup h fm.handles ≡ none) where
    bind_forward :
        (o : Option (List ℕ))
        → path_of f ≡ o
        → (p : List ℕ) (k : ℕ) → lookup p (record_path o h fm.path_handles) ≡ some k
        → (g : File F) × (lookup k (insert h f fm.handles) ≡ some g) × (path_of g ≡ some p)
    bind_forward none at_o p k e =
        let (g, live, at_p) = w.forward p k e in
        (g, ground (arith, lookup-insert h k f fm.handles, nat_beq_iff h k), at_p)
    bind_forward (some q) at_o p k e = elim (Bool-cases (list_beq q p)) [
      | inl same ↦ (
        f,
        ground (
          arith,
          lookup-insert h k f fm.handles,
          nat_beq_iff h k,
          lookup-insert q p h fm.path_handles,
        ),
        ground (arith, list_beq_iff q p),
      )
      | inr differ ↦
          let (g, live, at_p) =
            w.forward p k (ground (arith, lookup-insert q p h fm.path_handles)) in
          (g, ground (arith, lookup-insert h k f fm.handles, nat_beq_iff h k), at_p)
    ]

    bind_backward :
        (o : Option (List ℕ))
        → path_of f ≡ o
        → existing_handle o fm ≡ none
        → (k : ℕ) (g : File F) (p : List ℕ) → lookup k (insert h f fm.handles) ≡ some g
        → path_of g ≡ some p
        → lookup p (record_path o h fm.path_handles) ≡ some k
    bind_backward none at_o fresh k g p e at_p =
        ground (arith, lookup-insert h k f fm.handles, w.backward k g p, nat_beq_iff h k)
    bind_backward (some q) at_o fresh k g p e at_p = ground (
      arith,
      lookup-insert h k f fm.handles,
      lookup-insert q p h fm.path_handles,
      w.backward k g p,
      nat_beq_iff h k,
      list_beq_iff q p,
    )

  -- Binding such a number to a file that no live handle stands for.
  pub bind_handle-IsSound :
      (h : ℕ) (f : File F) {fm : FileHandleMap F}
      → IsSound fm
      → lookup h fm.handles ≡ none
      → h < fm.next_handle
      → contains h fm.free_handles ≡ false
      → existing_handle (path_of f) fm ≡ none
      → IsSound (bind_handle h f fm)
  unfolding bind_handle
  bind_handle-IsSound h f {fm} w dead below not_free fresh = record {
    keys = insert-Distinct h f fm.handles w.keys;
    path_keys = record_path-Distinct (path_of f) h fm.path_handles w.path_keys;
    live_below =
        λ k g e. ground (arith, lookup-insert h k f fm.handles, w.live_below k g, nat_beq_iff h k);
    free_below = w.free_below;
    free_once = w.free_once;
    free_dead =
        λ k e. ground (arith, lookup-insert h k f fm.handles, w.free_dead k, nat_beq_iff h k);
    forward = bind_forward h f w dead (path_of f) refl;
    backward = bind_backward h f w dead (path_of f) refl fresh;
  }

  -- A file in the place of another one at the same path.
  pub replace-IsSound :
      (h : ℕ) (f g : File F) {fm : FileHandleMap F}
      → IsSound fm
      → lookup h fm.handles ≡ some g
      → path_of f ≡ path_of g
      → IsSound (record fm { handles = insert h f fm.handles })
  replace-IsSound h f g {fm} w live same_path = record {
    keys = insert-Distinct h f fm.handles w.keys;
    path_keys = w.path_keys;
    live_below = λ k x e. ground (
      arith,
      lookup-insert h k f fm.handles,
      w.live_below k x,
      w.live_below h g live,
      nat_beq_iff h k,
    );
    free_below = w.free_below;
    free_once = w.free_once;
    free_dead =
        λ k e. ground (arith, lookup-insert h k f fm.handles, w.free_dead k, nat_beq_iff h k);
    forward = λ q k e. swapped q k (w.forward q k e);
    backward = λ k x q e at_q. ground (
      arith,
      lookup-insert h k f fm.handles,
      w.backward k x q,
      w.backward h g q live,
      nat_beq_iff h k,
    );
  }
    where
      swapped :
          (q : List ℕ) (k : ℕ)
          → (x : File F) × (lookup k fm.handles ≡ some x) × (path_of x ≡ some q)
          → (x : File F) × (lookup k (insert h f fm.handles) ≡ some x) × (path_of x ≡ some q)
      swapped q k (x, live', at_q) = elim (Bool-cases (nat_beq h k)) [
        | inl same ↦
            (f, ground (arith, lookup-insert h k f fm.handles), ground (arith, nat_beq_iff h k))
        | inr differ ↦ (x, ground (arith, lookup-insert h k f fm.handles), at_q)
      ]
