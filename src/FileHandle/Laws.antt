-- ===== src/FileHandle/Laws.antt =====
-- What the server relies on of the file handle map.
use absnfs.Prelude.{
  ◌∙◌, sym, ℕ, ◌+◌, ◌^◌, ◌≤◌, ◌<◌, ◌≡◌, none, some, bytes_eq, nat_eq, arith, if◌then◌else◌, nat_beq,
  nat_beq_iff, Option-cases, inl, inr, ap,
}
use absnfs.Prelude.Assoc.{lookup, insert, lookup-insert, lookup-delete, length-insert}
use absnfs.FileHandle.{
  File, FileHandleMap, limit_of, path_of, existing_handle, take_handle, bind_handle, allocate, get,
  release, count,
}
use absnfs.FileHandle.Valid.{IsValid, IsCounted}
use absnfs.FileHandle.Evict.{drop_handle-IsSound, length-drop_handle}
use absnfs.FileHandle.Bind.{take_handle-Taken, replace-IsSound}
use absnfs.FileHandle.Alloc.{
  allocate_existing, allocate_fresh, existing_live, length-bound, allocate_new_total,
  allocate_new_lem, evict_not_over,
}

module _ {ℓ} {F : Type ℓ} where
  -- On a valid map whose counter has not come to its end, `Allocate` returns: its eviction loop
  -- ends. The map is valid again, so it holds at most the limit of handles, and the counter has gone
  -- up by at most one.
  pub allocate_total :
      (f : File F) {fm : FileHandleMap F}
      → IsValid fm
      → fm.next_handle + 1 < 2 ^ 64
      → (h : ℕ) × (fm' : FileHandleMap F) × (allocate f fm ≡ some (h, fm'))
        × IsValid fm'
        × (fm'.next_handle ≤ fm.next_handle + 1)
  allocate_total f {fm} w small = elim (Option-cases (existing_handle (path_of f) fm)) [
    | inl fresh ↦
        let (fm', runs, v, next, limit, counted) = allocate_new_total f fm w small fresh in
        (
          (take_handle fm).0,
          fm',
          allocate_fresh f fm fresh ∙ allocate_new_lem f fm fm' runs,
          v,
          next,
        )
    | inr (h, e) ↦
        let (p, g, at_f, live, at_g) = existing_live f h w.sound e in
        (
          h,
          record fm { handles = insert h f fm.handles },
          allocate_existing f fm h e,
          record {
            sound = replace-IsSound h f g w.sound live (at_f ∙ sym at_g);
            bounded = omega (arith, length-insert h f fm.handles w.sound.keys live, w.bounded);
          },
          omega arith,
        )
  ]

  -- A valid map whose counter is accounted for: it does not come to its end.
  pub record IsAmple (slack : ℕ) (fm : FileHandleMap F) : Type ℓ where
    pub valid : IsValid fm
    pub counted : IsCounted slack fm
    pub small : limit_of fm.max_handles + slack + 2 < 2 ^ 64

  -- A live file is changed, and its path is not.
  pub replace-IsAmple :
      (h : ℕ) (f g : File F) {slack : ℕ} {fm : FileHandleMap F}
      → IsAmple slack fm
      → lookup h fm.handles ≡ some g
      → path_of f ≡ path_of g
      → IsAmple slack (record fm { handles = insert h f fm.handles })
  replace-IsAmple h f g {slack} {fm} a live same_path =
      let same = length-insert h f fm.handles a.valid.sound.keys live in
      record {
        valid = record {
          sound = replace-IsSound h f g a.valid.sound live same_path;
          bounded = omega (arith, same, a.valid.bounded);
        };
        counted = record { total = omega (arith, same, a.counted.total); low = a.counted.low };
        small = a.small;
      }

  -- On a map whose counter is accounted for `Allocate` returns, and leaves such a map, however often
  -- it is called: the freed numbers are used before new ones.
  pub allocate-IsAmple :
      (f : File F) {slack : ℕ} {fm : FileHandleMap F}
      → IsAmple slack fm
      → (h : ℕ) × (fm' : FileHandleMap F) × (allocate f fm ≡ some (h, fm')) × IsAmple slack fm'
  allocate-IsAmple f {slack} {fm} a = elim (Option-cases (existing_handle (path_of f) fm)) [
    | inl fresh ↦
        let (fm', runs, v, next, limit, counted) =
          allocate_new_total f fm a.valid (omega (arith, a.counted.low, a.small)) fresh in
        (
          (take_handle fm).0,
          fm',
          allocate_fresh f fm fresh ∙ allocate_new_lem f fm fm' runs,
          record { valid = v; counted = counted slack a.counted; small = rw limit a.small },
        )
    | inr (h, e) ↦
        let (p, g, at_f, live, at_g) = existing_live f h a.valid.sound e in
        (
          h,
          record fm { handles = insert h f fm.handles },
          allocate_existing f fm h e,
          replace-IsAmple h f g a live (at_f ∙ sym at_g),
        )
  ]

  -- On a valid map, a node whose path has a handle gets that handle again, the handle then stands
  -- for the node that was passed, no other handle changes, and the number of handles stays.
  pub allocate_again :
      (f : File F) (h : ℕ) {fm : FileHandleMap F}
      → IsValid fm
      → existing_handle (path_of f) fm ≡ some h
      → (fm' : FileHandleMap F) × (allocate f fm ≡ some (h, fm'))
        × ((k : ℕ) → get k fm' ≡ (if nat_beq h k then some f else get k fm))
        × (count fm' ≡ count fm)
  unfolding get count
  allocate_again f h {fm} w e =
      let (p, g, at_f, live, at_g) = existing_live f h w.sound e in
      (
        record fm { handles = insert h f fm.handles },
        allocate_existing f fm h e,
        (λ k. lookup-insert h k f fm.handles),
        length-insert h f fm.handles w.sound.keys live,
      )

  -- On a valid map with room whose counter has not come to its end, the handle of a file whose path
  -- has none was not live before, stands for the file, and no other handle
  -- changes.
  pub allocate_room :
      (f : File F) {fm : FileHandleMap F}
      → IsValid fm
      → fm.next_handle + 1 < 2 ^ 64
      → existing_handle (path_of f) fm ≡ none
      → count fm < limit_of fm.max_handles
      → (h : ℕ) × (fm' : FileHandleMap F) × (allocate f fm ≡ some (h, fm'))
        × (get h fm ≡ none)
        × ((k : ℕ) → get k fm' ≡ (if nat_beq h k then some f else get k fm))
  unfolding get count bind_handle
  allocate_room f {fm} w small fresh room =
      let taken = take_handle fm in
      let t = take_handle-Taken fm w.sound small in
      let bound = bind_handle taken.0 f taken.1 in
      (
        taken.0,
        bound,
        allocate_fresh f fm fresh
            ∙ allocate_new_lem f fm bound (
                evict_not_over bound
                  (rw t.same_limit (omega (arith, length-bound f w.sound small)))),
        ap (lookup taken.0) (sym t.same_handles) ∙ t.dead,
        (λ k.
            lookup-insert taken.0 k f taken.1.handles
            ∙ ap (λ l. if nat_beq taken.0 k then some f else lookup k l) t.same_handles),
      )

  -- Release frees its handle and changes no other.
  pub get-release :
      (h k : ℕ) (fm : FileHandleMap F)
      → get k (release h fm) ≡ (if nat_beq h k then none else get k fm)
  unfolding get release
  get-release h k fm = elim (Option-cases (lookup h fm.handles)) [
    | inl e ↦ rw (e, release) (ground (arith, nat_beq_iff h k))
    | inr (f, e) ↦ rw (e, release) (lookup-delete h k fm.handles)
  ]

  pub release-IsValid : (h : ℕ) {fm : FileHandleMap F} → IsValid fm → IsValid (release h fm)
  unfolding release
  release-IsValid h {fm} w = elim (Option-cases (lookup h fm.handles)) [
    | inl e ↦ rw (e, release) w
    | inr (f, e) ↦
        rw (e, release)
          (record {
            sound = drop_handle-IsSound h f w.sound e;
            bounded = omega (arith, length-drop_handle h f w.sound e, w.bounded);
          })
  ]
