-- ===== src/Ops/Requests/ReadOnly.antt =====
-- A read-only export: the files stay as they are.
use absnfs.Prelude.{ℕ, true, ◌≡◌, refl, Option, List, [], ◌∷◌, arith}
use absnfs.Prelude.All.{All}
use absnfs.Prelude.Int.{ℤ}
use absnfs.Attrs.{NfsAttrs}
use absnfs.Ops.{FileSystem, Outside, Server, NfsNode, Op, ◌>>=◌}
use absnfs.Ops.Caches.{
  now, is_done, check_context, find_attrs, put_attrs, put_missing, find_listing, put_listing,
}
use absnfs.Ops.Content.{write}
use absnfs.Ops.Entries.{writable, create, remove, rename, symlink}
use absnfs.Ops.Keeps.{Keeps, reading_laws, >>=-Keeps}
use absnfs.Ops.Steady.{
  IsFree, IsSteady, free-IsSteady, lookup-Keeps, get_attr-Keeps, read-Keeps, readlink-Keeps,
  read_dir-Keeps, read_dir_plus-Keeps,
}
use absnfs.Ops.Requests.{
  Request, look_up, getting_attr, getting_link, listing, listing_plus, setting_attr, reading,
  writing, creating, removing, renaming, linking, serve, serve_all,
}

-- Any request but SetAttr.
abbrev pub IsOther : Request → Type 0
IsOther (setting_attr n a) = ⊥
IsOther _ = Unit

-- Read-only, with these files.
pub record IsFrozen {F : Type 0} (f : F) (s : Server F) : Type 0 where
  pub locked : s.read_only ≡ true
  pub same_files : s.files ≡ f

module _ {F : Type 0} (f : F) where
  -- What keeps the option and the files keeps it.
  from_fields :
      {A : Type 0} {m : Op F A}
      → ((s : Server F) → (m s).1.read_only ≡ s.read_only)
      → ((s : Server F) → (m s).1.files ≡ s.files)
      → Keeps (IsFrozen f) m
  from_fields k l = record {
    keep = λ s h. record { locked = rw (k s) h.locked; same_files = rw (l s) h.same_files };
  }

  -- Nothing behind the check of the option is done.
  writable_stops : {A : Type 0} (k : Unit {0} → Op F A) → Keeps (IsFrozen f) (writable >>= k)
  unfolding writable ◌>>=◌
  writable_stops k = record {
    keep = λ s h. rw (h.locked) (record { locked = refl; same_files = h.same_files });
  }

  module _ {H : Type 0} (fs : FileSystem F H) (o : Outside) where
    pub IsFrozen-IsFree : IsFree fs o (IsFrozen f)
    unfolding now check_context is_done find_attrs put_attrs put_missing find_listing put_listing
    IsFrozen-IsFree = record {
      now_keeps = from_fields (λ s. refl) (λ s. refl);
      context_keeps =
          >>=-Keeps (from_fields (λ s. refl) (λ s. refl)) (λ late. search (reading_laws));
      find_keeps = λ p. from_fields (λ s. refl) (λ s. refl);
      put_keeps = λ p a. from_fields (λ s. refl) (λ s. refl);
      missing_keeps = λ p. from_fields (λ s. refl) (λ s. refl);
      found_keeps = λ p. from_fields (λ s. ground arith) (λ s. ground arith);
      listed_keeps = λ p l. from_fields (λ s. ground arith) (λ s. ground arith);
    }

    steady : IsSteady fs o (IsFrozen f)
    steady = free-IsSteady fs o (IsFrozen f) IsFrozen-IsFree

    write-Keeps :
        (n : Option NfsNode) (x : ℤ) (d : Option (List ℕ)) → Keeps (IsFrozen f) (write fs o n x d)
    unfolding write
    write-Keeps n x d = search (reading_laws, writable_stops)

    create-Keeps :
        (n : Option NfsNode) (m : List ℕ) (a : Option NfsAttrs)
        → Keeps (IsFrozen f) (create fs o n m a)
    unfolding create
    create-Keeps n m a = search (reading_laws, writable_stops)

    remove-Keeps : (n : Option NfsNode) (m : List ℕ) → Keeps (IsFrozen f) (remove fs o n m)
    unfolding remove
    remove-Keeps n m = search (reading_laws, writable_stops)

    rename-Keeps :
        (n : Option NfsNode) (m : List ℕ) (p : Option NfsNode) (q : List ℕ)
        → Keeps (IsFrozen f) (rename fs o n m p q)
    unfolding rename
    rename-Keeps n m p q = search (reading_laws, writable_stops)

    symlink-Keeps :
        (n : Option NfsNode) (m t : List ℕ) (a : Option NfsAttrs)
        → Keeps (IsFrozen f) (symlink fs o n m t a)
    unfolding symlink
    symlink-Keeps n m t a = search (reading_laws, writable_stops)

    serve-IsFrozen :
        (r : Request) (s : Server F) → IsOther r → IsFrozen f s → IsFrozen f (serve fs o r s)
    unfolding serve
    serve-IsFrozen (look_up p) s other h = (lookup-Keeps fs o (IsFrozen f) steady p).keep s h
    serve-IsFrozen (getting_attr n) s other h = (get_attr-Keeps fs o (IsFrozen f) steady n).keep s h
    serve-IsFrozen (getting_link n) s other h = (readlink-Keeps fs o (IsFrozen f) steady n).keep s h
    serve-IsFrozen (listing n) s other h = (read_dir-Keeps fs o (IsFrozen f) steady n).keep s h
    serve-IsFrozen (listing_plus n) s other h =
        (read_dir_plus-Keeps fs o (IsFrozen f) IsFrozen-IsFree n).keep s h
    serve-IsFrozen (setting_attr n a) s other h = elim other [ ]
    serve-IsFrozen (reading n x c) s other h = (read-Keeps fs o (IsFrozen f) steady n x c).keep s h
    serve-IsFrozen (writing n x d) s other h = (write-Keeps n x d).keep s h
    serve-IsFrozen (creating n m a) s other h = (create-Keeps n m a).keep s h
    serve-IsFrozen (removing n m) s other h = (remove-Keeps n m).keep s h
    serve-IsFrozen (renaming n m p q) s other h = (rename-Keeps n m p q).keep s h
    serve-IsFrozen (linking n m t a) s other h = (symlink-Keeps n m t a).keep s h

  module _ {H : Type 0} (fs : FileSystem F H) (o : Outside) where
    serve_all-IsFrozen :
        (rs : List Request) (s : Server F)
        → All IsOther rs
        → IsFrozen f s
        → IsFrozen f (serve_all fs o rs s)
    unfolding serve_all
    serve_all-IsFrozen [] s other h = h
    serve_all-IsFrozen (r ∷ rs) s other h =
        serve_all-IsFrozen rs (serve fs o r s) other.1 (serve-IsFrozen fs o r s other.0 h)

-- In a read-only export no sequence of requests changes the files or the option, whatever they ask
-- for, if none of them is a SetAttr.
pub serve_all-read_only :
    {F H : Type 0} (fs : FileSystem F H) (o : Outside) (rs : List Request) (s : Server F)
    → All IsOther rs
    → s.read_only ≡ true
    → ((serve_all fs o rs s).files ≡ s.files) × ((serve_all fs o rs s).read_only ≡ true)
serve_all-read_only fs o rs s other h =
    let k = serve_all-IsFrozen s.files fs o rs s other (record { locked = h; same_files = refl }) in
    (k.same_files, k.locked)
