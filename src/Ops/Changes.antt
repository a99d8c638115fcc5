-- ===== src/Ops/Changes.antt =====
-- What the operations that change the files keep.
use absnfs.Prelude.{ℕ, ◌⊎◌, inl, inr, Option, none, some, List}
use absnfs.Prelude.Int.{ℤ}
use absnfs.Attrs.{NfsAttrs}
use absnfs.Cache.Lru.{FilePath}
use absnfs.Ops.{Failure, FileInfo, FileSystem, Outside, Server, NfsNode, Op, Called, call, attempt}
use absnfs.Ops.Caches.{drop_attrs, drop_missing_in, drop_listing}
use absnfs.Ops.Nodes.{set_attr}
use absnfs.Ops.Content.{write_call, updated, after_write, write}
use absnfs.Ops.Entries.{
  undo_create, create_file, drop_new, drop_renamed, create, remove, rename, symlink,
}
use absnfs.Ops.Keeps.{Keeps, reading_laws}
use absnfs.Ops.Steady.{IsFree, free-IsSteady, lookup-Keeps}

module _ {F H : Type 0} (fs : FileSystem F H) (o : Outside) (I : Server F → Type 0) where
  -- Nothing that an operation does breaks it.
  pub record IsRobust : Type 0 where
    pub free : IsFree fs o I
    pub files_change : (s : Server F) (f : F) → I s → I (record s { files = f })
    pub attrs_drop : (p : FilePath) → Keeps I (drop_attrs p)
    pub missing_drop : (p : FilePath) → Keeps I (drop_missing_in p)
    pub listing_drop : (p : FilePath) → Keeps I (drop_listing p)

  module _ (k : IsRobust) where
    pub call-Keeps : {A : Type 0} (f : F → Called F A) → Keeps I (call f)
    unfolding call
    call-Keeps f = record { keep = λ s h. k.files_change s (f s.files).1 h }

    pub attempt-Keeps : {A : Type 0} (f : F → Called F A) → Keeps I (attempt f)
    unfolding attempt
    attempt-Keeps f = record { keep = λ s h. k.files_change s (f s.files).1 h }

    write_call-Keeps : (file : H) (d : List ℕ) (at : ℤ) → Keeps I (write_call fs o file d at)
    unfolding write_call
    write_call-Keeps file d at = record { keep = λ s h. k.files_change s _ h }

    pub set_attr-Keeps : (p : Option NfsNode) (a : Option NfsAttrs) → Keeps I (set_attr fs o p a)
    unfolding set_attr
    set_attr-Keeps p a =
        let n = k.free.now_keeps in search (reading_laws, call-Keeps, k.attrs_drop) depth 12

    undo_create-Keeps :
        {A : Type 0} (p : FilePath) (e : Failure) → Keeps I (undo_create fs o {A = A} p e)
    unfolding undo_create
    undo_create-Keeps p e = search (reading_laws, attempt-Keeps)

    drop_new-Keeps : (d p : FilePath) → Keeps I (drop_new d p)
    unfolding drop_new
    drop_new-Keeps d p = search (reading_laws, k.attrs_drop, k.missing_drop, k.listing_drop)

    drop_renamed-Keeps : (d p e q : FilePath) → Keeps I (drop_renamed fs o d p e q)
    unfolding drop_renamed
    drop_renamed-Keeps d p e q =
        search (reading_laws, k.attrs_drop, k.missing_drop, k.listing_drop) depth 12

    look_up-Keeps : (p : FilePath) → Keeps I (absnfs.Ops.Nodes.lookup fs o p)
    look_up-Keeps p = lookup-Keeps fs o I (free-IsSteady fs o I k.free) p

    create_file-Keeps :
        (d : FilePath) (a : NfsAttrs) (p : FilePath) → Keeps I (create_file fs o d a p)
    unfolding create_file
    create_file-Keeps d a p =
        search (reading_laws, call-Keeps, undo_create-Keeps, drop_new-Keeps, look_up-Keeps) depth 12

    pub create-Keeps :
        (p : Option NfsNode) (name : List ℕ) (a : Option NfsAttrs) → Keeps I (create fs o p name a)
    unfolding create
    create-Keeps p name a =
        let c = k.free.context_keeps in search (reading_laws, create_file-Keeps) depth 12

    pub remove-Keeps : (p : Option NfsNode) (name : List ℕ) → Keeps I (remove fs o p name)
    unfolding remove
    remove-Keeps p name =
        let c = k.free.context_keeps in
        search (reading_laws, call-Keeps, k.attrs_drop, k.listing_drop) depth 12

    pub rename-Keeps :
        (p : Option NfsNode) (name : List ℕ) (q : Option NfsNode) (new_name : List ℕ)
        → Keeps I (rename fs o p name q new_name)
    unfolding rename
    rename-Keeps p name q new_name =
        let c = k.free.context_keeps in
        search (reading_laws, call-Keeps, drop_renamed-Keeps) depth 12

    pub symlink-Keeps :
        (p : Option NfsNode) (name target : List ℕ) (a : Option NfsAttrs)
        → Keeps I (symlink fs o p name target a)
    unfolding symlink
    symlink-Keeps p name target a =
        search (reading_laws, call-Keeps, drop_new-Keeps, look_up-Keeps) depth 12

    updated-Keeps : (node : NfsNode) (r : Failure ⊎ FileInfo) → Keeps I (updated fs o node r)
    unfolding updated
    updated-Keeps node (inl e) = search (reading_laws)
    updated-Keeps node (inr i) = let n = k.free.now_keeps in search (reading_laws)

    after_write-Keeps :
        (node : NfsNode) (r : ℕ × Option Failure) → Keeps I (after_write fs o node r)
    unfolding after_write
    after_write-Keeps node (n, some e) = search (reading_laws)
    after_write-Keeps node (n, none) =
        let t = k.free.now_keeps in
        search (reading_laws, k.attrs_drop, attempt-Keeps, updated-Keeps) depth 12

    pub write-Keeps :
        (p : Option NfsNode) (offset : ℤ) (d : Option (List ℕ)) → Keeps I (write fs o p offset d)
    unfolding write
    write-Keeps p offset d =
        let c = k.free.context_keeps in
        search (reading_laws, write_call-Keeps, after_write-Keeps, attempt-Keeps) depth 16
