-- ===== src/Ops/Entries.antt =====
-- operations.go: the operations on a name in a directory, and the listings of a directory.
pub mod Listing
use absnfs.Prelude.{
  ℕ, Bool, true, false, not, ◌||◌, ◌⊎◌, inl, inr, Option, none, some, List, [], ◌∷◌, if◌then◌else◌,
  ◌==◌, bytes_eq,
}
use absnfs.Attrs.{NfsAttrs}
use absnfs.Cache.Lru.{FilePath}
use absnfs.Paths.{PathError, sanitize_path, split_slash, dot_dot, starts_with_slash}
use absnfs.Ops.{
  Failure, plain, permission, FileSystem, Outside, Server, NfsNode, Op, pure, fail, non_nil, call,
  attempt, guard, look, ◌>>=◌, ◌>>◌, recover,
}
use absnfs.Ops.Caches.{check_context, drop_attrs, drop_missing_in, drop_listing}
use absnfs.Ops.Nodes.{lookup, permissions}

-- The error of sanitizePath, wrapped.
abbrev pub wrapped : PathError ⊎ FilePath → Failure ⊎ FilePath
wrapped (inl e) = inl plain
wrapped (inr path) = inr path

abbrev pub has_element : List ℕ → List (List ℕ) → Bool
has_element c [] = false
has_element c (d ∷ cs) = d == c || has_element c cs

module _ {F : Type 0} where
  unfoldable pub writable : Op F (Unit {0})
  writable s = if s.read_only then (inl permission, s) else (inr tt, s)

  unfoldable pub path_in : NfsNode → List ℕ → Op F FilePath
  path_in dir name s = (wrapped (sanitize_path dir.path name), s)

  -- What Create and Symlink drop from the caches.
  unfoldable pub drop_new : FilePath → FilePath → Op F (Unit {0})
  drop_new dir path = do drop_attrs dir; drop_missing_in dir; drop_attrs path; drop_listing dir

module _ {F H : Type 0} (fs : FileSystem F H) (o : Outside) where
  -- An error after the file was created: it is removed again.
  unfoldable pub undo_create : {A : Type 0} → FilePath → Failure → Op F A
  undo_create path e = do attempt (fs.remove path); fail e

  -- Create, once the path is known.
  unfoldable pub create_file : FilePath → NfsAttrs → FilePath → Op F NfsNode
  create_file dir attrs path = do
    file ← call (fs.create path)
    closed ← call (λ f. (inr (fs.close file f).0, (fs.close file f).1))
    recover closed (undo_create path)
    moded ← call (λ f. let r = fs.chmod path (permissions attrs.mode) f in (inr r.0, r.1))
    recover moded (undo_create path)
    drop_new dir path
    lookup fs o path

  unfoldable pub create : Option NfsNode → List ℕ → Option NfsAttrs → Op F NfsNode
  create pointer name wanted = do
    dir ← non_nil pointer
    guard (not (name == [])) plain
    attrs ← non_nil wanted
    writable
    check_context o
    path ← path_in dir name
    create_file dir.path attrs path

  unfoldable pub remove : Option NfsNode → List ℕ → Op F (Unit {0})
  remove pointer name = do
    dir ← non_nil pointer
    guard (not (name == [])) plain
    writable
    check_context o
    path ← path_in dir name
    call (fs.remove path)
    drop_attrs path
    drop_attrs dir.path
    drop_listing dir.path

  -- What Rename drops from the caches.
  unfoldable pub drop_renamed : FilePath → FilePath → FilePath → FilePath → Op F (Unit {0})
  drop_renamed old_dir old_path new_dir new_path = do
    drop_attrs old_path
    drop_attrs new_path
    drop_attrs old_dir
    drop_attrs new_dir
    drop_missing_in old_dir
    drop_missing_in new_dir
    drop_listing old_dir
    drop_listing new_dir

  unfoldable pub rename : Option NfsNode → List ℕ → Option NfsNode → List ℕ → Op F (Unit {0})
  rename old_pointer old_name new_pointer new_name = do
    old_dir ← non_nil old_pointer
    new_dir ← non_nil new_pointer
    guard (not (old_name == [] || new_name == [])) plain
    writable
    check_context o
    old_path ← path_in old_dir old_name
    new_path ← path_in new_dir new_name
    call (fs.rename old_path new_path)
    drop_renamed old_dir.path old_path new_dir.path new_path

  unfoldable pub symlink : Option NfsNode → List ℕ → List ℕ → Option NfsAttrs → Op F NfsNode
  symlink pointer name target wanted = do
    dir ← non_nil pointer
    guard (not (name == [])) plain
    guard (not (target == [])) plain
    non_nil wanted
    writable
    path ← path_in dir name
    call (fs.symlink target path)
    drop_new dir.path path
    lookup fs o path

  -- A relative target must not have an element `..`.
  unfoldable pub is_safe_target : List ℕ → Bool
  is_safe_target target = starts_with_slash target || not (has_element dot_dot (split_slash target))

  unfoldable pub readlink : Option NfsNode → Op F (List ℕ)
  readlink pointer = do
    node ← non_nil pointer
    target ← look (λ f. fs.readlink f node.path)
    guard (is_safe_target target) plain
    pure target
