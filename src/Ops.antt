-- ===== src/Ops.antt =====
-- operations.go: what its operations share. A file system (absfs.SymlinkFileSystem) is a record of
-- functions on a state `F`, with open files `H`. Files are opened without O_CREATE and O_TRUNC, so
-- opening changes nothing, and neither does closing a file that was only read. The server's state
-- holds the files, the two caches, the options that the operations read, and how many answers it
-- has had from outside: the clock, and whether the context of a request is done. Logs and metrics
-- are left out.
pub mod Caches
pub mod Nodes
pub mod Content
pub mod Entries
pub mod Keeps
pub mod Steady
pub mod Changes
pub mod Requests
pub mod Coherent
pub mod Tests
use absnfs.Prelude.{ℕ, suc, ◌+◌, Bool, true, false, ◌⊎◌, inl, inr, Option, none, some, List}
use absnfs.Prelude.Int.{ℤ}
use absnfs.Attrs.{NfsAttrs}
use absnfs.Cache.Lru.{FilePath}
use absnfs.Cache.Attr.{AttrCache}
use absnfs.Cache.Dir.{DirCache}

-- An error, by what `errors.Is` and `errors.As` find in it. `plain` wraps nothing that mapError
-- knows. `nil_dereference` is a panic.
pub data Failure : Type 0 where
  plain timed_out deadline invalid_handle not_supported : Failure
  not_exist permission exists_already invalid not_dir is_dir no_space too_big long_name : Failure
  nil_dereference : Failure

-- mapError.
unfoldable pub map_error : Option Failure → ℕ
map_error none = 0
map_error (some invalid_handle) = 10001
map_error (some not_supported) = 10004
map_error (some deadline) = 10013
map_error (some timed_out) = 10013
map_error (some not_exist) = 2
map_error (some permission) = 1
map_error (some exists_already) = 17
map_error (some invalid) = 22
map_error (some not_dir) = 20
map_error (some is_dir) = 21
map_error (some no_space) = 28
map_error (some too_big) = 27
map_error (some long_name) = 63
map_error (some _) = 5

-- What the server reads of an `os.FileInfo`.
pub record FileInfo : Type 0 where
  pub name : List ℕ
  pub mode : ℕ
  pub size : ℤ
  pub mod_time : ℤ

-- What a call answers, and the files after it.
abbrev pub Called : Type 0 → Type 0 → Type 0
Called F A = (Failure ⊎ A) × F

pub data Access : Type 0 where
  read_only_access write_only_access : Access

pub record FileSystem (F H : Type 0) : Type 0 where
  pub lstat : F → FilePath → Failure ⊎ FileInfo
  pub stat : F → FilePath → Failure ⊎ FileInfo
  pub readlink : F → FilePath → Failure ⊎ List ℕ
  pub open_file : Access → F → FilePath → Failure ⊎ H
  pub file_stat : F → H → Failure ⊎ FileInfo
  pub readdir : F → H → Failure ⊎ List FileInfo
  -- The bytes read, and the error, if it is not io.EOF.
  pub read_at : F → H → ℤ → ℤ → List ℕ × Option Failure
  -- The number of bytes written, and the error.
  pub write_at : H → List ℕ → ℤ → F → (ℕ × Option Failure) × F
  pub close : H → F → Called F (Unit {0})
  pub create : FilePath → F → Called F H
  pub chmod : FilePath → ℕ → F → Called F (Unit {0})
  pub chown : FilePath → ℕ → ℕ → F → Called F (Unit {0})
  pub chtimes : FilePath → ℤ → ℤ → F → Called F (Unit {0})
  pub remove : FilePath → F → Called F (Unit {0})
  pub rename : FilePath → FilePath → F → Called F (Unit {0})
  pub symlink : List ℕ → FilePath → F → Called F (Unit {0})
  pub mkdir : FilePath → ℕ → F → Called F (Unit {0})
  pub lchown : FilePath → ℕ → ℕ → F → Called F (Unit {0})
  pub truncate : FilePath → ℕ → F → Called F (Unit {0})

-- The n-th answer of `time.Now()`, the n-th answer of `ctx.Done()`, the FNV hash of a path, and
-- whether the times of two files' attributes, where they are the same instants, differ as structs:
-- in the location or the monotonic reading, which an instant does not have.
pub record Outside : Type 0 where
  pub clock : ℕ → ℤ
  pub context_done : ℕ → Bool
  pub path_hash : FilePath → ℕ
  pub structs_differ : NfsAttrs → NfsAttrs → Bool

pub record Server (F : Type 0) : Type 0 where
  pub files : F
  pub attr_cache : AttrCache
  pub dir_cache : Option (DirCache FileInfo)
  pub read_only : Bool
  pub transfer_size : ℤ
  pub asked : ℕ

-- NFSNode. The map `children` is never filled, and is left out.
pub record NfsNode : Type 0 where
  pub path : FilePath
  pub attrs : NfsAttrs

-- An operation: its error or its value, and the server after it.
abbrev pub Op : Type 0 → Type 0 → Type 0
Op F A = Server F → (Failure ⊎ A) × Server F

module _ {F A : Type 0} where
  unfoldable pub pure : A → Op F A
  pure a s = (inr a, s)

  unfoldable pub fail : Failure → Op F A
  fail e s = (inl e, s)

  -- What is done about an error before it is returned.
  unfoldable pub recover : Failure ⊎ A → (Failure → Op F A) → Op F A
  recover (inr a) f s = (inr a, s)
  recover (inl e) f s = f e s

  -- A pointer that may be nil.
  unfoldable pub non_nil : Option A → Op F A
  non_nil none s = (inl plain, s)
  non_nil (some a) s = (inr a, s)

  -- A call of the file system.
  unfoldable pub call : (F → Called F A) → Op F A
  call f s = let r = f s.files in (r.0, record s { files = r.1 })

module _ {F : Type 0} where
  unfoldable pub guard : Bool → Failure → Op F (Unit {0})
  guard true e s = (inr tt, s)
  guard false e s = (inl e, s)

  -- A read of the files.
  unfoldable pub look : {A : Type 0} → (F → Failure ⊎ A) → Op F A
  look f s = (f s.files, s)

  -- A call whose error is dropped.
  unfoldable pub attempt : {A : Type 0} → (F → Called F A) → Op F (Unit {0})
  attempt f s = (inr tt, record s { files = (f s.files).1 })

module _ {F A B : Type 0} where
  abbrev pub continue : Failure ⊎ A → (A → Op F B) → Op F B
  continue (inr a) f s = f a s
  continue (inl e) f s = (inl e, s)

  infixl 5 ◌>>=◌ ◌>>◌
  unfoldable pub ◌>>=◌ : Op F A → (A → Op F B) → Op F B
  ◌>>=◌ m f s = continue (m s).0 f (m s).1

  abbrev pub ◌>>◌ : Op F A → Op F B → Op F B
  m >> k = m >>= λ _. k
