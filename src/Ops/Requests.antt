-- ===== src/Ops/Requests.antt =====
-- The exported operations of operations.go as one type, and a sequence of them.
pub mod Valid
pub mod ReadOnly
use absnfs.Prelude.{ℕ, Bool, true, false, Option, List, [], ◌∷◌}
use absnfs.Prelude.Int.{ℤ}
use absnfs.Attrs.{NfsAttrs}
use absnfs.Cache.Lru.{FilePath}
use absnfs.Ops.{FileSystem, Outside, Server, NfsNode}
use absnfs.Ops.Nodes.{lookup, get_attr, set_attr}
use absnfs.Ops.Content.{read, write}
use absnfs.Ops.Entries.{create, remove, rename, symlink, readlink}
use absnfs.Ops.Entries.Listing.{read_dir, read_dir_plus}
use absnfs.Ops.Keeps.{Keeps}
use absnfs.Ops.Steady.{
  IsSteady, free-IsSteady, lookup-Keeps, get_attr-Keeps, read-Keeps, readlink-Keeps, read_dir-Keeps,
  read_dir_plus-Keeps,
}
use absnfs.Ops.Changes.{
  IsRobust, set_attr-Keeps, create-Keeps, remove-Keeps, rename-Keeps, symlink-Keeps, write-Keeps,
}

pub data Request : Type 0 where
  look_up : FilePath → Request
  getting_attr getting_link listing listing_plus : Option NfsNode → Request
  setting_attr : Option NfsNode → Option NfsAttrs → Request
  reading : Option NfsNode → ℤ → ℤ → Request
  writing : Option NfsNode → ℤ → Option (List ℕ) → Request
  creating : Option NfsNode → List ℕ → Option NfsAttrs → Request
  removing : Option NfsNode → List ℕ → Request
  renaming : Option NfsNode → List ℕ → Option NfsNode → List ℕ → Request
  linking : Option NfsNode → List ℕ → List ℕ → Option NfsAttrs → Request

module _ {F H : Type 0} (fs : FileSystem F H) (o : Outside) where
  -- The server after a request.
  unfoldable pub serve : Request → Server F → Server F
  serve (look_up p) s = (lookup fs o p s).1
  serve (getting_attr n) s = (get_attr fs o n s).1
  serve (getting_link n) s = (readlink fs o n s).1
  serve (listing n) s = (read_dir fs o n s).1
  serve (listing_plus n) s = (read_dir_plus fs o n s).1
  serve (setting_attr n a) s = (set_attr fs o n a s).1
  serve (reading n offset count) s = (read fs o n offset count s).1
  serve (writing n offset d) s = (write fs o n offset d s).1
  serve (creating n name a) s = (create fs o n name a s).1
  serve (removing n name) s = (remove fs o n name s).1
  serve (renaming n name m new_name) s = (rename fs o n name m new_name s).1
  serve (linking n name target a) s = (symlink fs o n name target a s).1

  unfoldable pub serve_all : List Request → Server F → Server F
  serve_all [] s = s
  serve_all (r ∷ rs) s = serve_all rs (serve r s)

  pub serve_all-keeps :
      {I : Server F → Type 0}
      → ((r : Request) (s : Server F) → I s → I (serve r s))
      → (rs : List Request) (s : Server F) → I s
      → I (serve_all rs s)
  unfolding serve_all
  serve_all-keeps k [] s h = h
  serve_all-keeps k (r ∷ rs) s h = serve_all-keeps k rs (serve r s) (k r s h)

  -- Nothing that a request does breaks what nothing that an operation does breaks.
  module _ (I : Server F → Type 0) (k : IsRobust fs o I) where
    steady : IsSteady fs o I
    steady = free-IsSteady fs o I k.free

    pub serve-Keeps : (r : Request) (s : Server F) → I s → I (serve r s)
    unfolding serve
    serve-Keeps (look_up p) s h = (lookup-Keeps fs o I steady p).keep s h
    serve-Keeps (getting_attr n) s h = (get_attr-Keeps fs o I steady n).keep s h
    serve-Keeps (getting_link n) s h = (readlink-Keeps fs o I steady n).keep s h
    serve-Keeps (listing n) s h = (read_dir-Keeps fs o I steady n).keep s h
    serve-Keeps (listing_plus n) s h = (read_dir_plus-Keeps fs o I k.free n).keep s h
    serve-Keeps (setting_attr n a) s h = (set_attr-Keeps fs o I k n a).keep s h
    serve-Keeps (reading n x c) s h = (read-Keeps fs o I steady n x c).keep s h
    serve-Keeps (writing n x d) s h = (write-Keeps fs o I k n x d).keep s h
    serve-Keeps (creating n m a) s h = (create-Keeps fs o I k n m a).keep s h
    serve-Keeps (removing n m) s h = (remove-Keeps fs o I k n m).keep s h
    serve-Keeps (renaming n m p q) s h = (rename-Keeps fs o I k n m p q).keep s h
    serve-Keeps (linking n m t a) s h = (symlink-Keeps fs o I k n m t a).keep s h
