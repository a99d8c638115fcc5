-- ===== src/Ops/Entries/Listing.antt =====
-- operations.go: ReadDir and ReadDirPlus.
use absnfs.Prelude.{
  ℕ, ◌||◌, ◌⊎◌, inl, inr, Option, none, some, List, [], ◌∷◌, if◌then◌else◌, ◌==◌, bytes_eq,
}
use absnfs.Attrs.{refresh, is_valid}
use absnfs.Cache.Attr.{Found, hit, nil_panic}
use absnfs.Paths.{dot, dot_dot}
use absnfs.Ops.{
  Failure, nil_dereference, FileInfo, FileSystem, read_only_access, Outside, NfsNode, Op, pure,
  fail, non_nil, look, ◌>>=◌, ◌>>◌,
}
use absnfs.Ops.Caches.{now, check_context, find_attrs, put_attrs, find_listing, put_listing}
use absnfs.Ops.Nodes.{attrs_of, lookup}
use absnfs.Ops.Entries.{path_in}

-- What is done without, if it fails. A panic is no failure.
abbrev pub skipped : {A : Type 0} → Failure ⊎ A → Failure ⊎ Option A
skipped (inl nil_dereference) = inl nil_dereference
skipped (inl e) = inr none
skipped (inr a) = inr (some a)

unfoldable pub skip_failure : {F A : Type 0} → Op F A → Op F (Option A)
skip_failure m s = (skipped (m s).0, (m s).1)

abbrev pub add : Option NfsNode → List NfsNode → List NfsNode
add none nodes = nodes
add (some node) nodes = node ∷ nodes

module _ {F H : Type 0} (fs : FileSystem F H) (o : Outside) where
  unfoldable pub entry_node : NfsNode → List ℕ → Op F (Option NfsNode)
  entry_node dir name =
      if name == dot || name == dot_dot
      then pure none
      else skip_failure (path_in dir name >>= lookup fs o)

  unfoldable pub list_nodes : NfsNode → List FileInfo → Op F (List NfsNode)
  list_nodes dir [] = pure []
  list_nodes dir (entry ∷ entries) = do
    first ← entry_node dir entry.name
    rest ← list_nodes dir entries
    pure (add first rest)

  -- The listing is not in the cache.
  unfoldable pub read_listing : NfsNode → Op F (List FileInfo)
  read_listing dir = do
    file ← look (λ f. fs.open_file read_only_access f dir.path)
    entries ← look (λ f. fs.readdir f file)
    put_listing o dir.path entries
    pure entries

  abbrev pub listing_or_read : NfsNode → Option (List FileInfo) → Op F (List FileInfo)
  listing_or_read dir none = read_listing dir
  listing_or_read dir (some entries) = pure entries

  unfoldable pub read_dir : Option NfsNode → Op F (List NfsNode)
  read_dir pointer = do
    dir ← non_nil pointer
    check_context o
    cached ← find_listing o dir.path
    entries ← listing_or_read dir cached
    list_nodes dir entries

  -- ReadDirPlus uses Stat, which follows a symbolic link, and sets no FileId.
  unfoldable pub by_stat : NfsNode → Failure ⊎ FileInfo → Op F NfsNode
  by_stat node (inl e) = pure node
  by_stat node (inr info) = do
    t ← now o
    let attrs = refresh t (attrs_of 0 node.attrs.uid node.attrs.gid info)
    put_attrs o node.path attrs
    pure (record { path = node.path; attrs = attrs })

  abbrev stat_node : NfsNode → Op F NfsNode
  stat_node node = look (λ f. inr (fs.stat f node.path)) >>= by_stat node

  unfoldable pub by_cached : NfsNode → Found → Op F NfsNode
  by_cached node (hit attrs) = do t ← now o; if is_valid t attrs then pure node else stat_node node
  by_cached node nil_panic = fail nil_dereference
  by_cached node _ = stat_node node

  unfoldable pub stat_nodes : List NfsNode → Op F (List NfsNode)
  stat_nodes [] = pure []
  stat_nodes (node ∷ nodes) = do
    found ← find_attrs o node.path
    first ← by_cached node found
    rest ← stat_nodes nodes
    pure (first ∷ rest)

  unfoldable pub read_dir_plus : Option NfsNode → Op F (List NfsNode)
  read_dir_plus pointer = do nodes ← read_dir pointer; stat_nodes nodes
