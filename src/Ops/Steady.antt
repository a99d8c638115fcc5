-- ===== src/Ops/Steady.antt =====
-- What the operations that read keep.
use absnfs.Prelude.{ℕ, ◌⊎◌, inl, inr, Option, none, some, List, [], ◌∷◌}
use absnfs.Prelude.Int.{ℤ}
use absnfs.Attrs.{NfsAttrs}
use absnfs.Cache.Lru.{FilePath}
use absnfs.Cache.Attr.{Found, miss, negative, hit, nil_panic}
use absnfs.Ops.{Failure, FileInfo, FileSystem, Outside, Server, NfsNode}
use absnfs.Ops.Caches.{
  now, check_context, find_attrs, put_attrs, put_missing, find_listing, put_listing,
}
use absnfs.Ops.Nodes.{
  cache_info, note_missing, stat_new, stat_again, by_answer, by_fresh, lookup, get_attr,
}
use absnfs.Ops.Content.{read, read_open}
use absnfs.Ops.Entries.{readlink}
use absnfs.Ops.Entries.Listing.{
  entry_node, list_nodes, read_listing, listing_or_read, read_dir, by_stat, by_cached, stat_nodes,
  read_dir_plus,
}
use absnfs.Ops.Keeps.{Keeps, reading_laws}

module _ {F H : Type 0} (fs : FileSystem F H) (o : Outside) (I : Server F → Type 0) where
  -- What the parts of a reading operation keep.
  pub record IsSteady : Type 0 where
    pub now_keeps : Keeps I (now o)
    pub context_keeps : Keeps I (check_context o)
    pub find_keeps : (p : FilePath) → Keeps I (find_attrs o p)
    pub found_keeps : (p : FilePath) → Keeps I (find_listing o p)
    pub listed_keeps : (p : FilePath) (l : List FileInfo) → Keeps I (put_listing o p l)
    pub stat_new_keeps : (p : FilePath) → Keeps I (stat_new fs o p)
    pub stat_again_keeps : (node : NfsNode) → Keeps I (stat_again fs o node)

  -- The same with the calls that store attributes as they are.
  pub record IsFree : Type 0 where
    pub now_keeps : Keeps I (now o)
    pub context_keeps : Keeps I (check_context o)
    pub find_keeps : (p : FilePath) → Keeps I (find_attrs o p)
    pub found_keeps : (p : FilePath) → Keeps I (find_listing o p)
    pub listed_keeps : (p : FilePath) (l : List FileInfo) → Keeps I (put_listing o p l)
    pub put_keeps : (p : FilePath) (a : NfsAttrs) → Keeps I (put_attrs o p a)
    pub missing_keeps : (p : FilePath) → Keeps I (put_missing o p)

  module _ (k : IsFree) where
    cache_info-Keeps : (p : FilePath) (u g : ℕ) (i : FileInfo) → Keeps I (cache_info fs o p u g i)
    unfolding cache_info
    cache_info-Keeps p u g i = let n = k.now_keeps in search (reading_laws, k.put_keeps)

    note_missing-Keeps : (p : FilePath) (e : Failure) → Keeps I (note_missing fs o p e)
    unfolding note_missing
    note_missing-Keeps p e = search (reading_laws, k.missing_keeps)

    pub free-IsSteady : IsSteady
    unfolding stat_new stat_again
    free-IsSteady = record {
      now_keeps = k.now_keeps;
      context_keeps = k.context_keeps;
      find_keeps = k.find_keeps;
      found_keeps = k.found_keeps;
      listed_keeps = k.listed_keeps;
      stat_new_keeps = λ p. search (reading_laws, note_missing-Keeps, cache_info-Keeps);
      stat_again_keeps = λ node. search (reading_laws, cache_info-Keeps);
    }

    by_stat-Keeps : (node : NfsNode) (r : Failure ⊎ FileInfo) → Keeps I (by_stat fs o node r)
    unfolding by_stat
    by_stat-Keeps node (inl e) = search (reading_laws)
    by_stat-Keeps node (inr i) = let n = k.now_keeps in search (reading_laws, k.put_keeps)

    by_cached-Keeps : (node : NfsNode) (a : Found) → Keeps I (by_cached fs o node a)
    unfolding by_cached
    by_cached-Keeps node miss = search (reading_laws, by_stat-Keeps)
    by_cached-Keeps node negative = search (reading_laws, by_stat-Keeps)
    by_cached-Keeps node (hit a) = let n = k.now_keeps in search (reading_laws, by_stat-Keeps)
    by_cached-Keeps node nil_panic = search (reading_laws)

    pub stat_nodes-Keeps : (nodes : List NfsNode) → Keeps I (stat_nodes fs o nodes)
    unfolding stat_nodes
    stat_nodes-Keeps [] = search (reading_laws)
    stat_nodes-Keeps (node ∷ nodes) =
        let rest = stat_nodes-Keeps nodes in search (reading_laws, k.find_keeps, by_cached-Keeps)

  module _ (k : IsSteady) where
    by_answer-Keeps : (p : FilePath) (a : Found) → Keeps I (by_answer fs o p a)
    unfolding by_answer
    by_answer-Keeps p miss = k.stat_new_keeps p
    by_answer-Keeps p negative = search (reading_laws)
    by_answer-Keeps p (hit a) = search (reading_laws)
    by_answer-Keeps p nil_panic = search (reading_laws)

    pub lookup-Keeps : (p : FilePath) → Keeps I (lookup fs o p)
    unfolding lookup
    lookup-Keeps p = let c = k.context_keeps in search (reading_laws, by_answer-Keeps, k.find_keeps)

    by_fresh-Keeps : (node : NfsNode) (a : Found) → Keeps I (by_fresh fs o node a)
    unfolding by_fresh
    by_fresh-Keeps node miss = k.stat_again_keeps node
    by_fresh-Keeps node negative = k.stat_again_keeps node
    by_fresh-Keeps node (hit a) = let n = k.now_keeps in search (reading_laws, k.stat_again_keeps)
    by_fresh-Keeps node nil_panic = search (reading_laws)

    pub get_attr-Keeps : (p : Option NfsNode) → Keeps I (get_attr fs o p)
    unfolding get_attr
    get_attr-Keeps p = search (reading_laws, by_fresh-Keeps, k.find_keeps)

    pub read-Keeps : (p : Option NfsNode) (offset count : ℤ) → Keeps I (read fs o p offset count)
    unfolding read read_open
    read-Keeps p offset count = let c = k.context_keeps in search (reading_laws) depth 12

    pub readlink-Keeps : (p : Option NfsNode) → Keeps I (readlink fs o p)
    unfolding readlink
    readlink-Keeps p = search (reading_laws)

    entry_node-Keeps : (dir : NfsNode) (name : List ℕ) → Keeps I (entry_node fs o dir name)
    unfolding entry_node
    entry_node-Keeps dir name = search (reading_laws, lookup-Keeps)

    pub list_nodes-Keeps : (dir : NfsNode) (l : List FileInfo) → Keeps I (list_nodes fs o dir l)
    unfolding list_nodes
    list_nodes-Keeps dir [] = search (reading_laws)
    list_nodes-Keeps dir (e ∷ l) =
        let rest = list_nodes-Keeps dir l in search (reading_laws, entry_node-Keeps)

    listing_or_read-Keeps :
        (dir : NfsNode) (l : Option (List FileInfo)) → Keeps I (listing_or_read fs o dir l)
    unfolding read_listing
    listing_or_read-Keeps dir none = search (reading_laws, k.listed_keeps)
    listing_or_read-Keeps dir (some l) = search (reading_laws)

    pub read_dir-Keeps : (p : Option NfsNode) → Keeps I (read_dir fs o p)
    unfolding read_dir
    read_dir-Keeps p =
        let c = k.context_keeps in
        search (reading_laws, k.found_keeps, listing_or_read-Keeps, list_nodes-Keeps)

  pub read_dir_plus-Keeps : IsFree → (p : Option NfsNode) → Keeps I (read_dir_plus fs o p)
  unfolding read_dir_plus
  read_dir_plus-Keeps k p =
      search (reading_laws, read_dir-Keeps (free-IsSteady k), stat_nodes-Keeps k)
