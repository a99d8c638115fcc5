-- ===== src/Ops/Nodes.antt =====
-- operations.go: Lookup, GetAttr and SetAttr.
pub mod Answers
use absnfs.Prelude.{
  ℕ, zero, ◌%◌, ◌/◌, ◌^◌, Bool, true, false, not, ◌&&◌, ◌||◌, ◌⊎◌, inl, inr, Option, none, some, [],
  nat_beq, if◌then◌else◌, ◌==◌, bytes_eq,
}
use absnfs.Prelude.Int.{ℤ, ltb_ℤ}
use absnfs.Attrs.{NfsAttrs, zero_time, refresh, is_valid}
use absnfs.Cache.Lru.{FilePath}
use absnfs.Cache.Attr.{Found, miss, negative, hit, nil_panic}
use absnfs.Ops.{
  Failure, plain, not_exist, nil_dereference, FileInfo, FileSystem, Outside, Server, NfsNode, Op,
  pure, fail, non_nil, call, guard, look, ◌>>=◌, ◌>>◌, recover,
}
use absnfs.Ops.Caches.{now, check_context, find_attrs, put_attrs, put_missing, drop_attrs}

-- The attributes of a file by its `os.FileInfo`, before `Refresh`.
abbrev pub attrs_of : ℕ → ℕ → ℕ → FileInfo → NfsAttrs
attrs_of file_id uid gid info = record {
  mode = info.mode;
  size = info.size;
  file_id = file_id;
  mtime = info.mod_time;
  atime = info.mod_time;
  uid = uid;
  gid = gid;
  valid_until = zero_time;
}

abbrev pub is_not_exist : Failure → Bool
is_not_exist not_exist = true
is_not_exist _ = false

-- `m & os.ModePerm`.
abbrev pub permissions : ℕ → ℕ
permissions m = m % 2 ^ 9

-- The same instant.
abbrev pub same_time : ℤ → ℤ → Bool
same_time a b = not (ltb_ℤ a b) && not (ltb_ℤ b a)

-- `IsZero` compares instants, and `!=` structs.
abbrev times_change : Outside → NfsAttrs → NfsAttrs → Bool
times_change o attrs old =
    (not (same_time attrs.atime zero_time) || not (same_time attrs.mtime zero_time))
    && ((not (same_time attrs.mtime old.mtime) || not (same_time attrs.atime old.atime))
        || o.structs_differ attrs old)

module _ {F H : Type 0} (fs : FileSystem F H) (o : Outside) where
  -- The end of Lookup and of GetAttr: the attributes are made, refreshed and put in the cache.
  unfoldable pub cache_info : FilePath → ℕ → ℕ → FileInfo → Op F NfsAttrs
  cache_info path uid gid info = do
    t ← now o
    let attrs = refresh t (attrs_of (o.path_hash path) uid gid info)
    put_attrs o path attrs
    pure attrs

  unfoldable pub note_missing : FilePath → Failure → Op F FileInfo
  note_missing path e = do if is_not_exist e then put_missing o path else pure tt; fail e

  unfoldable pub stat_new : FilePath → Op F NfsNode
  stat_new path = do
    r ← look (λ f. inr (fs.lstat f path))
    info ← recover r (note_missing path)
    attrs ← cache_info path 0 0 info
    pure (record { path = path; attrs = attrs })

  -- What Lookup does with what the cache answers.
  unfoldable pub by_answer : FilePath → Found → Op F NfsNode
  by_answer path miss = stat_new path
  by_answer path negative = fail not_exist
  by_answer path (hit attrs) = pure (record { path = path; attrs = attrs })
  by_answer path nil_panic = fail nil_dereference

  unfoldable pub lookup : FilePath → Op F NfsNode
  lookup path = do
    guard (not (path == [])) plain
    check_context o
    found ← find_attrs o path
    by_answer path found

  unfoldable pub stat_again : NfsNode → Op F NfsAttrs
  stat_again node = do
    info ← look (λ f. fs.lstat f node.path)
    cache_info node.path node.attrs.uid node.attrs.gid info

  -- The cached attributes, if the cache has some and they are fresh.
  unfoldable pub by_fresh : NfsNode → Found → Op F NfsAttrs
  by_fresh node (hit attrs) = do t ← now o; if is_valid t attrs then pure attrs else stat_again node
  by_fresh node nil_panic = fail nil_dereference
  by_fresh node _ = stat_again node

  unfoldable pub get_attr : Option NfsNode → Op F NfsAttrs
  get_attr pointer = do node ← non_nil pointer; found ← find_attrs o node.path; by_fresh node found

  -- SetAttr, which answers with the node as it leaves it.
  unfoldable pub set_attr : Option NfsNode → Option NfsAttrs → Op F NfsNode
  set_attr pointer wanted = do
    node ← non_nil pointer
    attrs ← non_nil wanted
    look (λ f. fs.stat f node.path)
    let old = node.attrs
    if nat_beq (permissions attrs.mode) (permissions old.mode)
        then pure tt
        else call (fs.chmod node.path (permissions attrs.mode))
    if nat_beq attrs.uid old.uid && nat_beq attrs.gid old.gid
        then pure tt
        else call (fs.chown node.path attrs.uid attrs.gid)
    if times_change o attrs old
        then call (fs.chtimes node.path attrs.atime attrs.mtime)
        else pure tt
    t ← now o
    drop_attrs node.path
    pure (record { path = node.path; attrs = refresh t attrs })
