-- ===== src/Ops/Content.antt =====
-- operations.go: Read and Write. The transfer size is positive, so no slice has a negative length.
pub mod Reading
use absnfs.Prelude.{
  ℕ, Bool, not, ◌⊎◌, inl, inr, Option, none, some, List, [], take, length, if◌then◌else◌,
}
use absnfs.Prelude.Int.{ℤ, pos, pos_part, ltb_ℤ, leb_ℤ, ◌-ℤ◌}
use absnfs.Attrs.{NfsAttrs, refresh}
use absnfs.Ops.{
  Failure, plain, FileInfo, FileSystem, read_only_access, write_only_access, Outside, Server,
  NfsNode, Op, pure, fail, non_nil, guard, look, attempt, ◌>>=◌, ◌>>◌,
}
use absnfs.Ops.Caches.{now, check_context, drop_attrs}
use absnfs.Ops.Entries.{writable}

abbrev pub min_ℤ : ℤ → ℤ → ℤ
min_ℤ count limit = if ltb_ℤ limit count then limit else count

-- What Write returns beside an error of WriteAt is not nothing: the number of bytes.
pub record Written : Type 0 where
  pub count : ℕ
  pub error : Option Failure
  pub node : NfsNode

unfoldable pub transfer_size : {F : Type 0} → Op F ℤ
transfer_size s = (inr s.transfer_size, s)

abbrev read_error : List ℕ × Option Failure → Failure ⊎ List ℕ
read_error (bytes, none) = inr bytes
read_error (bytes, some e) = inl e

module _ {F H : Type 0} (fs : FileSystem F H) (o : Outside) where
  -- Read, once the file is open and its size known.
  unfoldable pub read_open : H → ℤ → ℤ → ℤ → Op F (List ℕ)
  read_open file size offset count =
      let remaining = size -ℤ offset in
      if leb_ℤ remaining (pos 0)
      then pure []
      else look (λ f. read_error (fs.read_at f file offset (min_ℤ count remaining)))

  unfoldable pub read : Option NfsNode → ℤ → ℤ → Op F (List ℕ)
  read pointer offset count = do
    node ← non_nil pointer
    guard (not (ltb_ℤ offset (pos 0))) plain
    guard (not (ltb_ℤ count (pos 0))) plain
    check_context o
    limit ← transfer_size
    file ← look (λ f. fs.open_file read_only_access f node.path)
    info ← look (λ f. fs.file_stat f file)
    read_open file info.size offset (min_ℤ count limit)

  unfoldable pub write_call : H → List ℕ → ℤ → Op F (ℕ × Option Failure)
  write_call file data' offset s =
      let r = fs.write_at file data' offset s.files in (inr r.0, record s { files = r.1 })

  -- The node by what Stat answers.
  unfoldable pub updated : NfsNode → Failure ⊎ FileInfo → Op F NfsNode
  updated node (inl e) = pure node
  updated node (inr info) = do
    t ← now o
    pure (record node {
      attrs = refresh t (record node.attrs { size = info.size; mtime = info.mod_time });
    })

  unfoldable pub after_write : NfsNode → ℕ × Option Failure → Op F Written
  after_write node (n, some e) = pure (record { count = n; error = some e; node = node })
  after_write node (n, none) = do
    drop_attrs node.path
    t ← now o
    attempt (fs.chtimes node.path t t)
    r ← look (λ f. inr (fs.stat f node.path))
    node' ← updated node r
    pure (record { count = n; error = none; node = node' })

  -- The deferred Close comes last. Its error is assigned to a variable that is no longer read.
  unfoldable pub write : Option NfsNode → ℤ → Option (List ℕ) → Op F Written
  write pointer offset wanted = do
    node ← non_nil pointer
    guard (not (ltb_ℤ offset (pos 0))) plain
    data' ← non_nil wanted
    writable
    check_context o
    limit ← transfer_size
    file ← look (λ f. fs.open_file write_only_access f node.path)
    n ←
        write_call file
          (if ltb_ℤ limit (pos (length data')) then take (pos_part limit) data' else data') offset
    result ← after_write node n
    attempt (fs.close file)
    pure result
