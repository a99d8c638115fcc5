-- ===== src/Nfs/Listing.antt =====
-- nfs_proc_dir.go: READDIR and READDIRPLUS.
pub mod Pages
pub mod Client
use absnfs.Prelude.{
  ℕ, suc, ◌-◌, Bool, true, false, ◌&&◌, some, List, [], ◌∷◌, ◌++◌, length, ltb, leb, if◌then◌else◌,
  ◌==◌, bytes_eq,
}
use absnfs.Attrs.{NfsAttrs}
use absnfs.Cache.Lru.{FilePath}
use absnfs.Cache.ChildOf.{slash}
use absnfs.Xdr.{
  encode_uint32, encode_uint64, encode_string, encode_file_handle, decode_file_handle,
  decode_uint32, decode_uint64, read_full,
}
use absnfs.Ops.{FileSystem, Outside, NfsNode}
use absnfs.Ops.Nodes.{get_attr}
use absnfs.Ops.Entries.Listing.{read_dir, read_dir_plus}
use absnfs.Paths.{nfs_ok, split_slash, dot}
use absnfs.Nfs.{
  Caller, Answer, Step, pure, ◌>>=◌, ◌>>◌, replied, check, decode, demand, lookup_node, allocate,
  is_dir, garbage_args, nfserr_stale, nfserr_delay, nfserr_notdir, nfs_error_with_post_op,
  encode_post_op_attr,
}

-- The last element that is not empty.
abbrev last_element : List ℕ → List (List ℕ) → List ℕ
last_element best [] = best
last_element best (c ∷ cs) = last_element (if c == [] then best else c) cs

-- path.Base.
unfoldable pub base : FilePath → List ℕ
base [] = dot
base (b ∷ p) = last_element (slash ∷ []) (split_slash (b ∷ p))

-- The size that a reply may have before the next entry: a margin is taken off, down to a minimum.
abbrev pub max_reply_size : ℕ → ℕ → ℕ → ℕ
max_reply_size margin least count = if ltb (count - margin) least then least else count - margin

-- An entry of READDIR. `i` is its index, and the cookie behind it is the next one.
unfoldable pub encode_entry : ℕ → NfsNode → List ℕ
unfolding base
encode_entry i entry =
    encode_uint32 1
    ++ (encode_uint64 entry.attrs.file_id
        ++ (encode_string (base entry.path) ++ encode_uint64 (suc i)))

-- The end of a list of entries, and whether the directory ends there.
abbrev pub list_end : Bool → List ℕ
list_end reached_limit = encode_uint32 0 ++ encode_uint32 (if reached_limit then 0 else 1)

-- The loop of READDIR from index `i` on, with what is in the buffer.
unfoldable pub entries_loop : ℕ → ℕ → ℕ → List NfsNode → List ℕ → List ℕ
unfolding encode_entry
entries_loop cookie max i [] buf = buf ++ list_end false
entries_loop cookie max i (entry ∷ entries) buf =
    if ltb i cookie
    then entries_loop cookie max (suc i) entries buf
    else if leb max (length buf)
    then buf ++ list_end true
    else entries_loop cookie max (suc i) entries (buf ++ encode_entry i entry)

-- What comes before the entries.
unfoldable pub list_head : NfsAttrs → List ℕ → List ℕ
list_head attrs verf = encode_uint32 nfs_ok ++ (encode_post_op_attr attrs ++ verf)

-- An entry of READDIRPLUS but its handle.
unfoldable pub encode_entry_plus : ℕ → NfsNode → List ℕ
unfolding encode_entry
encode_entry_plus i entry = encode_entry i entry ++ encode_post_op_attr entry.attrs

module _ {F : Type 0} where
  -- The loop of READDIRPLUS, with the number of entries so far.
  unfoldable pub entries_plus_loop : ℕ → ℕ → ℕ → ℕ → List NfsNode → List ℕ → Step F (List ℕ)
  entries_plus_loop cookie max n i [] buf = pure (buf ++ list_end false)
  entries_plus_loop cookie max n i (entry ∷ entries) buf = elim (ltb i cookie) [
    | true ↦ entries_plus_loop cookie max n (suc i) entries buf
    | false ↦ elim (leb max (length buf) && ltb 0 n) [
      | true ↦ pure (buf ++ list_end true)
      | false ↦ (do
        h ← allocate entry
        entries_plus_loop cookie max (suc n) (suc i) entries
            (buf ++ (encode_entry_plus i entry ++ (encode_uint32 1 ++ encode_file_handle h))))
    ]
  ]

module _ {F H : Type 0} (fs : FileSystem F H) (o : Outside) where
  unfoldable pub handle_readdir : Caller → Step F Answer
  handle_readdir c = do
    h ← decode decode_file_handle (replied (nfs_error_with_post_op garbage_args))
    cookie ← decode decode_uint64 (replied (nfs_error_with_post_op garbage_args))
    verf ← decode (read_full 8) (replied (nfs_error_with_post_op garbage_args))
    count ← decode decode_uint32 (replied (nfs_error_with_post_op garbage_args))
    check c.admitted (nfs_error_with_post_op nfserr_delay)
    dir ← lookup_node h (nfs_error_with_post_op nfserr_stale)
    check (is_dir dir.attrs.mode) (nfs_error_with_post_op nfserr_notdir)
    entries ← demand nfs_error_with_post_op (read_dir fs o (some dir))
    attrs ← demand nfs_error_with_post_op (get_attr fs o (some dir))
    pure (
        replied
          (entries_loop cookie (max_reply_size 100 128 count) 0 entries (list_head attrs verf)))

  unfoldable pub handle_readdirplus : Caller → Step F Answer
  handle_readdirplus c = do
    h ← decode decode_file_handle (replied (nfs_error_with_post_op garbage_args))
    cookie ← decode decode_uint64 (replied (nfs_error_with_post_op garbage_args))
    verf ← decode (read_full 8) (replied (nfs_error_with_post_op garbage_args))
    dir_count ← decode decode_uint32 (replied (nfs_error_with_post_op garbage_args))
    max_count ← decode decode_uint32 (replied (nfs_error_with_post_op garbage_args))
    check c.admitted (nfs_error_with_post_op nfserr_delay)
    dir ← lookup_node h (nfs_error_with_post_op nfserr_stale)
    check (is_dir dir.attrs.mode) (nfs_error_with_post_op nfserr_notdir)
    entries ← demand nfs_error_with_post_op (read_dir_plus fs o (some dir))
    attrs ← demand nfs_error_with_post_op (get_attr fs o (some dir))
    data' ←
        entries_plus_loop cookie (max_reply_size 200 256 max_count) 0 0 entries
          (list_head attrs verf)
    pure (replied data')
