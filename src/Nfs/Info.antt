-- ===== src/Nfs/Info.antt =====
-- nfs_proc_handlers.go and nfs_proc_attr.go: the procedures that answer with the attributes of a
-- node, and with constants behind them.
use absnfs.Prelude.{ℕ, ◌*◌, ◌^◌, some, List, [], ◌∷◌, ◌++◌}
use absnfs.Attrs.Wire.{encode_file_attributes}
use absnfs.Xdr.{encode_uint32, encode_uint64, decode_file_handle}
use absnfs.Rpc.{success}
use absnfs.Ops.{FileSystem, Outside}
use absnfs.Ops.Nodes.{get_attr}
use absnfs.Paths.{nfs_ok}
use absnfs.Nfs.{
  Answer, Step, pure, ◌>>=◌, replied, bare, decode, demand, lookup_node, garbage_args, nfserr_stale,
  nfs_error_reply, nfs_error_with_post_op, encode_post_op_attr,
}

abbrev words : List ℕ → List ℕ
words [] = []
words (v ∷ vs) = encode_uint32 v ++ words vs

abbrev long_words : List ℕ → List ℕ
long_words [] = []
long_words (v ∷ vs) = encode_uint64 v ++ long_words vs

-- The constants of FSSTAT: sizes in bytes, numbers of files, and the seconds they hold for.
abbrev pub fsstat_data : List ℕ
fsstat_data =
    long_words ((2 ^ 30 * 10) ∷ (2 ^ 30 * 5) ∷ (2 ^ 30 * 5) ∷ 1000000 ∷ 900000 ∷ 900000 ∷ [])
    ++ encode_uint32 1

-- The constants of FSINFO. The properties are symbolic links, the same answers for all files, and
-- times that can be set.
abbrev pub fsinfo_data : List ℕ
fsinfo_data =
    words (1048576 ∷ 65536 ∷ 4096 ∷ 1048576 ∷ 65536 ∷ 4096 ∷ 8192 ∷ [])
    ++ (encode_uint64 1099511627776 ++ words (0 ∷ 1000000 ∷ 26 ∷ []))

abbrev pub pathconf_data : List ℕ
pathconf_data = words (1024 ∷ 255 ∷ 1 ∷ 1 ∷ 0 ∷ 1 ∷ [])

unfoldable pub handle_null : {F : Type 0} → Step F Answer
handle_null = pure (bare success)

module _ {F H : Type 0} (fs : FileSystem F H) (o : Outside) where
  unfoldable pub handle_getattr : Step F Answer
  handle_getattr = do
    h ← decode decode_file_handle (replied (nfs_error_reply garbage_args))
    node ← lookup_node h (nfs_error_reply nfserr_stale)
    attrs ← demand nfs_error_reply (get_attr fs o (some node))
    pure (replied (encode_uint32 nfs_ok ++ encode_file_attributes attrs))

  -- The attributes of the node, and then these bytes.
  unfoldable pub answer_with : List ℕ → Step F Answer
  answer_with bytes = do
    h ← decode decode_file_handle (replied (nfs_error_with_post_op garbage_args))
    node ← lookup_node h (nfs_error_with_post_op nfserr_stale)
    attrs ← demand nfs_error_with_post_op (get_attr fs o (some node))
    pure (replied (encode_uint32 nfs_ok ++ (encode_post_op_attr attrs ++ bytes)))

  unfoldable pub handle_fsstat : Step F Answer
  handle_fsstat = answer_with fsstat_data

  unfoldable pub handle_fsinfo : Step F Answer
  handle_fsinfo = answer_with fsinfo_data

  unfoldable pub handle_pathconf : Step F Answer
  handle_pathconf = answer_with pathconf_data
