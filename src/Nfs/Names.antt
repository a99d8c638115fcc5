-- ===== src/Nfs/Names.antt =====
-- nfs_proc_lookup.go: LOOKUP and READLINK.
pub mod Found
use absnfs.Prelude.{ℕ, ◌⊎◌, inl, inr, some, List, ◌++◌, nat_beq}
use absnfs.Attrs.{NfsAttrs}
use absnfs.Xdr.{encode_uint32, encode_file_handle, encode_string, decode_file_handle, decode_string}
use absnfs.Ops.{Failure, FileSystem, Outside, NfsNode, map_error}
use absnfs.Ops.Nodes.{get_attr, lookup}
use absnfs.Ops.Entries.{readlink}
use absnfs.Paths.{nfs_ok, nfserr_inval, validate_filename, join}
use absnfs.Nfs.{
  Answer, Step, pure, answer, ◌>>=◌, ◌>>◌, replied, check, decode, run, demand, lookup_node,
  allocate, is_dir, is_symlink, garbage_args, nfserr_stale, nfserr_acces, nfserr_notdir,
  nfs_error_with_post_op, encode_post_op_attr,
}

-- A status, and the attributes of the directory.
unfoldable pub with_dir_attrs : ℕ → NfsNode → List ℕ
with_dir_attrs status dir = encode_uint32 status ++ encode_post_op_attr dir.attrs

-- The reply of a LOOKUP that found the node.
unfoldable pub found_reply : ℕ → NfsAttrs → NfsNode → List ℕ
found_reply h attrs dir =
    encode_uint32 nfs_ok
    ++ (encode_file_handle h ++ (encode_post_op_attr attrs ++ encode_post_op_attr dir.attrs))

module _ {F H : Type 0} (fs : FileSystem F H) (o : Outside) where
  unfoldable pub found_or_not : NfsNode → Failure ⊎ NfsNode → Step F Answer
  found_or_not dir (inl e) = answer (replied (with_dir_attrs (map_error (some e)) dir))
  found_or_not dir (inr node) = do h ← allocate node; pure (replied (found_reply h node.attrs dir))

  unfoldable pub handle_lookup : Step F Answer
  handle_lookup = do
    h ← decode decode_file_handle (replied (nfs_error_with_post_op garbage_args))
    name ← decode decode_string (replied (nfs_error_with_post_op garbage_args))
    check (nat_beq (validate_filename name) nfs_ok) (nfs_error_with_post_op nfserr_acces)
    dir ← lookup_node h (nfs_error_with_post_op nfserr_stale)
    check (is_dir dir.attrs.mode) (with_dir_attrs nfserr_notdir dir)
    r ← run (lookup fs o (join dir.path name))
    found_or_not dir r

  unfoldable pub handle_readlink : Step F Answer
  handle_readlink = do
    h ← decode decode_file_handle (replied (nfs_error_with_post_op garbage_args))
    node ← lookup_node h (nfs_error_with_post_op nfserr_stale)
    check (is_symlink node.attrs.mode) (nfs_error_with_post_op nfserr_inval)
    target ← demand nfs_error_with_post_op (readlink fs o (some node))
    attrs ← demand nfs_error_with_post_op (get_attr fs o (some node))
    pure (replied (encode_uint32 nfs_ok ++ (encode_post_op_attr attrs ++ encode_string target)))
