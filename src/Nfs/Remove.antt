-- ===== src/Nfs/Remove.antt =====
-- nfs_proc_remove.go: REMOVE, RMDIR, RENAME and LINK.
use absnfs.Prelude.{ℕ, ◌⊎◌, inl, inr, some, List, ◌++◌, ◌||◌, nat_beq, if◌then◌else◌}
use absnfs.Attrs.{NfsAttrs}
use absnfs.Xdr.{encode_uint32, decode_file_handle, decode_string}
use absnfs.Ops.{
  Failure, permission, not_exist, not_supported, FileInfo, FileSystem, Outside, NfsNode, map_error,
  call, look,
}
use absnfs.Ops.Caches.{drop_attrs, drop_listing}
use absnfs.Ops.Nodes.{get_attr}
use absnfs.Ops.Entries.{remove, rename}
use absnfs.Paths.{nfs_ok, validate_filename, join}
use absnfs.Nfs.{
  Answer, Step, pure, answer, ◌>>=◌, ◌>>◌, replied, check, check_writable, decode, run, demand,
  lookup_node, is_dir, garbage_args, nfserr_stale, nfserr_rofs, nfserr_acces, nfserr_notdir,
  nfserr_noent, nfserr_exist, nfserr_io, nfserr_notempty, nfs_error_with_wcc,
  nfs_error_with_double_wcc, nfs_error_with_post_op_and_wcc, encode_wcc_data,
}
use absnfs.Nfs.Data.{attrs_or, failed}
use absnfs.Nfs.Create.{discard}

-- The status of an error of `fs.Remove` on a directory.
unfoldable pub rmdir_status : Failure → ℕ
rmdir_status permission = nfserr_acces
rmdir_status not_exist = nfserr_noent
rmdir_status e =
    let code = map_error (some e) in
    if nat_beq code nfserr_exist || nat_beq code nfserr_io then nfserr_notempty else code

module _ {F H : Type 0} (fs : FileSystem F H) (o : Outside) where
  -- The end of a change: the attributes of the directory before and after it.
  unfoldable pub changed : NfsAttrs → NfsNode → Step F Answer
  changed pre dir = do
    post ← demand nfs_error_with_wcc (get_attr fs o (some dir))
    pure (replied (encode_uint32 nfs_ok ++ encode_wcc_data pre post))

  unfoldable pub removed : NfsAttrs → NfsNode → Failure ⊎ Unit {0} → Step F Answer
  removed pre dir (inl e) = failed fs o (map_error (some e)) pre dir
  removed pre dir (inr u) = changed pre dir

  unfoldable pub handle_remove : Step F Answer
  handle_remove = do
    check_writable (nfs_error_with_wcc nfserr_rofs)
    h ← decode decode_file_handle (replied (nfs_error_with_wcc garbage_args))
    name ← decode decode_string (replied (nfs_error_with_wcc garbage_args))
    check (nat_beq (validate_filename name) nfs_ok) (nfs_error_with_wcc (validate_filename name))
    dir ← lookup_node h (nfs_error_with_wcc nfserr_stale)
    check (is_dir dir.attrs.mode) (nfs_error_with_wcc nfserr_notdir)
    pre ← demand nfs_error_with_wcc (get_attr fs o (some dir))
    r ← run (remove fs o (some dir) name)
    removed pre dir r

  unfoldable pub removed_dir : NfsAttrs → NfsNode → List ℕ → Failure ⊎ Unit {0} → Step F Answer
  removed_dir pre dir path (inl e) = failed fs o (rmdir_status e) pre dir
  removed_dir pre dir path (inr u) = do
    demand nfs_error_with_wcc (drop_attrs path)
    demand nfs_error_with_wcc (drop_attrs dir.path)
    demand nfs_error_with_wcc (drop_listing dir.path)
    demand nfs_error_with_wcc (drop_listing path)
    changed pre dir

  -- RMDIR, by what Stat says of the path.
  unfoldable pub remove_dir : NfsAttrs → NfsNode → List ℕ → Failure ⊎ FileInfo → Step F Answer
  remove_dir pre dir path (inl e) =
      answer (replied (encode_uint32 nfserr_noent ++ encode_wcc_data pre pre))
  remove_dir pre dir path (inr info) = do
    check (is_dir info.mode) (encode_uint32 nfserr_notdir ++ encode_wcc_data pre pre)
    r ← run (call (fs.remove path))
    removed_dir pre dir path r

  unfoldable pub handle_rmdir : Step F Answer
  handle_rmdir = do
    check_writable (nfs_error_with_wcc nfserr_rofs)
    h ← decode decode_file_handle (replied (nfs_error_with_wcc garbage_args))
    name ← decode decode_string (replied (nfs_error_with_wcc garbage_args))
    check (nat_beq (validate_filename name) nfs_ok) (nfs_error_with_wcc nfserr_acces)
    dir ← lookup_node h (nfs_error_with_wcc nfserr_stale)
    check (is_dir dir.attrs.mode) (nfs_error_with_wcc nfserr_notdir)
    pre ← demand nfs_error_with_wcc (get_attr fs o (some dir))
    r ← run (look (λ f. fs.stat f (join dir.path name)))
    remove_dir pre dir (join dir.path name) r

  unfoldable pub renamed :
      NfsAttrs → NfsAttrs → NfsNode → NfsNode → Failure ⊎ Unit {0} → Step F Answer
  renamed pre_src pre_dst src dst (inl e) = do
    r ← run (get_attr fs o (some src))
    post_src ← attrs_or fs o pre_src r
    q ← run (get_attr fs o (some dst))
    post_dst ← attrs_or fs o pre_dst q
    pure (
        replied (
          encode_uint32 (map_error (some e))
          ++ (encode_wcc_data pre_src post_src ++ encode_wcc_data pre_dst post_dst)))
  renamed pre_src pre_dst src dst (inr u) = do
    post_src ← demand nfs_error_with_double_wcc (get_attr fs o (some src))
    post_dst ← demand nfs_error_with_double_wcc (get_attr fs o (some dst))
    pure (
        replied (
          encode_uint32 nfs_ok
          ++ (encode_wcc_data pre_src post_src ++ encode_wcc_data pre_dst post_dst)))

  unfoldable pub handle_rename : Step F Answer
  handle_rename = do
    check_writable (nfs_error_with_double_wcc nfserr_rofs)
    h ← decode decode_file_handle (replied (nfs_error_with_double_wcc garbage_args))
    name ← decode decode_string (replied (nfs_error_with_double_wcc garbage_args))
    check (nat_beq (validate_filename name) nfs_ok)
        (nfs_error_with_double_wcc (validate_filename name))
    h' ← decode decode_file_handle (replied (nfs_error_with_double_wcc garbage_args))
    name' ← decode decode_string (replied (nfs_error_with_double_wcc garbage_args))
    check (nat_beq (validate_filename name') nfs_ok)
        (nfs_error_with_double_wcc (validate_filename name'))
    src ← lookup_node h (nfs_error_with_double_wcc nfserr_stale)
    dst ← lookup_node h' (nfs_error_with_double_wcc nfserr_stale)
    pre_src ← demand nfs_error_with_double_wcc (get_attr fs o (some src))
    pre_dst ← demand nfs_error_with_double_wcc (get_attr fs o (some dst))
    r ← run (rename fs o (some src) name (some dst) name')
    renamed pre_src pre_dst src dst r

unfoldable pub handle_link : {F : Type 0} → Step F Answer
handle_link = do
  discard decode_file_handle
  discard decode_file_handle
  discard decode_string
  pure (replied (nfs_error_with_post_op_and_wcc (map_error (some not_supported))))
