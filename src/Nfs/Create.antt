-- ===== src/Nfs/Create.antt =====
-- nfs_proc_create.go: CREATE, MKDIR, SYMLINK and MKNOD.
use absnfs.Prelude.{
  ℕ, ◌+◌, ◌%◌, ◌^◌, Bool, false, not, ◌⊎◌, inl, inr, none, some, List, [], ◌++◌, nat_beq,
  if◌then◌else◌, ◌==◌, bytes_eq,
}
use absnfs.Prelude.Int.{pos}
use absnfs.Attrs.{NfsAttrs, zero_time}
use absnfs.Xdr as X
use absnfs.Xdr.{
  encode_uint32, encode_file_handle, decode_file_handle, decode_string, decode_uint32, read_full,
}
use absnfs.Ops.{Failure, FileSystem, Outside, NfsNode, map_error, call, attempt}
use absnfs.Ops.Nodes.{get_attr, lookup}
use absnfs.Ops.Entries.{create, symlink, has_element}
use absnfs.Paths.{
  nfs_ok, nfserr_inval, validate_filename, validate_mode, join, starts_with_slash, split_slash,
  dot_dot,
}
use absnfs.Nfs.{
  Caller, Answer, Step, pure, ◌>>=◌, ◌>>◌, replied, check, check_writable, decode, run, demand,
  lookup_node, allocate, garbage_args, nfserr_stale, nfserr_rofs, nfserr_acces, nfserr_notsupp,
  nfs_error_with_wcc, encode_post_op_attr, encode_wcc_data,
}
use absnfs.Nfs.Sattr.{Sattr3, keep, decode_sattr3}
use absnfs.Nfs.Attributes.{id_for, or_old}
use absnfs.Nfs.Data.{attrs_or, failed}

-- How CREATE makes the file: with these attributes, exclusively, or by a code that is not known,
-- which the code takes for no attributes at all.
pub data CreateHow : Type 0 where
  by_sattr : Sattr3 → CreateHow
  exclusive without_attrs : CreateHow

unfoldable pub decode_create_how : ℕ → X.Decoder CreateHow
decode_create_how how =
    if nat_beq how 0
    then X.◌>>=◌ decode_sattr3 (λ a. X.pure (by_sattr a))
    else if nat_beq how 1
    then X.◌>>=◌ decode_sattr3 (λ a. X.pure (by_sattr a))
    else if nat_beq how 2
    then X.◌>>=◌ (read_full 8) (λ verf. X.pure exclusive)
    else X.pure without_attrs

abbrev pub no_sattr : Sattr3
no_sattr = record { mode = none; uid = none; gid = none; size = none; atime = keep; mtime = keep }

abbrev pub asked : CreateHow → Sattr3
asked (by_sattr a) = a
asked exclusive = no_sattr
asked without_attrs = no_sattr

-- The attributes of a new node: the caller's ids, or those that are asked for where it is root.
unfoldable pub new_attrs : Caller → Sattr3 → ℕ → NfsAttrs
new_attrs c sattr mode = record {
  mode = mode;
  size = pos 0;
  file_id = 0;
  mtime = zero_time;
  atime = zero_time;
  uid = id_for c sattr.uid c.uid;
  gid = id_for c sattr.gid c.gid;
  valid_until = zero_time;
}

-- `os.IsExist` does not look into the errors that Create wraps with fmt.Errorf, and the others are
-- not about a file that exists.
unfoldable pub is_exist : Failure → Bool
is_exist e = false

-- The reply of a procedure that made a node.
unfoldable pub created_reply : ℕ → NfsAttrs → NfsAttrs → NfsAttrs → List ℕ
created_reply h attrs pre post =
    encode_uint32 nfs_ok
    ++ (encode_uint32 1
        ++ (encode_file_handle h ++ (encode_post_op_attr attrs ++ encode_wcc_data pre post)))

module _ {F H : Type 0} (fs : FileSystem F H) (o : Outside) where
  -- The end of a procedure that made a node.
  unfoldable pub announce : NfsAttrs → NfsNode → NfsNode → Step F Answer
  announce pre dir new = do
    post ← demand nfs_error_with_wcc (get_attr fs o (some dir))
    h ← allocate new
    pure (replied (created_reply h new.attrs pre post))

  unfoldable pub existing : NfsAttrs → NfsNode → Failure → Failure ⊎ NfsNode → Step F Answer
  existing pre dir e (inl e') = failed fs o (map_error (some e)) pre dir
  existing pre dir e (inr old) = do
    r ← run (get_attr fs o (some dir))
    post ← attrs_or fs o pre r
    h ← allocate old
    pure (replied (created_reply h old.attrs pre post))

  unfoldable pub created :
      CreateHow → NfsAttrs → NfsNode → List ℕ → Failure ⊎ NfsNode → Step F Answer
  created how pre dir name (inr new) = announce pre dir new
  created exclusive pre dir name (inl e) =
      if is_exist e
      then run (lookup fs o (join dir.path name)) >>= existing pre dir e
      else failed fs o (map_error (some e)) pre dir
  created _ pre dir name (inl e) = failed fs o (map_error (some e)) pre dir

  unfoldable pub handle_create : Caller → Step F Answer
  handle_create c = do
    check_writable (nfs_error_with_wcc nfserr_rofs)
    h ← decode decode_file_handle (replied (nfs_error_with_wcc garbage_args))
    name ← decode decode_string (replied (nfs_error_with_wcc garbage_args))
    check (nat_beq (validate_filename name) nfs_ok) (nfs_error_with_wcc (validate_filename name))
    code ← decode decode_uint32 (replied (nfs_error_with_wcc garbage_args))
    how ← decode (decode_create_how code) (replied (nfs_error_with_wcc garbage_args))
    let mode = or_old (asked how).mode 420
    check (nat_beq (validate_mode mode) nfs_ok) (nfs_error_with_wcc (validate_mode mode))
    dir ← lookup_node h (nfs_error_with_wcc nfserr_stale)
    pre ← demand nfs_error_with_wcc (get_attr fs o (some dir))
    r ← run (create fs o (some dir) name (some (new_attrs c (asked how) mode)))
    created how pre dir name r

  -- MKDIR, behind the call of Mkdir: the error of Chown is dropped, no cache is told.
  unfoldable pub made_dir :
      Caller → Sattr3 → NfsAttrs → NfsNode → List ℕ → Failure ⊎ Unit {0} → Step F Answer
  made_dir c sattr pre dir path (inl e) = failed fs o (map_error (some e)) pre dir
  made_dir c sattr pre dir path (inr u) = do
    demand nfs_error_with_wcc
        (attempt (fs.chown path (id_for c sattr.uid c.uid) (id_for c sattr.gid c.gid)))
    new ← demand nfs_error_with_wcc (lookup fs o path)
    announce pre dir new

  unfoldable pub handle_mkdir : Caller → Step F Answer
  handle_mkdir c = do
    check_writable (nfs_error_with_wcc nfserr_rofs)
    h ← decode decode_file_handle (replied (nfs_error_with_wcc garbage_args))
    name ← decode decode_string (replied (nfs_error_with_wcc garbage_args))
    check (nat_beq (validate_filename name) nfs_ok) (nfs_error_with_wcc (validate_filename name))
    sattr ← decode decode_sattr3 (replied (nfs_error_with_wcc garbage_args))
    let mode = or_old sattr.mode 493
    check (nat_beq (validate_mode mode) nfs_ok) (nfs_error_with_wcc (validate_mode mode))
    dir ← lookup_node h (nfs_error_with_wcc nfserr_stale)
    pre ← demand nfs_error_with_wcc (get_attr fs o (some dir))
    r ← run (call (fs.mkdir (join dir.path name) mode))
    made_dir c sattr pre dir (join dir.path name) r

  unfoldable pub made_link :
      Caller → Sattr3 → NfsAttrs → NfsNode → List ℕ → Failure ⊎ NfsNode → Step F Answer
  made_link c sattr pre dir name (inl e) = failed fs o (map_error (some e)) pre dir
  made_link c sattr pre dir name (inr new) = do
    demand nfs_error_with_wcc (
        attempt
          (fs.lchown (join dir.path name) (id_for c sattr.uid c.uid) (id_for c sattr.gid c.gid)))
    announce pre dir new

  -- The target of a link must be relative, without an element `..`. The type bit of a link is set.
  unfoldable pub handle_symlink : Caller → Step F Answer
  handle_symlink c = do
    check_writable (nfs_error_with_wcc nfserr_rofs)
    h ← decode decode_file_handle (replied (nfs_error_with_wcc garbage_args))
    name ← decode decode_string (replied (nfs_error_with_wcc garbage_args))
    check (nat_beq (validate_filename name) nfs_ok) (nfs_error_with_wcc (validate_filename name))
    sattr ← decode decode_sattr3 (replied (nfs_error_with_wcc garbage_args))
    target ← decode decode_string (replied (nfs_error_with_wcc garbage_args))
    check (not (target == [])) (nfs_error_with_wcc nfserr_inval)
    check (not (starts_with_slash target)) (nfs_error_with_wcc nfserr_acces)
    check (not (has_element dot_dot (split_slash target))) (nfs_error_with_wcc nfserr_acces)
    dir ← lookup_node h (nfs_error_with_wcc nfserr_stale)
    pre ← demand nfs_error_with_wcc (get_attr fs o (some dir))
    let mode = or_old sattr.mode 511 % 2 ^ 12 + 2 ^ 27
    r ← run (symlink fs o (some dir) name target (some (new_attrs c sattr mode)))
    made_link c sattr pre dir name r

-- An argument that is read and thrown away, as far as it can be read.
unfoldable pub discard : {F A : Type 0} → X.Decoder A → Step F (Unit {0})
discard d x = (absnfs.Nfs.going tt, record x { body = (d x.body).1 })

unfoldable pub handle_mknod : {F : Type 0} → Step F Answer
handle_mknod = do
  discard decode_file_handle
  discard decode_string
  discard decode_uint32
  pure (replied (nfs_error_with_wcc nfserr_notsupp))
