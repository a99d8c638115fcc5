-- ===== src/Nfs/Attributes.antt =====
-- nfs_proc_attr.go: SETATTR and ACCESS.
pub mod Access
use absnfs.Prelude.{
  ℕ, ◌+◌, ◌-◌, ◌*◌, ◌/◌, ◌%◌, ◌^◌, Bool, true, false, ◌&&◌, ◌||◌, not, ◌⊎◌, inl, inr, Option, none,
  some, List, [], ◌∷◌, ◌++◌, nat_beq, leb, if◌then◌else◌,
}
use absnfs.Prelude.Int.{ℤ, pos}
use absnfs.Attrs.{NfsAttrs, zero_time, refresh, invalidate}
use absnfs.Attrs.Wire.{unix32, nanosecond, unix_epoch}
use absnfs.Xdr.{encode_uint32, decode_file_handle, decode_uint32}
use absnfs.Xdr as X
use absnfs.Ops.{Failure, FileInfo, FileSystem, Outside, NfsNode, call, look}
use absnfs.Ops.Caches.{now, drop_attrs}
use absnfs.Ops.Nodes.{get_attr, set_attr}
use absnfs.Paths.{nfs_ok, nfserr_inval}
use absnfs.Nfs.{
  Caller, Answer, Step, pure, ◌>>=◌, ◌>>◌, replied, check, check_writable, decode, run, demand,
  lookup_node, store_attrs, is_dir, is_read_only, garbage_args, nfserr_stale, nfserr_rofs,
  nfserr_not_sync, nfs_error_with_wcc, nfs_error_with_post_op, encode_post_op_attr, encode_wcc_data,
}
use absnfs.Nfs.Sattr.{Sattr3, SetTime, keep, server_time, client_time, unknown_code, decode_sattr3}

abbrev pub has_member : ℕ → List ℕ → Bool
has_member g [] = false
has_member g (a ∷ l) = nat_beq a g || has_member g l

-- The guard of SETATTR: seconds and nanoseconds, if there is one.
unfoldable pub decode_guard : X.Decoder (Option (ℕ × ℕ))
decode_guard = X.◌>>=◌ decode_uint32 (λ flag.
    if nat_beq flag 0
    then X.pure none
    else X.◌>>=◌ decode_uint32 (λ s. X.◌>>=◌ decode_uint32 (λ n. X.pure (some (s, n)))))

unfoldable pub guard_holds : Option (ℕ × ℕ) → NfsAttrs → Bool
guard_holds none pre = true
guard_holds (some (s, n)) pre = nat_beq s (unix32 pre.mtime) && nat_beq n (nanosecond pre.mtime)

-- `sattr.SetMode && sattr.Mode&0x8000 != 0`.
abbrev pub has_bad_mode : Option ℕ → Bool
has_bad_mode none = false
has_bad_mode (some m) = nat_beq (m / 2 ^ 15 % 2) 1

-- The id that is asked for, where the caller is root.
unfoldable pub id_for : Caller → Option ℕ → ℕ → ℕ
id_for c none old = old
id_for c (some v) old = if nat_beq c.uid 0 then v else old

abbrev pub or_old : Option ℕ → ℕ → ℕ
or_old none old = old
or_old (some v) old = v

module _ {F : Type 0} (o : Outside) where
  -- The time to set; the zero time says that none is.
  unfoldable pub time_for : SetTime → Step F ℤ
  time_for keep = pure zero_time
  time_for server_time = demand nfs_error_with_wcc (now o)
  time_for (client_time s n) = pure (pos ((s + unix_epoch) * 1000000000 + n))
  time_for (unknown_code c) = pure zero_time

module _ {F H : Type 0} (fs : FileSystem F H) (o : Outside) where
  -- The attributes of the node by what Stat answers.
  unfoldable pub resized : NfsNode → Failure ⊎ FileInfo → Step F NfsNode
  resized node (inl e) = pure node
  resized node (inr info) = do
    t ← demand nfs_error_with_wcc (now o)
    pure (record node {
      attrs = refresh t (record node.attrs { size = info.size; mtime = info.mod_time });
    })

  -- The part of SETATTR that sets the size.
  unfoldable pub set_size : ℕ → NfsNode → Option ℕ → Step F NfsNode
  set_size h node none = pure node
  set_size h node (some n) = do
    check (leb n (2 ^ 63 - 1)) (nfs_error_with_wcc nfserr_inval)
    let spoilt = record node { attrs = invalidate node.attrs }
    store_attrs h spoilt.attrs
    demand nfs_error_with_wcc (call (fs.truncate node.path n))
    demand nfs_error_with_wcc (drop_attrs node.path)
    r ← run (look (λ f. fs.stat f node.path))
    node' ← resized spoilt r
    store_attrs h node'.attrs
    pure node'

  -- The attributes that SETATTR hands to SetAttr: those of the node, and what is asked for.
  unfoldable pub wanted : Caller → Sattr3 → NfsAttrs → ℤ → ℤ → NfsAttrs
  wanted c sattr old atime mtime = record {
    mode = or_old sattr.mode old.mode;
    size = pos 0;
    file_id = 0;
    mtime = mtime;
    atime = atime;
    uid = id_for c sattr.uid old.uid;
    gid = id_for c sattr.gid old.gid;
    valid_until = zero_time;
  }

  unfoldable pub handle_setattr : Caller → Step F Answer
  handle_setattr c = do
    check_writable (nfs_error_with_wcc nfserr_rofs)
    h ← decode decode_file_handle (replied (nfs_error_with_wcc garbage_args))
    sattr ← decode decode_sattr3 (replied (nfs_error_with_wcc garbage_args))
    guarded ← decode decode_guard (replied (nfs_error_with_wcc garbage_args))
    check (not (has_bad_mode sattr.mode)) (nfs_error_with_wcc nfserr_inval)
    node ← lookup_node h (nfs_error_with_wcc nfserr_stale)
    pre ← demand nfs_error_with_wcc (get_attr fs o (some node))
    check (guard_holds guarded pre) (nfs_error_with_wcc nfserr_not_sync)
    sized ← set_size h node sattr.size
    atime ← time_for o sattr.atime
    mtime ← time_for o sattr.mtime
    set ←
        demand nfs_error_with_wcc
          (set_attr fs o (some sized) (some (wanted c sattr sized.attrs atime mtime)))
    store_attrs h set.attrs
    post ← demand nfs_error_with_wcc (get_attr fs o (some set))
    pure (replied (encode_uint32 nfs_ok ++ encode_wcc_data pre post))

-- The permission bits of a mode for a caller: those of the owner, of the group, or of the others.
unfoldable pub perm_bits : Caller → NfsAttrs → ℕ
perm_bits c attrs =
    if nat_beq c.uid 0
    then 7
    else if nat_beq c.uid attrs.uid
    then attrs.mode / 2 ^ 6 % 8
    else if nat_beq c.gid attrs.gid || has_member attrs.gid c.aux_gids
    then attrs.mode / 2 ^ 3 % 8
    else attrs.mode % 8

-- A bit of ACCESS that is asked for and allowed.
abbrev pub granted : ℕ → ℕ → Bool → ℕ
granted access bit allowed = if nat_beq (access / bit % 2) 1 && allowed then bit else 0

-- The bits of ACCESS3: 1 read, 2 look up, 4 modify, 8 extend, 16 delete, 32 execute.
unfoldable pub access_allowed : Caller → Bool → NfsAttrs → ℕ → ℕ
unfolding perm_bits
access_allowed c read_only attrs access =
    let bits = perm_bits c attrs in
    let may_read = nat_beq (bits / 4 % 2) 1 in
    let may_write = nat_beq (bits / 2 % 2) 1 && not read_only in
    let may_execute = nat_beq (bits % 2) 1 in
    granted access 1 may_read
    + granted access 2 (is_dir attrs.mode && may_execute)
    + granted access 32 may_execute
    + granted access 4 may_write
    + granted access 8 may_write
    + granted access 16 (is_dir attrs.mode && may_write)

module _ {F H : Type 0} (fs : FileSystem F H) (o : Outside) where
  unfoldable pub handle_access : Caller → Step F Answer
  handle_access c = do
    h ← decode decode_file_handle (replied (nfs_error_with_post_op garbage_args))
    access ← decode decode_uint32 (replied (nfs_error_with_post_op garbage_args))
    node ← lookup_node h (nfs_error_with_post_op nfserr_stale)
    attrs ← demand nfs_error_with_post_op (get_attr fs o (some node))
    read_only ← is_read_only
    pure (
        replied (
          encode_uint32 nfs_ok
          ++ (encode_post_op_attr attrs
              ++ encode_uint32 (access_allowed c read_only attrs access))))
