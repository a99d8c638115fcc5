-- ===== src/Nfs/Data.antt =====
-- nfs_proc_readwrite.go: READ, WRITE and COMMIT.
pub mod Read
use absnfs.Prelude.{
  ℕ, ◌+◌, ◌-◌, ◌%◌, ◌^◌, Bool, true, false, ◌||◌, not, ◌⊎◌, inl, inr, Option, none, some, List,
  ◌++◌, length, take, drop, replicate, nat_beq, ltb, leb, if◌then◌else◌,
}
use absnfs.Prelude.Int.{ℤ, pos, negsuc, leb_ℤ}
use absnfs.Attrs.{NfsAttrs}
use absnfs.Attrs.Wire.{to_uint64}
use absnfs.Xdr.{
  Decoder, ok, encode_uint32, decode_file_handle, decode_uint32, decode_uint64, read_full, padding,
}
use absnfs.Ops.{Failure, FileSystem, Outside, NfsNode, map_error}
use absnfs.Ops.Nodes.{get_attr}
use absnfs.Ops.Content.{read, write, transfer_size, Written}
use absnfs.Paths.{nfs_ok, nfserr_inval}
use absnfs.Nfs.{
  Caller, Answer, Step, pure, ◌>>=◌, ◌>>◌, replied, check, check_writable, decode, run, demand,
  lookup_node, store_attrs, garbage_args, nfserr_stale, nfserr_rofs, nfserr_delay,
  nfs_error_with_wcc, nfs_error_with_post_op, encode_post_op_attr, encode_wcc_data,
}

-- `int64(n)` of a uint64.
abbrev pub to_int64 : ℕ → ℤ
to_int64 n = if ltb n (2 ^ 63) then pos n else negsuc (2 ^ 64 - 1 - n)

-- `offset > math.MaxUint64 - uint64(count)`.
abbrev pub is_past_end : ℕ → ℕ → Bool
is_past_end offset count = ltb (2 ^ 64 - 1 - count) offset

-- A small transfer is not limited.
abbrev pub is_admitted : Caller → ℕ → Bool
is_admitted c count = leb count 65536 || c.admitted

-- `int64(offset) + int64(len(data)) >= attrs.Size`.
abbrev pub reaches_end : ℕ → List ℕ → NfsAttrs → Bool
reaches_end offset bytes attrs = leb_ℤ attrs.size (to_int64 ((offset + length bytes) % 2 ^ 64))

abbrev pub flag : Bool → ℕ
flag b = if b then 1 else 0

unfoldable pub read_reply : NfsAttrs → ℕ → List ℕ → List ℕ
read_reply attrs offset bytes =
    encode_uint32 nfs_ok
    ++ (encode_post_op_attr attrs
        ++ (encode_uint32 (length bytes)
            ++ (encode_uint32 (flag (reaches_end offset bytes attrs))
                ++ (encode_uint32 (length bytes)
                    ++ (bytes ++ replicate (padding (length bytes)) 0)))))

-- `uint32(TransferSize)`, or the default.
abbrev pub max_write_size : ℤ → ℕ
max_write_size n = let w = to_uint64 n % 2 ^ 32 in if nat_beq w 0 then 1048576 else w

-- The padding, as far as it is there.
unfoldable pub skip_quietly : ℕ → Decoder (List ℕ)
skip_quietly n s = (ok (take n s), drop n s)

module _ {F H : Type 0} (fs : FileSystem F H) (o : Outside) where
  unfoldable pub handle_read : Caller → Step F Answer
  handle_read c = do
    h ← decode decode_file_handle (replied (nfs_error_with_post_op garbage_args))
    offset ← decode decode_uint64 (replied (nfs_error_with_post_op garbage_args))
    count ← decode decode_uint32 (replied (nfs_error_with_post_op garbage_args))
    check (not (is_past_end offset count)) (nfs_error_with_post_op nfserr_inval)
    check (is_admitted c count) (nfs_error_with_post_op nfserr_delay)
    node ← lookup_node h (nfs_error_with_post_op nfserr_stale)
    bytes ← demand nfs_error_with_post_op (read fs o (some node) (to_int64 offset) (pos count))
    attrs ← demand nfs_error_with_post_op (get_attr fs o (some node))
    pure (replied (read_reply attrs offset bytes))

  -- The attributes of the node now, or those that it had.
  unfoldable pub attrs_or : NfsAttrs → Failure ⊎ NfsAttrs → Step F NfsAttrs
  attrs_or pre (inl e) = pure pre
  attrs_or pre (inr post) = pure post

  -- The reply to a failed change: a status, and the attributes before and after it.
  unfoldable pub failed : ℕ → NfsAttrs → NfsNode → Step F Answer
  failed status pre node = do
    r ← run (get_attr fs o (some node))
    post ← attrs_or pre r
    pure (replied (encode_uint32 status ++ encode_wcc_data pre post))

  -- WRITE, by the number of bytes and the error that Write answers.
  unfoldable pub report : List ℕ → NfsAttrs → NfsNode → ℕ → Option Failure → Step F Answer
  report verf pre node n (some e) = failed (map_error (some e)) pre node
  report verf pre node n none = do
    post ← demand nfs_error_with_wcc (get_attr fs o (some node))
    pure (
        replied (
          encode_uint32 nfs_ok
          ++ (encode_wcc_data pre post ++ (encode_uint32 n ++ (encode_uint32 2 ++ verf)))))

  unfoldable pub written : List ℕ → ℕ → NfsNode → NfsAttrs → Failure ⊎ Written → Step F Answer
  written verf h node pre (inl e) = failed (map_error (some e)) pre node
  written verf h node pre (inr w) = do
    store_attrs h w.node.attrs
    report verf pre w.node w.count w.error

  unfoldable pub handle_write : List ℕ → Caller → Step F Answer
  handle_write verf c = do
    check_writable (nfs_error_with_wcc nfserr_rofs)
    h ← decode decode_file_handle (replied (nfs_error_with_wcc garbage_args))
    offset ← decode decode_uint64 (replied (nfs_error_with_wcc garbage_args))
    count ← decode decode_uint32 (replied (nfs_error_with_wcc garbage_args))
    stable ← decode decode_uint32 (replied (nfs_error_with_wcc garbage_args))
    check (not (is_past_end offset count)) (nfs_error_with_wcc nfserr_inval)
    check (is_admitted c count) (nfs_error_with_wcc nfserr_delay)
    n ← decode decode_uint32 (replied (nfs_error_with_wcc garbage_args))
    check (nat_beq n count) (nfs_error_with_wcc garbage_args)
    size ← demand nfs_error_with_wcc transfer_size
    check (leb count (max_write_size size)) (nfs_error_with_wcc nfserr_inval)
    bytes ← decode (read_full count) (replied (nfs_error_with_wcc garbage_args))
    decode (skip_quietly (padding count)) (replied (nfs_error_with_wcc garbage_args))
    node ← lookup_node h (nfs_error_with_wcc nfserr_stale)
    pre ← demand nfs_error_with_wcc (get_attr fs o (some node))
    r ← run (write fs o (some node) (to_int64 offset) (some bytes))
    written verf h node pre r

  unfoldable pub handle_commit : List ℕ → Step F Answer
  handle_commit verf = do
    check_writable (nfs_error_with_wcc nfserr_rofs)
    h ← decode decode_file_handle (replied (nfs_error_with_wcc garbage_args))
    offset ← decode decode_uint64 (replied (nfs_error_with_wcc garbage_args))
    count ← decode decode_uint32 (replied (nfs_error_with_wcc garbage_args))
    node ← lookup_node h (nfs_error_with_wcc nfserr_stale)
    attrs ← demand nfs_error_with_wcc (get_attr fs o (some node))
    pure (replied (encode_uint32 nfs_ok ++ (encode_wcc_data attrs attrs ++ verf)))
