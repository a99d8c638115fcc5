-- ===== src/Nfs/Names/Found.antt =====
-- A LOOKUP that finds a node: the handle in its reply stands for the node.
use absnfs.Prelude.{
  ℕ, ap, false, ◌^◌, ◌≤◌, ◌<◌, ◌≡◌, refl, ◌∙◌, true, inl, inr, some, List, ◌++◌, length,
  nat_beq_iff, nat_eq, arith, Option-cases,
}
use mathlib.Core.Path.{subst}
use absnfs.FileHandle as Handles
use absnfs.FileHandle.{File, FileHandleMap, limit_of, path_of, existing_handle}
use absnfs.FileHandle.Laws.{IsAmple, allocate_again, allocate_room, allocate-IsAmple}
use absnfs.Ops.{FileSystem, Outside, NfsNode}
use absnfs.Cache.ChildOf.{has_byte}
use absnfs.Paths.{nfs_ok, validate_filename, join}
use absnfs.Attrs.{NfsAttrs}
use absnfs.Attrs.Wire.{encode_file_attributes}
use absnfs.Xdr.{
  encode_uint32, encode_uint64, encode_file_handle, encode_string, decode_file_handle,
  decode_string,
}
use absnfs.Xdr.Strings.{decode-encode_string}
use absnfs.Xdr.Handles.{decode-encode_file_handle}
use absnfs.Ops.Nodes
use absnfs.Nfs.{encode_post_op_attr, Exchange, going, replied, node_of, is_dir, pure}
use absnfs.Nfs.Names.{handle_lookup, found_or_not, found_reply}
use absnfs.Nfs.Goes.{decode_goes, check_goes, lookup_node_goes, run_goes, allocate_goes}

module _ {ℓ} {F : Type ℓ} where
  -- A live handle fits its word.
  live-small :
      (h : ℕ) (f : File F) {slack : ℕ} {fm : FileHandleMap F}
      → IsAmple slack fm
      → Handles.get h fm ≡ some f
      → h < 2 ^ 64
  unfolding Handles.get
  live-small h f a live = omega (arith, a.valid.sound.live_below h f live, a.counted.low, a.small)

  -- The map after a call of `Allocate` is what it answered with.
  answer-IsAmple :
      (f : File F) (h : ℕ) (fm' : FileHandleMap F) {slack : ℕ} {fm : FileHandleMap F}
      → IsAmple slack fm
      → Handles.allocate f fm ≡ some (h, fm')
      → IsAmple slack fm'
  answer-IsAmple f h fm' {slack} a runs =
      let (k, m, same, b) = allocate-IsAmple f a in
      let e : m ≡ fm' = cc in subst (IsAmple slack) e b

  -- Where there is room, the handle that `Allocate` answers with stands for the file.
  pub get-allocate :
      (f : File F) {slack : ℕ} {fm : FileHandleMap F}
      → IsAmple slack fm
      → length fm.handles < limit_of fm.max_handles
      → (h : ℕ) × (fm' : FileHandleMap F) × (Handles.allocate f fm ≡ some (h, fm'))
        × (Handles.get h fm' ≡ some f)
        × (h < 2 ^ 64)
  unfolding Handles.count
  get-allocate f {slack} {fm} a room = elim (Option-cases (existing_handle (path_of f) fm)) [
    | inl fresh ↦
        let (h, fm', runs, dead, gets) =
          allocate_room f a.valid (omega (arith, a.counted.low, a.small)) fresh room in
        let live : Handles.get h fm' ≡ some f = ground (arith, gets h, nat_beq_iff h h) in
        (h, fm', runs, live, live-small h f (answer-IsAmple f h fm' a runs) live)
    | inr (h, e) ↦
        let (fm', runs, gets, same) = allocate_again f h a.valid e in
        let live : Handles.get h fm' ≡ some f = ground (arith, gets h, nat_beq_iff h h) in
        (h, fm', runs, live, live-small h f (answer-IsAmple f h fm' a runs) live)
  ]

-- A name that validateFilename accepts is short and has no NUL.
valid_name :
    (name : List ℕ)
    → validate_filename name ≡ nfs_ok
    → (length name ≤ 8192) × (has_byte 0 name ≡ false)
unfolding validate_filename
valid_name name e = ground arith

-- RFC 1813, `post_op_attr` with attributes.
abbrev pub write_attrs : NfsAttrs → List ℕ
write_attrs a = encode_uint32 1 ++ encode_file_attributes a

-- RFC 1813, `LOOKUP3res` with NFS3_OK: the handle is opaque, here of 8 bytes, and the attributes of
-- the object come before those of the directory.
abbrev pub write_lookup3resok : ℕ → NfsAttrs → NfsAttrs → List ℕ
write_lookup3resok k object dir =
    encode_uint32 0
    ++ ((encode_uint32 8 ++ encode_uint64 k) ++ (write_attrs object ++ write_attrs dir))

module _ {F H : Type 0} (fs : FileSystem F H) (o : Outside) where
  -- The reply to a LOOKUP of a name in a live directory where the operation finds a node, and the
  -- handles, that are valid and accounted for, have room: by the bytes of RFC 1813 NFS3_OK, a handle
  -- that fits its word, the attributes of the node and those of the directory, and the handle is one
  -- that stands for just this node from now on, so that later calls can name it.
  pub handle_lookup-found :
      (h : ℕ) (name rest : List ℕ) (dir found : NfsNode) (x : Exchange F) {slack : ℕ}
      → IsAmple slack x.file_map
      → length x.file_map.handles < limit_of x.file_map.max_handles
      → h < 2 ^ 64
      → x.body ≡ encode_file_handle h ++ (encode_string name ++ rest)
      → validate_filename name ≡ nfs_ok
      → node_of (Handles.get h x.file_map) ≡ some dir
      → is_dir dir.attrs.mode ≡ true
      → (Nodes.lookup fs o (join dir.path name) x.server).0 ≡ inr found
      → (k : ℕ) × (x' : Exchange F) × (handle_lookup fs o x
          ≡ (going (replied (write_lookup3resok k found.attrs dir.attrs)), x'))
        × (node_of (Handles.get k x'.file_map) ≡ some found)
        × (k < 2 ^ 64)
  unfolding handle_lookup found_or_not found_reply encode_file_handle encode_post_op_attr pure
  handle_lookup-found h name rest dir found x a room small sent good live at_dir finds =
      let (short, no_nul) = valid_name name good in
      let x1 = record x { body = encode_string name ++ rest } in
      let x2 = record x { body = rest } in
      let op = Nodes.lookup fs o (join dir.path name) in
      let x3 = record x2 { server = (op x.server).1 } in
      let (k, fm, runs, stands, fits) = get-allocate (File.node found.path found.attrs) a room in
      (
        k,
        record x3 { file_map = fm },
        decode_goes decode_file_handle _ _ x h _
              (ap decode_file_handle sent ∙ decode-encode_file_handle h _ small)
            ∙ decode_goes decode_string _ _ x1 name rest
                (decode-encode_string name rest short no_nul)
            ∙ check_goes _ _ _ x2 (ground (arith, good))
            ∙ lookup_node_goes h _ _ x2 dir live
            ∙ check_goes _ _ _ x2 at_dir
            ∙ run_goes op _ x2 found finds
            ∙ allocate_goes found _ x3 k fm runs
            ∙ refl,
        ap node_of stands,
        fits,
      )
