-- ===== src/Nfs/Data/Read.antt =====
-- READ of a file with a known content.
use absnfs.Prelude.{
  ℕ, zero, suc, ap, ◌+◌, ◌-◌, ◌^◌, ◌%◌, ◌<◌, ◌≡◌, ◌∙◌, true, false, inr, some, List, [], ◌∷◌, ◌++◌,
  length, take, drop, min, leb, Bool, replicate, if◌then◌else◌, arith, nat_eq, length-drop,
}
use absnfs.Prelude.Int.{pos}
use absnfs.Attrs.{NfsAttrs}
use absnfs.FileHandle as Handles
use absnfs.Attrs.Wire.{encode_file_attributes}
use absnfs.Xdr.{
  padding, encode_uint32, encode_uint64, encode_file_handle, decode_file_handle, decode_uint32,
  decode_uint64, decode-encode_uint32, decode-encode_uint64,
}
use absnfs.Xdr.Handles.{decode-encode_file_handle}
use absnfs.Ops.{FileSystem, Outside, NfsNode}
use absnfs.Ops.Nodes.{get_attr}
use absnfs.Ops.Content.{read}
use absnfs.Ops.Content.Reading.{HasContent, read-content}
use absnfs.Nfs.{encode_post_op_attr, Caller, Exchange, going, replied, node_of, pure}
use absnfs.Nfs.Data.{handle_read, read_reply, reaches_end, to_int64}
use absnfs.Nfs.Goes.{decode_goes, check_goes, lookup_node_goes, demand_goes}

length-take : (n : ℕ) (l : List ℕ) → length (take n l) ≡ min n (length l)
length-take zero l = omega arith
length-take (suc n) [] = omega arith
length-take (suc n) (x ∷ l) = omega (arith, length-take n l)

-- The end is reached by the bytes that were read exactly if the bytes asked for reach it.
reaches_end_iff :
    (offset n : ℕ) (bytes : List ℕ) (attrs : NfsAttrs)
    → attrs.size ≡ pos (length bytes)
    → offset + n + length bytes < 2 ^ 63
    → reaches_end offset (take n (drop offset bytes)) attrs ≡ leb (length bytes) (offset + n)
reaches_end_iff offset n bytes attrs whole low =
    let size : length (take n (drop offset bytes)) ≡ min n (length bytes - offset) =
      length-take n (drop offset bytes) ∙ ap (min n) (length-drop offset bytes) in
    let fits : (offset + min n (length bytes - offset)) % 2 ^ 64
        ≡ offset + min n (length bytes - offset) =
      omega arith in
    rw (size, whole, fits) (ground arith)

-- RFC 1813, `READ3res` with NFS3_OK: the attributes, the count, whether the file ends there, and the
-- bytes as opaque data, padded with zeros to a multiple of four.
abbrev pub write_read3resok : NfsAttrs → List ℕ → Bool → List ℕ
write_read3resok attrs bytes eof =
    encode_uint32 0
    ++ ((encode_uint32 1 ++ encode_file_attributes attrs)
        ++ (encode_uint32 (length bytes)
            ++ (encode_uint32 (if eof then 1 else 0)
                ++ (encode_uint32 (length bytes)
                    ++ (bytes ++ replicate ((4 - length bytes % 4) % 4) 0)))))

module _ {F H : Type 0} (fs : FileSystem F H) (o : Outside) where
  -- READ by an admitted caller, from an offset and with a count that stay below 2^63, of a live
  -- handle whose node has a known content: if the attributes that GetAttr gives next have the size
  -- of the content, the reply is, by the bytes of RFC 1813, NFS3_OK with these attributes, the
  -- bytes from the offset on, as many as were asked for, but no more than the transfer size and
  -- than there are, their count, and EOF exactly if the bytes asked for, within the transfer size,
  -- reach the end.
  pub handle_read-content :
      (c : Caller) (h offset count limit : ℕ) (rest bytes : List ℕ) (node : NfsNode)
      (attrs : NfsAttrs) (x : Exchange F)
      → HasContent fs x.server.files node.path bytes
      → x.server.transfer_size ≡ pos limit
      → o.context_done x.server.asked ≡ false
      → (get_attr fs o (some node) (read fs o (some node) (pos offset) (pos count) x.server).1).0
        ≡ inr attrs
      → attrs.size ≡ pos (length bytes)
      → h < 2 ^ 64
      → count < 2 ^ 32
      → offset + count + length bytes < 2 ^ 63
      → c.admitted ≡ true
      → x.body ≡ encode_file_handle h ++ (encode_uint64 offset ++ (encode_uint32 count ++ rest))
      → node_of (Handles.get h x.file_map) ≡ some node
      → (handle_read fs o c x).0
        ≡ going (
            replied (
              write_read3resok attrs
                (take (min count limit) (drop offset bytes))
                (leb (length bytes) (offset + min count limit))))
  unfolding handle_read pure read_reply padding encode_post_op_attr
  handle_read-content c h offset count limit rest bytes node attrs x content size in_time asked
        whole small word low admitted sent live =
      let near : to_int64 offset ≡ pos offset = ground arith in
      let data' = take (min count limit) (drop offset bytes) in
      let answers : (read fs o (some node) (to_int64 offset) (pos count) x.server).0 ≡ inr data' =
        rw near (read-content fs o node offset count limit bytes x.server content size in_time) in
      let told : (get_attr fs o (some node)
            (read fs o (some node) (to_int64 offset) (pos count) x.server).1).0
          ≡ inr attrs =
        rw near asked in
      let x1 = record x { body = encode_uint64 offset ++ (encode_uint32 count ++ rest) } in
      let x2 = record x { body = encode_uint32 count ++ rest } in
      let x3 = record x { body = rest } in
      let op = read fs o (some node) (to_int64 offset) (pos count) in
      let x4 = record x3 { server = (op x.server).1 } in
      let ends : reaches_end offset data' attrs ≡ leb (length bytes) (offset + min count limit) =
        reaches_end_iff offset (min count limit) bytes attrs whole (omega arith) in
      let runs : (handle_read fs o c x).0 ≡ going (replied (read_reply attrs offset data')) =
        ap (λ r. r.0)
          (decode_goes decode_file_handle _ _ x h _
              (ap decode_file_handle sent ∙ decode-encode_file_handle h _ small)
            ∙ decode_goes decode_uint64 _ _ x1 offset _
                (decode-encode_uint64 offset _ (omega arith))
            ∙ decode_goes decode_uint32 _ _ x2 count rest (decode-encode_uint32 count rest word)
            ∙ check_goes _ _ _ x3 (ground arith)
            ∙ check_goes _ _ _ x3 (ground (arith, admitted))
            ∙ lookup_node_goes h _ _ x3 node live
            ∙ demand_goes _ op _ x3 data' answers
            ∙ demand_goes _ (get_attr fs o (some node)) _ x4 attrs told) in
      runs ∙ ap (λ b. going (replied (write_read3resok attrs data' b))) ends
