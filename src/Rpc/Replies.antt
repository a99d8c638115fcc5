-- ===== src/Rpc/Replies.antt =====
-- Replies: what a client of RFC 1831 reads in what the server writes.
use absnfs.Prelude.{
  ℕ, ◌^◌, ◌<◌, ◌≡◌, refl, List, [], ◌++◌, nat_beq, nat_beq_iff, if◌then◌else◌, arith, Bool-cases,
  inl, inr,
}
use mathlib.Core.List.{append_assoc}
use absnfs.Xdr.{
  ok, Decoder, not_call, pure, guard, ◌>>=◌, ◌>>◌, decode_uint32, encode_uint32,
  decode-encode_uint32,
}
use absnfs.Rpc.{
  OpaqueAuth, RpcReply, ReplyData, rpc_reply, msg_accepted, success, prog_mismatch, auth_error,
  decode_auth, encode_data, encode_verifier, encode_accepted, encode_rpc_reply,
}
use absnfs.Rpc.Auth.{IsAuth, decode-encode_verifier}

-- RFC 1831, `reply_body`, up to the results of a procedure.
pub data ReplyBody : Type 0 where
  accepted : OpaqueAuth → ℕ → ReplyBody
  mismatch : OpaqueAuth → ℕ → ℕ → ReplyBody
  denied : ℕ → ℕ → ReplyBody

unfoldable read_accepted : OpaqueAuth → ℕ → Decoder ReplyBody
read_accepted verifier status =
    if nat_beq status prog_mismatch
    then (do low ← decode_uint32; high ← decode_uint32; pure (mismatch verifier low high))
    else pure (accepted verifier status)

unfoldable read_body : ℕ → Decoder ReplyBody
unfolding read_accepted
read_body status =
    if nat_beq status msg_accepted
    then (do
      verifier ← decode_auth
      accept_status ← decode_uint32
      read_accepted verifier accept_status)
    else (do reject_status ← decode_uint32; why ← decode_uint32; pure (denied reject_status why))

-- The transaction, and the body of the reply.
unfoldable pub read_reply : Decoder (ℕ × ReplyBody)
unfolding read_body
read_reply = do
  xid ← decode_uint32
  msg_type ← decode_uint32
  guard (nat_beq msg_type rpc_reply) not_call
  status ← decode_uint32
  body ← read_body status
  pure (xid, body)

-- What the client is to see of a reply.
unfoldable pub body_of : RpcReply → ReplyBody
body_of r =
    if nat_beq r.status msg_accepted
    then if nat_beq r.accept_status prog_mismatch
      then mismatch r.verifier 3 3
      else accepted r.verifier r.accept_status
    else denied auth_error 1

-- The results, which only a reply of success carries.
unfoldable pub results_of : RpcReply → List ℕ
results_of r =
    if nat_beq r.status msg_accepted
    then if nat_beq r.accept_status success then encode_data r.result else []
    else []

pub record IsReply (r : RpcReply) : Type 0 where
  pub xid_word : r.header.xid < 2 ^ 32
  pub status_word : r.status < 2 ^ 32
  pub accept_word : r.accept_status < 2 ^ 32
  pub verifier_ok : IsAuth r.verifier

two_words :
    (v : OpaqueAuth) (rest : List ℕ)
    → (do low ← decode_uint32; high ← decode_uint32; pure (mismatch v low high))
        ((encode_uint32 3 ++ encode_uint32 3) ++ rest)
      ≡ (ok (mismatch v 3 3), rest)
unfolding decode_uint32 encode_uint32
two_words v rest = refl

read_accepted-encode :
    (v : OpaqueAuth) (status : ℕ) (d : ReplyData) (rest : List ℕ)
    → status < 2 ^ 32
    → (do accept_status ← decode_uint32; read_accepted v accept_status)
        (encode_accepted status d ++ rest)
      ≡ (
        ok (if nat_beq status prog_mismatch then mismatch v 3 3 else accepted v status),
        (if nat_beq status success then encode_data d else []) ++ rest,
      )
unfolding encode_accepted read_accepted
read_accepted-encode v status d rest small = elim (Bool-cases (nat_beq status prog_mismatch)) [
  | inl e ↦
      let is_2 : status ≡ prog_mismatch = (nat_beq_iff status prog_mismatch).0 e in
      rw
        (
          is_2,
          append_assoc (encode_uint32 prog_mismatch) (encode_uint32 3 ++ encode_uint32 3) rest,
          decode-encode_uint32 prog_mismatch ((encode_uint32 3 ++ encode_uint32 3) ++ rest)
              (omega arith),
        )
        (two_words v rest)
  | inr e ↦
      let l : List ℕ = if nat_beq status success then encode_data d else [] in
      rw
        (
          e,
          append_assoc (encode_uint32 status) l rest,
          decode-encode_uint32 status (l ++ rest) small,
          e,
        )
        refl
]

read_body-encode :
    (r : RpcReply) (rest : List ℕ)
    → IsReply r
    → read_body r.status (
        (if nat_beq r.status msg_accepted
          then encode_verifier r.verifier ++ encode_accepted r.accept_status r.result
          else encode_uint32 auth_error ++ encode_uint32 1)
        ++ rest)
      ≡ (ok (body_of r), results_of r ++ rest)
unfolding read_body body_of results_of encode_uint32 decode_uint32
read_body-encode r rest w = elim (Bool-cases (nat_beq r.status msg_accepted)) [
  | inl e ↦
      rw
        (
          e,
          append_assoc (encode_verifier r.verifier) (encode_accepted r.accept_status r.result) rest,
          decode-encode_verifier r.verifier (encode_accepted r.accept_status r.result ++ rest)
              w.verifier_ok,
          read_accepted-encode r.verifier r.accept_status r.result rest w.accept_word,
        )
        refl
  | inr e ↦ rw e refl
]

-- A client reads back, from what the server writes, the transaction, whether the call was accepted,
-- the verifier and the status, with the versions 3 and 3 if the version was wrong. It is then at the
-- results, which stand there only if the status is success. The words are below 2^32 and the
-- verifier has at most 400 bytes.
pub read_reply-encode :
    (r : RpcReply) (rest : List ℕ)
    → IsReply r
    → read_reply (encode_rpc_reply r ++ rest) ≡ (ok (r.header.xid, body_of r), results_of r ++ rest)
unfolding read_reply encode_rpc_reply
read_reply-encode r rest w =
    let body : List ℕ =
      if nat_beq r.status msg_accepted
      then encode_verifier r.verifier ++ encode_accepted r.accept_status r.result
      else encode_uint32 auth_error ++ encode_uint32 1 in
    let flat : encode_rpc_reply r ++ rest
        ≡ encode_uint32 r.header.xid
          ++ (encode_uint32 rpc_reply ++ (encode_uint32 r.status ++ (body ++ rest))) =
      simp append_assoc in
    rw (
      flat,
      decode-encode_uint32 r.header.xid
          (encode_uint32 rpc_reply ++ (encode_uint32 r.status ++ (body ++ rest))) w.xid_word,
      decode-encode_uint32 rpc_reply (encode_uint32 r.status ++ (body ++ rest)) (omega arith),
      decode-encode_uint32 r.status (body ++ rest) w.status_word,
      read_body-encode r rest w,
    )
