-- ===== src/Rpc/Calls.antt =====
-- Calls: the decoder reads the calls of RFC 1831, and refuses what is not one.
use absnfs.Prelude.{
  ℕ, ◌^◌, ◌≤◌, ◌<◌, ◌≡◌, true, List, ◌++◌, length, leb, nat_beq, nat_beq_iff, arith,
}
use mathlib.Core.List.{append_assoc}
use absnfs.Xdr.{
  ok, not_call, decode_uint32, encode_uint32, skip_padding, too_long, decode-encode_uint32,
}
use absnfs.Xdr.Returns.{
  Returns, Returns->>=, Returns-guard, Returns-read_full, Returns-pure, Returns-trans,
}
use absnfs.Rpc.{
  RpcMsgHeader, OpaqueAuth, RpcCall, rpc_call, max_rpc_auth_length, decode_auth, decode_header,
  decode_rpc_call, encode_verifier,
}
use absnfs.Rpc.Auth.{IsAuth, decode-encode_verifier}

-- RFC 1831, `rpc_msg` with a body of kind CALL: what a client sends.
unfoldable pub encode_header : RpcMsgHeader → List ℕ
encode_header h =
    encode_uint32 h.xid
    ++ (encode_uint32 h.msg_type
        ++ (encode_uint32 h.rpc_version
            ++ (encode_uint32 h.program ++ (encode_uint32 h.version ++ encode_uint32 h.procedure))))

unfoldable pub encode_rpc_call : RpcCall → List ℕ
encode_rpc_call c =
    encode_header c.header ++ (encode_verifier c.credential ++ encode_verifier c.verifier)

pub record IsHeader (h : RpcMsgHeader) : Type 0 where
  pub xid_word : h.xid < 2 ^ 32
  pub is_call : h.msg_type ≡ rpc_call
  pub rpc_version_word : h.rpc_version < 2 ^ 32
  pub program_word : h.program < 2 ^ 32
  pub version_word : h.version < 2 ^ 32
  pub procedure_word : h.procedure < 2 ^ 32

pub record IsCall (c : RpcCall) : Type 0 where
  pub header_ok : IsHeader c.header
  pub credential_ok : IsAuth c.credential
  pub verifier_ok : IsAuth c.verifier

decode-encode_header :
    (h : RpcMsgHeader) (rest : List ℕ)
    → IsHeader h
    → decode_header (encode_header h ++ rest) ≡ (ok h, rest)
unfolding decode_header encode_header
decode-encode_header h rest w =
    let s₅ : List ℕ = encode_uint32 h.procedure ++ rest in
    let s₄ : List ℕ = encode_uint32 h.version ++ s₅ in
    let s₃ : List ℕ = encode_uint32 h.program ++ s₄ in
    let s₂ : List ℕ = encode_uint32 h.rpc_version ++ s₃ in
    let s₁ : List ℕ = encode_uint32 h.msg_type ++ s₂ in
    let flat : encode_header h ++ rest ≡ encode_uint32 h.xid ++ s₁ = simp append_assoc in
    let type_word : h.msg_type < 2 ^ 32 = ground (arith, w.is_call) in
    let type_call : nat_beq h.msg_type rpc_call ≡ true =
      (nat_beq_iff h.msg_type rpc_call).1 w.is_call in
    rw (
      flat,
      decode-encode_uint32 h.xid s₁ w.xid_word,
      decode-encode_uint32 h.msg_type s₂ type_word,
      type_call,
      decode-encode_uint32 h.rpc_version s₃ w.rpc_version_word,
      decode-encode_uint32 h.program s₄ w.program_word,
      decode-encode_uint32 h.version s₅ w.version_word,
      decode-encode_uint32 h.procedure rest w.procedure_word,
    )

-- A call of RFC 1831 whose words are below 2^32 and whose credential and verifier have at most 400
-- bytes is read back field by field, and the
-- reader goes on at the arguments behind it.
pub decode-encode_rpc_call :
    (c : RpcCall) (rest : List ℕ)
    → IsCall c
    → decode_rpc_call (encode_rpc_call c ++ rest) ≡ (ok c, rest)
unfolding decode_rpc_call encode_rpc_call
decode-encode_rpc_call c rest w =
    let s₂ : List ℕ = encode_verifier c.verifier ++ rest in
    rw (
      append_assoc (encode_header c.header)
          (encode_verifier c.credential ++ encode_verifier c.verifier) rest,
      append_assoc (encode_verifier c.credential) (encode_verifier c.verifier) rest,
      decode-encode_header c.header (encode_verifier c.credential ++ s₂) w.header_ok,
      decode-encode_verifier c.credential s₂ w.credential_ok,
      decode-encode_verifier c.verifier rest w.verifier_ok,
    )

abbrev IsShort : OpaqueAuth → Type 0
IsShort a = length a.body ≤ max_rpc_auth_length

decode_auth-Returns : Returns decode_auth IsShort
unfolding decode_auth
decode_auth-Returns = Returns->>= IsShort decode_uint32 _ (λ flavor.
    Returns->>= IsShort decode_uint32 _ (λ n.
      Returns-guard IsShort (leb n max_rpc_auth_length) too_long _ (λ short.
        Returns-read_full IsShort n _ (λ body len. Returns->>= IsShort (skip_padding n) _ (λ _.
          Returns-pure IsShort (record { flavor = flavor; body = body })
            (ground (arith, short, len)))))))

abbrev HasType : RpcMsgHeader → Type 0
HasType h = h.msg_type ≡ rpc_call

decode_header-Returns : Returns decode_header HasType
unfolding decode_header
decode_header-Returns = Returns->>= HasType decode_uint32 _ (λ xid.
    Returns->>= HasType decode_uint32 _ (λ msg_type.
      Returns-guard HasType (nat_beq msg_type rpc_call) not_call _ (λ is_call.
        Returns->>= HasType decode_uint32 _ (λ rpc_version.
          Returns->>= HasType decode_uint32 _ (λ program.
            Returns->>= HasType decode_uint32 _ (λ version.
              Returns->>= HasType decode_uint32 _ (λ procedure.
                Returns-pure HasType
                  (record {
                    xid = xid;
                    msg_type = msg_type;
                    rpc_version = rpc_version;
                    program = program;
                    version = version;
                    procedure = procedure;
                  })
                  ((nat_beq_iff msg_type rpc_call).0 is_call))))))))

abbrev IsChecked : RpcCall → Type 0
IsChecked c =
    (c.header.msg_type ≡ rpc_call)
    × (length c.credential.body ≤ max_rpc_auth_length)
    × (length c.verifier.body ≤ max_rpc_auth_length)

decode_rpc_call-Returns : Returns decode_rpc_call IsChecked
unfolding decode_rpc_call
decode_rpc_call-Returns =
    Returns-trans HasType IsChecked decode_header _ decode_header-Returns (λ header is_call.
      Returns-trans IsShort IsChecked decode_auth _ decode_auth-Returns (λ credential short.
        Returns-trans IsShort IsChecked decode_auth _ decode_auth-Returns (λ verifier short_too.
          Returns-pure IsChecked
            (record { header = header; credential = credential; verifier = verifier })
            (is_call, short, short_too))))

-- Whatever the bytes are, a message that is taken for a call says that it is one, and neither its
-- credential nor its verifier is longer than 400 bytes.
pub decode_rpc_call-ok :
    (s rest : List ℕ) (c : RpcCall)
    → decode_rpc_call s ≡ (ok c, rest)
    → (c.header.msg_type ≡ rpc_call)
      × (length c.credential.body ≤ max_rpc_auth_length)
      × (length c.verifier.body ≤ max_rpc_auth_length)
decode_rpc_call-ok = decode_rpc_call-Returns
