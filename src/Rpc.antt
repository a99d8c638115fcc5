-- ===== src/Rpc.antt =====
-- rpc_types.go: ONC RPC calls and replies (RFC 1831), and AUTH_SYS credentials.
pub mod Auth
pub mod Calls
pub mod Replies
pub mod Credentials
pub mod Tests
use absnfs.Prelude.{
  ℕ, zero, suc, ◌+◌, ◌^◌, ◌%◌, Bool, true, false, ◌&&◌, not, Option, none, some, List, [], ◌∷◌,
  ◌++◌, length, replicate, take, drop, ltb, leb, nat_beq, if◌then◌else◌,
}
use absnfs.Attrs.{NfsAttrs}
use absnfs.Attrs.Wire.{encode_file_attributes}
use absnfs.Xdr.{
  Error, short_read, too_long, not_call, empty_body, too_many_gids, Result, ok, err, Decoder, pure,
  fail, guard, ◌>>=◌, ◌>>◌, read_full, decode_uint32, encode_uint32, padding, skip_padding,
  encode_string, max_xdr_string_length, round_up,
}

abbrev pub rpc_call : ℕ
rpc_call = 0

abbrev pub rpc_reply : ℕ
rpc_reply = 1

abbrev pub auth_none : ℕ
auth_none = 0

abbrev pub auth_sys : ℕ
auth_sys = 1

abbrev pub max_rpc_auth_length : ℕ
max_rpc_auth_length = 400

abbrev pub msg_accepted : ℕ
msg_accepted = 0

abbrev pub success : ℕ
success = 0

abbrev pub prog_unavail : ℕ
prog_unavail = 1

abbrev pub prog_mismatch : ℕ
prog_mismatch = 2

abbrev pub proc_unavail : ℕ
proc_unavail = 3

abbrev pub auth_error : ℕ
auth_error = 1

pub record RpcMsgHeader : Type 0 where
  pub xid : ℕ
  pub msg_type : ℕ
  pub rpc_version : ℕ
  pub program : ℕ
  pub version : ℕ
  pub procedure : ℕ

-- RPCCredential and RPCVerifier have the same two fields.
pub record OpaqueAuth : Type 0 where
  pub flavor : ℕ
  pub body : List ℕ

pub record RpcCall : Type 0 where
  pub header : RpcMsgHeader
  pub credential : OpaqueAuth
  pub verifier : OpaqueAuth

-- The lines that decode a credential, and a verifier once more.
unfoldable pub decode_auth : Decoder OpaqueAuth
decode_auth = do
  flavor ← decode_uint32
  n ← decode_uint32
  guard (leb n max_rpc_auth_length) too_long
  body ← read_full n
  skip_padding n
  pure (record { flavor = flavor; body = body })

unfoldable pub decode_header : Decoder RpcMsgHeader
decode_header = do
  xid ← decode_uint32
  msg_type ← decode_uint32
  guard (nat_beq msg_type rpc_call) not_call
  rpc_version ← decode_uint32
  program ← decode_uint32
  version ← decode_uint32
  procedure ← decode_uint32
  pure (record {
    xid = xid;
    msg_type = msg_type;
    rpc_version = rpc_version;
    program = program;
    version = version;
    procedure = procedure;
  })

unfoldable pub decode_rpc_call : Decoder RpcCall
decode_rpc_call = do
  header ← decode_header
  credential ← decode_auth
  verifier ← decode_auth
  pure (record { header = header; credential = credential; verifier = verifier })

-- `reply.Data`, by the cases of the type switch; `other` is a value that is not encoded.
pub data ReplyData : Type 0 where
  no_data : ReplyData
  raw : List ℕ → ReplyData
  attributes : NfsAttrs → ReplyData
  text : List ℕ → ReplyData
  word : ℕ → ReplyData
  other : ReplyData

pub record RpcReply : Type 0 where
  pub header : RpcMsgHeader
  pub status : ℕ
  pub accept_status : ℕ
  pub verifier : OpaqueAuth
  pub result : ReplyData

abbrev pub encode_data : ReplyData → List ℕ
encode_data no_data = []
encode_data (raw bytes) = bytes
encode_data (attributes a) = encode_file_attributes a
encode_data (text s) = encode_string s
encode_data (word v) = encode_uint32 v
encode_data other = []

-- The body and its padding, if there is a body.
unfoldable pub encode_verifier : OpaqueAuth → List ℕ
encode_verifier v =
    encode_uint32 v.flavor
    ++ (encode_uint32 (length v.body)
        ++ (if ltb 0 (length v.body) then v.body ++ replicate (padding (length v.body)) 0 else []))

-- What follows the verifier.
unfoldable pub encode_accepted : ℕ → ReplyData → List ℕ
encode_accepted status result =
    encode_uint32 status
    ++ (if nat_beq status prog_mismatch
        then encode_uint32 3 ++ encode_uint32 3
        else if nat_beq status success
        then encode_data result
        else [])

unfoldable pub encode_rpc_reply : RpcReply → List ℕ
unfolding encode_verifier encode_accepted
encode_rpc_reply r =
    encode_uint32 r.header.xid
    ++ (encode_uint32 rpc_reply
        ++ (encode_uint32 r.status
            ++ (if nat_beq r.status msg_accepted
                then encode_verifier r.verifier ++ encode_accepted r.accept_status r.result
                else encode_uint32 auth_error ++ encode_uint32 1)))

pub record AuthSysCredential : Type 0 where
  pub stamp : ℕ
  pub machine_name : List ℕ
  pub uid : ℕ
  pub gid : ℕ
  pub aux_gids : List ℕ

-- A failed check leaves the position where it is.
unfoldable pub read_padded : ℕ → Decoder (List ℕ)
read_padded k s = if ltb (length s) k then (err short_read, s) else (ok (take k s), drop k s)

-- byteReader.readString: the padded length must be there before anything is read.
unfoldable pub read_string : Decoder (List ℕ)
unfolding read_padded
read_string = do
  n ← decode_uint32
  guard (leb n max_xdr_string_length) too_long
  padded ← read_padded (round_up n)
  pure (take n padded)

-- The loop over the auxiliary group ids.
unfoldable pub read_gids : ℕ → Decoder (List ℕ)
read_gids zero s = pure [] s
read_gids (suc n) s = (do gid ← decode_uint32; gids ← read_gids n; pure (gid ∷ gids)) s

abbrev pub max_gids : ℕ
max_gids = 16

unfoldable pub parse_auth_sys : List ℕ → Result AuthSysCredential
unfolding read_string read_gids
parse_auth_sys body =
    if nat_beq (length body) 0
    then err empty_body
    else ((do
      stamp ← decode_uint32
      machine_name ← read_string
      uid ← decode_uint32
      gid ← decode_uint32
      n ← decode_uint32
      guard (leb n max_gids) too_many_gids
      aux_gids ← read_gids n
      pure (record {
        stamp = stamp;
        machine_name = machine_name;
        uid = uid;
        gid = gid;
        aux_gids = aux_gids;
      }))
        body).0
