-- ===== src/Rpc/Tests.antt =====
-- A call, a reply and a credential, on which the theorems on RPC are tried.
use absnfs.Prelude.{ℕ, ◌≡◌, refl, List, [], ◌∷◌, ◌++◌, arith}
use absnfs.Xdr.{ok}
use absnfs.Rpc.{
  RpcMsgHeader, OpaqueAuth, RpcCall, RpcReply, word, AuthSysCredential, decode_rpc_call,
  encode_rpc_reply,
}
use absnfs.Rpc.Auth.{IsAuth}
use absnfs.Rpc.Calls.{IsCall, encode_rpc_call, decode-encode_rpc_call}
use absnfs.Rpc.Replies.{IsReply, read_reply, body_of, results_of, read_reply-encode}
use absnfs.Rpc.Credentials.{IsAuthSys}

abbrev behind : List ℕ
behind = 9 ∷ []

abbrev no_auth : OpaqueAuth
no_auth = record { flavor = 0; body = [] }

abbrev five_bytes : OpaqueAuth
five_bytes = record { flavor = 1; body = 1 ∷ 2 ∷ 3 ∷ 4 ∷ 5 ∷ [] }

abbrev header : RpcMsgHeader
header = record {
  xid = 77;
  msg_type = 0;
  rpc_version = 2;
  program = 100003;
  version = 3;
  procedure = 1;
}

abbrev call : RpcCall
call = record { header = header; credential = five_bytes; verifier = no_auth }

abbrev reply : RpcReply
reply = record {
  header = header;
  status = 0;
  accept_status = 0;
  verifier = no_auth;
  result = word 5;
}

abbrev credential : AuthSysCredential
credential = record {
  stamp = 1;
  machine_name = b'm' ∷ [];
  uid = 1000;
  gid = 100;
  aux_gids = 4 ∷ 24 ∷ [];
}

no_auth_ok : IsAuth no_auth
no_auth_ok = record { flavor_word = omega arith; short = omega arith }

five_bytes_ok : IsAuth five_bytes
five_bytes_ok = record { flavor_word = omega arith; short = omega arith }

call_ok : IsCall call
call_ok = record {
  header_ok = record {
    xid_word = omega arith;
    is_call = refl;
    rpc_version_word = omega arith;
    program_word = omega arith;
    version_word = omega arith;
    procedure_word = omega arith;
  };
  credential_ok = five_bytes_ok;
  verifier_ok = no_auth_ok;
}

reply_ok : IsReply reply
reply_ok = record {
  xid_word = omega arith;
  status_word = omega arith;
  accept_word = omega arith;
  verifier_ok = no_auth_ok;
}

credential_ok : IsAuthSys credential
credential_ok = record {
  stamp_word = omega arith;
  name_short = omega arith;
  uid_word = omega arith;
  gid_word = omega arith;
  gid_words = (omega arith, (omega arith, tt));
  few_gids = omega arith;
}

decode-encode_rpc_call_example :
    decode_rpc_call (encode_rpc_call call ++ behind) ≡ (ok call, behind)
decode-encode_rpc_call_example = decode-encode_rpc_call call behind call_ok

read_reply-encode_example :
    read_reply (encode_rpc_reply reply ++ behind)
    ≡ (ok (reply.header.xid, body_of reply), results_of reply ++ behind)
read_reply-encode_example = read_reply-encode reply behind reply_ok
