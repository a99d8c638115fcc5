-- ===== src/Rpc/Auth.antt =====
-- Credentials and verifiers: what the reply encoder writes for one is what the call decoder reads.
use absnfs.Prelude.{
  ℕ, ◌^◌, ◌≤◌, ◌<◌, ◌≡◌, List, [], ◌∷◌, ◌++◌, length, replicate, ltb, lt→ltb, le→leb, if◌then◌else◌,
  arith,
}
use mathlib.Core.List.{append_assoc}
use absnfs.Xdr.{ok, encode_uint32, padding, decode-encode_uint32, read_full-append}
use absnfs.Xdr.Strings.{skip_padding-append}
use absnfs.Rpc.{OpaqueAuth, decode_auth, encode_verifier, max_rpc_auth_length}

pub record IsAuth (a : OpaqueAuth) : Type 0 where
  pub flavor_word : a.flavor < 2 ^ 32
  pub short : length a.body ≤ max_rpc_auth_length

-- The body and its padding stand there also where the encoder leaves an empty one out.
encode_verifier_lem :
    (a : OpaqueAuth) (rest : List ℕ)
    → encode_verifier a ++ rest
      ≡ encode_uint32 a.flavor
        ++ (encode_uint32 (length a.body)
            ++ (a.body ++ (replicate (padding (length a.body)) 0 ++ rest)))
unfolding encode_verifier padding
encode_verifier_lem a rest = go a.body
  where
    go :
        (b : List ℕ)
        → (encode_uint32 a.flavor
              ++ (encode_uint32 (length b)
                  ++ (if ltb 0 (length b) then b ++ replicate (padding (length b)) 0 else [])))
            ++ rest
          ≡ encode_uint32 a.flavor
            ++ (encode_uint32 (length b) ++ (b ++ (replicate (padding (length b)) 0 ++ rest)))
    go [] = simp append_assoc
    go (x ∷ b) = rw (lt→ltb 0 (length (x ∷ b)) (omega arith)) (simp append_assoc)

-- A verifier of at most 400 bytes that a reply carries is read back as a credential or verifier.
pub decode-encode_verifier :
    (a : OpaqueAuth) (rest : List ℕ)
    → IsAuth a
    → decode_auth (encode_verifier a ++ rest) ≡ (ok a, rest)
unfolding decode_auth
decode-encode_verifier a rest h =
    let n = length a.body in
    let zeros : List ℕ = replicate (padding n) 0 in
    let small : n < 2 ^ 32 = omega arith in
    rw (
      encode_verifier_lem a rest,
      decode-encode_uint32 a.flavor (encode_uint32 n ++ (a.body ++ (zeros ++ rest))) h.flavor_word,
      decode-encode_uint32 n (a.body ++ (zeros ++ rest)) small,
      le→leb n max_rpc_auth_length h.short,
      read_full-append a.body (zeros ++ rest),
      skip_padding-append n rest,
    )
