-- ===== src/Rpc/Credentials.antt =====
-- AUTH_SYS credentials: the parser reads those of RFC 1831, and never too many group ids.
use absnfs.Prelude.{
  ℕ, zero, suc, ◌+◌, ◌^◌, ◌≤◌, ◌<◌, ◌≡◌, refl, false, List, [], ◌∷◌, ◌++◌, length, replicate,
  length-replicate, length-append, take-append, drop-append, leb, le→ltb, le→leb, nat_beq, ap,
  arith, Bool-cases, inl, inr,
}
use mathlib.Core.List.{append_assoc}
use absnfs.Prelude.All.{All}
use absnfs.Xdr.{
  ok, too_many_gids, decode_uint32, encode_uint32, encode_string, padding, round_up,
  max_xdr_string_length, decode-encode_uint32,
}
use absnfs.Xdr.Returns.{
  Returns, Returns->>=, Returns-guard, Returns-pure, Returns-trans, Returns-value,
}
use absnfs.Rpc.{AuthSysCredential, max_gids, read_padded, read_string, read_gids, parse_auth_sys}

unfoldable encode_gids : List ℕ → List ℕ
encode_gids [] = []
encode_gids (g ∷ gids) = encode_uint32 g ++ encode_gids gids

-- RFC 1831, `authsys_parms`: what a client sends.
unfoldable pub encode_auth_sys : AuthSysCredential → List ℕ
unfolding encode_gids
encode_auth_sys c =
    encode_uint32 c.stamp
    ++ (encode_string c.machine_name
        ++ (encode_uint32 c.uid
            ++ (encode_uint32 c.gid
                ++ (encode_uint32 (length c.aux_gids) ++ encode_gids c.aux_gids))))

abbrev pub IsWord : ℕ → Type 0
IsWord n = n < 2 ^ 32

pub record IsAuthSys (c : AuthSysCredential) : Type 0 where
  pub stamp_word : c.stamp < 2 ^ 32
  pub name_short : length c.machine_name ≤ max_xdr_string_length
  pub uid_word : c.uid < 2 ^ 32
  pub gid_word : c.gid < 2 ^ 32
  pub gid_words : All IsWord c.aux_gids
  pub few_gids : length c.aux_gids ≤ max_gids

read_padded-append : (s rest : List ℕ) → read_padded (length s) (s ++ rest) ≡ (ok s, rest)
unfolding read_padded
read_padded-append s rest = rw (
  le→ltb (length (s ++ rest)) (length s) (omega (arith, length-append s rest)),
  take-append s rest,
  drop-append s rest,
)

round_up_eq : (n : ℕ) → round_up n ≡ n + padding n
unfolding padding
round_up_eq n = omega arith

read_string-encode :
    (s rest : List ℕ)
    → length s ≤ max_xdr_string_length
    → read_string (encode_string s ++ rest) ≡ (ok s, rest)
unfolding read_string encode_string
read_string-encode s rest short =
    let zeros : List ℕ = replicate (padding (length s)) 0 in
    let len : length (s ++ zeros) ≡ round_up (length s) = omega (
      arith,
      round_up_eq (length s),
      length-append s zeros,
      length-replicate {A = ℕ} (padding (length s)) 0,
    ) in
    rw (
      append_assoc (encode_uint32 (length s)) (s ++ zeros) rest,
      decode-encode_uint32 (length s) ((s ++ zeros) ++ rest) (omega arith),
      le→leb (length s) max_xdr_string_length short,
      ← len,
      read_padded-append (s ++ zeros) rest,
      take-append s zeros,
    )

read_gids-encode :
    (gids rest : List ℕ)
    → All IsWord gids
    → read_gids (length gids) (encode_gids gids ++ rest) ≡ (ok gids, rest)
unfolding read_gids encode_gids
read_gids-encode [] rest w = refl
read_gids-encode (g ∷ gids) rest w = rw (
  append_assoc (encode_uint32 g) (encode_gids gids) rest,
  decode-encode_uint32 g (encode_gids gids ++ rest) w.0,
  read_gids-encode gids rest w.1,
)

not_empty : (v : ℕ) (s : List ℕ) → nat_beq (length (encode_uint32 v ++ s)) 0 ≡ false
unfolding encode_uint32
not_empty v s = ground arith

-- A credential of RFC 1831 is parsed field by field, whatever stands behind it, if its words are
-- below 2^32, its name has at most 8192 bytes and there are at most 16 auxiliary group ids.
pub parse-encode_auth_sys :
    (c : AuthSysCredential) (rest : List ℕ)
    → IsAuthSys c
    → parse_auth_sys (encode_auth_sys c ++ rest) ≡ ok c
unfolding parse_auth_sys encode_auth_sys
parse-encode_auth_sys c rest w =
    let s₅ : List ℕ = encode_gids c.aux_gids ++ rest in
    let s₄ : List ℕ = encode_uint32 (length c.aux_gids) ++ s₅ in
    let s₃ : List ℕ = encode_uint32 c.gid ++ s₄ in
    let s₂ : List ℕ = encode_uint32 c.uid ++ s₃ in
    let s₁ : List ℕ = encode_string c.machine_name ++ s₂ in
    let flat : encode_auth_sys c ++ rest ≡ encode_uint32 c.stamp ++ s₁ = simp append_assoc in
    rw (
      flat,
      not_empty c.stamp s₁,
      decode-encode_uint32 c.stamp s₁ w.stamp_word,
      read_string-encode c.machine_name s₂ w.name_short,
      decode-encode_uint32 c.uid s₃ w.uid_word,
      decode-encode_uint32 c.gid s₄ w.gid_word,
      decode-encode_uint32 (length c.aux_gids) s₅ (omega (arith, w.few_gids)),
      le→leb (length c.aux_gids) max_gids w.few_gids,
      read_gids-encode c.aux_gids rest w.gid_words,
    )

abbrev HasFew : AuthSysCredential → Type 0
HasFew c = length c.aux_gids ≤ max_gids

read_gids-Returns : (n : ℕ) → Returns (read_gids n) (λ gids. length gids ≡ n)
unfolding read_gids
read_gids-Returns zero = Returns-pure (λ gids. length gids ≡ 0) [] refl
read_gids-Returns (suc n) =
    Returns->>= (λ gids. length gids ≡ suc n) decode_uint32 _
      (λ gid.
        Returns-trans (λ gids. length gids ≡ n) (λ gids. length gids ≡ suc n) (read_gids n) _
          (read_gids-Returns n)
          (λ gids len. Returns-pure (λ gids. length gids ≡ suc n) (gid ∷ gids) (ap suc len)))

-- Whatever the bytes are, a credential that is parsed has at most 16 auxiliary group ids, and an
-- empty body is refused.
pub parse_auth_sys-few_gids :
    (body : List ℕ) (c : AuthSysCredential)
    → parse_auth_sys body ≡ ok c
    → (length c.aux_gids ≤ max_gids) × (1 ≤ length body)
unfolding parse_auth_sys
parse_auth_sys-few_gids body c e = elim (Bool-cases (nat_beq (length body) 0)) [
  | inl empty ↦ absurd (ground arith)
  | inr some_bytes ↦
      let returns = Returns->>= HasFew decode_uint32 _ (λ stamp.
        Returns->>= HasFew read_string _ (λ machine_name. Returns->>= HasFew decode_uint32 _ (λ uid.
          Returns->>= HasFew decode_uint32 _ (λ gid. Returns->>= HasFew decode_uint32 _ (λ n.
            Returns-guard HasFew (leb n max_gids) too_many_gids _ (λ few.
              Returns-trans (λ gids. length gids ≡ n) HasFew (read_gids n) _ (read_gids-Returns n)
                (λ aux_gids len.
                  Returns-pure HasFew
                    (record {
                      stamp = stamp;
                      machine_name = machine_name;
                      uid = uid;
                      gid = gid;
                      aux_gids = aux_gids;
                    })
                    (ground (arith, few, len))))))))) in
      (Returns-value HasFew _ body c returns (rw some_bytes at e), ground (arith, some_bytes))
]
