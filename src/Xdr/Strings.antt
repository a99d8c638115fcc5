-- ===== src/Xdr/Strings.antt =====
-- XDR strings: what is written is read back, and what is refused.
use absnfs.Prelude.{
  ℕ, ◌^◌, ◌≤◌, ◌<◌, ◌≡◌, false, List, ◌++◌, length, replicate, length-replicate, ltb, le→leb, arith,
  Bool-cases, inl, inr,
}
use mathlib.Core.Path.{subst}
use mathlib.Core.List.{append_assoc}
use absnfs.Cache.ChildOf.{has_byte}
use absnfs.Xdr.Reader.{
  ok, read_full, encode_uint32, padding, skip_padding, decode-encode_uint32, read_full-append,
}
use absnfs.Xdr.{max_xdr_string_length, encode_string, decode_string}

read_zeros :
    (k : ℕ) (rest : List ℕ) → read_full k (replicate k 0 ++ rest) ≡ (ok (replicate k 0), rest)
read_zeros k rest =
    subst (λ n. read_full n (replicate k 0 ++ rest) ≡ (ok (replicate k 0), rest))
      (length-replicate {A = ℕ} k 0) (read_full-append (replicate k 0) rest)

no_zeros : (k : ℕ) → ltb 0 k ≡ false → k ≡ 0
no_zeros k h = ground arith

pub skip_padding-append :
    (n : ℕ) (rest : List ℕ) → skip_padding n (replicate (padding n) 0 ++ rest) ≡ (ok tt, rest)
unfolding skip_padding
skip_padding-append n rest = elim (Bool-cases (ltb 0 (padding n))) [
  | inl some_left ↦ rw (some_left, read_zeros (padding n) rest)
  | inr no_left ↦ rw (no_left, no_zeros (padding n) no_left)
]

-- A string of at most 8192 bytes with no NUL is read back as it was written, and the reader goes on
-- behind its padding.
pub decode-encode_string :
    (s rest : List ℕ)
    → length s ≤ max_xdr_string_length
    → has_byte 0 s ≡ false
    → decode_string (encode_string s ++ rest) ≡ (ok s, rest)
unfolding decode_string encode_string
decode-encode_string s rest short clean =
    let small : length s < 2 ^ 32 = omega arith in
    let zeros : List ℕ = replicate (padding (length s)) 0 in
    rw (
      append_assoc (encode_uint32 (length s)) (s ++ zeros) rest,
      append_assoc s zeros rest,
      decode-encode_uint32 (length s) (s ++ (zeros ++ rest)) small,
      le→leb (length s) max_xdr_string_length short,
      read_full-append s (zeros ++ rest),
      skip_padding-append (length s) rest,
      clean,
    )
