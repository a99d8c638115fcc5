-- ===== src/Xdr/Handles.antt =====
-- Words and file handles on the wire: the decoders accept what the encoders write, and nothing else.
use absnfs.Prelude.{
  ℕ, ◌+◌, ◌*◌, ◌^◌, ◌<◌, ◌≡◌, ◌≢◌, refl, ◌∙◌, sym, Bool, true, false, List, [], ◌∷◌, ◌++◌, length,
  ltb, leb, if◌then◌else◌, arith, Bool-cases, inl, inr, nat_beq, nat_beq_iff,
}
use mathlib.Core.List.{append_assoc}
use absnfs.Xdr.Reader.{
  ok, err, Decoder, bad_length, too_long, ◌>>=◌, ◌>>◌, guard, fail, pure, read_full, decode_uint32,
  encode_uint32, decode_uint64, encode_uint64, decode-encode_uint32, decode-encode_uint64,
  >>=-eq-ok, read_full-append,
}
use absnfs.Xdr.{encode_file_handle, decode_file_handle, round_up}

abbrev pub AreBytes : List ℕ → Type 0
AreBytes [] = Unit
AreBytes (b ∷ s) = (b < 256) × AreBytes s

word_bytes :
    (a b c d : ℕ)
    → a < 256
    → b < 256
    → c < 256
    → d < 256
    → encode_uint32 (a * 2 ^ 24 + b * 2 ^ 16 + c * 2 ^ 8 + d) ≡ a ∷ b ∷ c ∷ d ∷ []
unfolding encode_uint32
word_bytes a b c d ha hb hc hd = ground arith

pub decode_uint32-ok :
    (s rest : List ℕ) (v : ℕ)
    → AreBytes s
    → decode_uint32 s ≡ (ok v, rest)
    → (s ≡ encode_uint32 v ++ rest) × (v < 2 ^ 32) × AreBytes rest
unfolding decode_uint32
decode_uint32-ok [] rest v h e = absurd (ground arith)
decode_uint32-ok (a ∷ []) rest v h e = absurd (ground arith)
decode_uint32-ok (a ∷ b ∷ []) rest v h e = absurd (ground arith)
decode_uint32-ok (a ∷ b ∷ c ∷ []) rest v h e = absurd (ground arith)
decode_uint32-ok (a ∷ b ∷ c ∷ d ∷ s) rest v (ha, (hb, (hc, (hd, hs)))) e =
    let value : a * 2 ^ 24 + b * 2 ^ 16 + c * 2 ^ 8 + d ≡ v = ground arith in
    let left : s ≡ rest = ground arith in
    rw (← left, ← value) (rw (word_bytes a b c d ha hb hc hd) refl, omega arith, hs)

-- A handle below 2^64 is read back as it was written, and the reader goes on behind it.
pub decode-encode_file_handle :
    (h : ℕ) (rest : List ℕ)
    → h < 2 ^ 64
    → decode_file_handle (encode_file_handle h ++ rest) ≡ (ok h, rest)
unfolding decode_file_handle encode_file_handle
decode-encode_file_handle h rest small =
    rw
      (
        append_assoc (encode_uint32 8) (encode_uint64 h) rest,
        decode-encode_uint32 8 (encode_uint64 h ++ rest) (omega arith),
      )
      (decode-encode_uint64 h rest small)

-- The rest of `decode_file_handle`, behind the length.
abbrev handle_of_length : ℕ → Decoder ℕ
handle_of_length n = do
  guard (leb n 64) too_long
  if nat_beq n 8
      then decode_uint64
      else do if ltb 0 n then (do read_full (round_up n); pure tt) else pure tt; fail bad_length

refused :
    (n : ℕ) (s rest : List ℕ) (h : ℕ)
    → (do
      if ltb 0 n then (do read_full (round_up n); pure tt) else pure tt
      fail {A = ℕ} bad_length)
        s
      ≡ (ok h, rest)
    → ⊥
refused n s rest h e = go (if ltb 0 n then (do read_full (round_up n); pure tt) else pure tt) e
  where
    go : (m : Decoder (Unit {0})) → (m >>= λ _. fail {A = ℕ} bad_length) s ≡ (ok h, rest) → ⊥
    go m k =
        let (a, t, e₁, e₂) = >>=-eq-ok m (λ _. fail {A = ℕ} bad_length) s rest h k in ground arith

handle_of_length-ok :
    (n : ℕ) (s rest : List ℕ) (h : ℕ)
    → handle_of_length n s ≡ (ok h, rest)
    → (n ≡ 8) × (decode_uint64 s ≡ (ok h, rest))
handle_of_length-ok n s rest h e = elim (Bool-cases (leb n 64)) [
  | inr long ↦ absurd (ground arith)
  | inl short ↦ elim (Bool-cases (nat_beq n 8)) [
    | inl is_8 ↦ ((nat_beq_iff n 8).0 is_8, rw (short, is_8) at e)
    | inr other ↦ absurd (refused n s rest h (rw (short, other) at e))
  ]
]

long_word_bytes :
    (a b c d e f g h : ℕ)
    → a < 256
    → b < 256
    → c < 256
    → d < 256
    → e < 256
    → f < 256
    → g < 256
    → h < 256
    → encode_uint64 (
        a * 2 ^ 56 + b * 2 ^ 48 + c * 2 ^ 40 + d * 2 ^ 32 + e * 2 ^ 24 + f * 2 ^ 16 + g * 2 ^ 8 + h)
      ≡ a ∷ b ∷ c ∷ d ∷ e ∷ f ∷ g ∷ h ∷ []
unfolding encode_uint64
long_word_bytes a b c d e f g h ha hb hc hd he hf hg hh = ground arith

decode_uint64-ok :
    (s rest : List ℕ) (v : ℕ)
    → AreBytes s
    → decode_uint64 s ≡ (ok v, rest)
    → (s ≡ encode_uint64 v ++ rest) × (v < 2 ^ 64)
unfolding decode_uint64
decode_uint64-ok (a ∷ b ∷ c ∷ d ∷ e ∷ f ∷ g ∷ h ∷ s) rest v
      (ha, (hb, (hc, (hd, (he, (hf, (hg, (hh, hs)))))))) k =
    let value : a * 2 ^ 56
          + b * 2 ^ 48
          + c * 2 ^ 40
          + d * 2 ^ 32
          + e * 2 ^ 24
          + f * 2 ^ 16
          + g * 2 ^ 8
          + h
        ≡ v =
      ground arith in
    let left : s ≡ rest = ground arith in
    rw (← left, ← value)
      (rw (long_word_bytes a b c d e f g h ha hb hc hd he hf hg hh) refl, omega arith)
decode_uint64-ok s rest v bytes k = absurd (ground arith)

-- What is accepted for a handle, in a sequence of bytes, is what the encoder writes for it: no
-- other length, and no other bytes.
pub decode_file_handle-ok :
    (s rest : List ℕ) (h : ℕ)
    → AreBytes s
    → decode_file_handle s ≡ (ok h, rest)
    → (s ≡ encode_file_handle h ++ rest) × (h < 2 ^ 64)
unfolding decode_file_handle encode_file_handle
decode_file_handle-ok s rest h bytes e =
    let (n, t, word, e₁) = >>=-eq-ok decode_uint32 handle_of_length s rest h e in
    let (s_eq, n_small, t_bytes) = decode_uint32-ok s t n bytes word in
    let (is_8, e₂) = handle_of_length-ok n t rest h e₁ in
    let (t_eq, h_small) = decode_uint64-ok t rest h t_bytes e₂ in
    (s_eq ∙ rw (is_8, t_eq) (sym (append_assoc (encode_uint32 8) (encode_uint64 h) rest)), h_small)

no_bytes : (s : List ℕ) → length s ≡ 0 → s ≡ []
no_bytes [] h = refl
no_bytes (x ∷ s) h = absurd (omega arith)

-- A handle whose length is not 8 is refused. If the length is at most 64, and the bytes are there up
-- to the next multiple of four, the reader goes on behind them; if not, it stays behind the length.
pub decode_file_handle_refused :
    (n : ℕ) (s rest : List ℕ)
    → n < 2 ^ 32
    → n ≢ 8
    → length s ≡ round_up n
    → decode_file_handle (encode_uint32 n ++ (s ++ rest))
      ≡ (if leb n 64 then (err bad_length, rest) else (err too_long, s ++ rest))
unfolding decode_file_handle
decode_file_handle_refused n s rest small other len =
    rw (decode-encode_uint32 n (s ++ rest) small) (elim (Bool-cases (leb n 64)) [
      | inr long ↦ rw long
      | inl short ↦ rw (short, not_8 n other) (discarded (ltb 0 n) refl)
    ])
  where
    not_8 : (k : ℕ) → k ≢ 8 → nat_beq k 8 ≡ false
    not_8 k h = ground arith

    discarded :
        (b : Bool)
        → ltb 0 n ≡ b
        → ((if b then (do read_full (round_up n); pure tt) else pure tt) >>= λ _.
              fail {A = ℕ} bad_length)
            (s ++ rest)
          ≡ (err bad_length, rest)
    discarded true e = rw (← len) (rw (read_full-append s rest))
    discarded false e = rw (no_bytes s (ground (arith, len))) refl
