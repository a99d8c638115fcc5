-- ===== src/Xdr/Reader.antt =====
-- Decoders over bytes, with the words of XDR.
use absnfs.Prelude.{
  ℕ, zero, suc, ◌+◌, ◌-◌, ◌*◌, ◌/◌, ◌%◌, ◌^◌, ◌<◌, ◌≡◌, refl, Bool, true, false, List, [], ◌∷◌,
  ◌++◌, length, take, drop, ltb, if◌then◌else◌, arith, take-append, drop-append, length-append,
  le→ltb, ap, sym, Bool-cases, inl, inr,
}

pub data Error : Type 0 where
  short_read too_long bad_length nul_byte not_call empty_body too_many_gids : Error

pub data Result {ℓ} (A : Type ℓ) : Type ℓ where
  ok : A → Result A
  err : Error → Result A

-- What is read, or the error, and the bytes that are left.
abbrev pub Decoder : Type 0 → Type 0
Decoder A = List ℕ → Result A × List ℕ

module _ {A : Type 0} where
  abbrev pub pure : A → Decoder A
  pure a s = (ok a, s)

  abbrev pub fail : Error → Decoder A
  fail e s = (err e, s)

abbrev pub guard : Bool → Error → Decoder (Unit {0})
guard true e s = (ok tt, s)
guard false e s = (err e, s)

module _ {A B : Type 0} where
  abbrev pub continue : Result A → (A → Decoder B) → Decoder B
  continue (ok a) f s = f a s
  continue (err e) f s = (err e, s)

  infixl 5 ◌>>=◌ ◌>>◌
  abbrev pub ◌>>=◌ : Decoder A → (A → Decoder B) → Decoder B
  ◌>>=◌ m f s = continue (m s).0 f (m s).1

  abbrev pub ◌>>◌ : Decoder A → Decoder B → Decoder B
  m >> k = m >>= λ _. k

-- `io.ReadFull` of `n` bytes, which takes what there is if there are fewer.
unfoldable pub read_full : ℕ → Decoder (List ℕ)
read_full n s = if ltb (length s) n then (err short_read, []) else (ok (take n s), drop n s)

-- Big-endian words.
unfoldable pub encode_uint32 : ℕ → List ℕ
encode_uint32 v = (v / 2 ^ 24 % 256) ∷ (v / 2 ^ 16 % 256) ∷ (v / 2 ^ 8 % 256) ∷ (v % 256) ∷ []

unfoldable pub decode_uint32 : Decoder ℕ
decode_uint32 (a ∷ b ∷ c ∷ d ∷ s) = (ok (a * 2 ^ 24 + b * 2 ^ 16 + c * 2 ^ 8 + d), s)
decode_uint32 _ = (err short_read, [])

unfoldable pub encode_uint64 : ℕ → List ℕ
unfolding encode_uint32
encode_uint64 v = encode_uint32 (v / 2 ^ 32) ++ encode_uint32 v

unfoldable pub decode_uint64 : Decoder ℕ
decode_uint64 (a ∷ b ∷ c ∷ d ∷ e ∷ f ∷ g ∷ h ∷ s) = (
  ok (a * 2 ^ 56 + b * 2 ^ 48 + c * 2 ^ 40 + d * 2 ^ 32 + e * 2 ^ 24 + f * 2 ^ 16 + g * 2 ^ 8 + h),
  s,
)
decode_uint64 _ = (err short_read, [])

-- `(4 - n % 4) % 4`.
unfoldable pub padding : ℕ → ℕ
padding n = (4 - n % 4) % 4

unfoldable pub skip_padding : ℕ → Decoder (Unit {0})
unfolding read_full padding
skip_padding n = if ltb 0 (padding n) then (do read_full (padding n); pure tt) else pure tt

-- What was written is read back, and the reader goes on behind it.
pub decode-encode_uint32 :
    (v : ℕ) (rest : List ℕ) → v < 2 ^ 32 → decode_uint32 (encode_uint32 v ++ rest) ≡ (ok v, rest)
unfolding encode_uint32 decode_uint32
decode-encode_uint32 v rest h = ap (λ (n : ℕ). (ok n, rest)) (omega arith)

pub decode-encode_uint64 :
    (v : ℕ) (rest : List ℕ) → v < 2 ^ 64 → decode_uint64 (encode_uint64 v ++ rest) ≡ (ok v, rest)
unfolding encode_uint64 decode_uint64
decode-encode_uint64 v rest h = ap (λ (n : ℕ). (ok n, rest)) (omega arith)

pub read_full-append : (s rest : List ℕ) → read_full (length s) (s ++ rest) ≡ (ok s, rest)
unfolding read_full
read_full-append s rest = rw (
  le→ltb (length (s ++ rest)) (length s) (omega (arith, length-append s rest)),
  take-append s rest,
  drop-append s rest,
)

module _ {A B : Type 0} (m : Decoder A) (f : A → Decoder B) where
  -- What a successful chain did.
  pub >>=-eq-ok :
      (s rest : List ℕ) (b : B)
      → (m >>= f) s ≡ (ok b, rest)
      → (a : A) × (t : List ℕ) × (m s ≡ (ok a, t)) × (f a t ≡ (ok b, rest))
  >>=-eq-ok s rest b h = go (m s) refl h
    where
      go :
          (r : Result A × List ℕ)
          → m s ≡ r
          → continue r.0 f r.1 ≡ (ok b, rest)
          → (a : A) × (t : List ℕ) × (m s ≡ (ok a, t)) × (f a t ≡ (ok b, rest))
      go (ok a, t) e k = (a, t, e, k)
      go (err x, t) e k = absurd (ground arith)

pub guard-eq-ok :
    (b : Bool) (e : Error) (s rest : List ℕ) → guard b e s ≡ (ok tt, rest) → (b ≡ true) × (s ≡ rest)
guard-eq-ok true e s rest h = (refl, ground arith)
guard-eq-ok false e s rest h = absurd (ground arith)

pub length-take_eq : (n : ℕ) (s : List ℕ) → ltb (length s) n ≡ false → length (take n s) ≡ n
length-take_eq zero s h = refl
length-take_eq (suc n) [] h = absurd (ground arith)
length-take_eq (suc n) (x ∷ s) h = ap suc (length-take_eq n s (ground arith))

pub take-drop : (n : ℕ) (s : List ℕ) → take n s ++ drop n s ≡ s
take-drop zero s = refl
take-drop (suc n) [] = refl
take-drop (suc n) (x ∷ s) = ap (λ t. x ∷ t) (take-drop n s)

pub read_full-ok :
    (n : ℕ) (s b rest : List ℕ) → read_full n s ≡ (ok b, rest) → (length b ≡ n) × (s ≡ b ++ rest)
unfolding read_full
read_full-ok n s b rest h = elim (Bool-cases (ltb (length s) n)) [
  | inl few ↦ absurd (ground arith)
  | inr enough ↦
      let e : take n s ≡ b = ground arith in
      let k : drop n s ≡ rest = ground arith in
      rw (← e, ← k) (length-take_eq n s enough, sym (take-drop n s))
]
