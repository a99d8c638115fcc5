-- ===== src/Transport/Written.antt =====
-- What a writer of records writes, a reader reads.
use absnfs.Prelude.{
  ℕ, zero, suc, ◌+◌, ◌-◌, ◌%◌, ◌^◌, ◌≤◌, ◌<◌, ◌≡◌, refl, ap, ◌∙◌, Bool, true, false, Option, some,
  List, [], ◌∷◌, ◌++◌, length, take, drop, ltb, leb, le→leb, lt→ltb, if◌then◌else◌, Bool-cases, inl,
  inr, arith, length-append, take_of_length-le,
}
use mathlib.Core.List.{append_assoc, append-nil}
use absnfs.Xdr.{
  ok, pure, read_full, encode_uint32, decode-encode_uint32, read_full-append, take-drop,
}
use absnfs.Transport.{
  last_fragment_flag, max_fragment_size, fragment_size, fragment_header, write_loop, write_record,
  read_fragment, read_loop, read_record,
}

read_part :
    (part rest : List ℕ)
    → (if ltb 0 (length part) then read_full (length part) else pure []) (part ++ rest)
      ≡ (ok part, rest)
read_part [] rest = refl
read_part (b ∷ part) rest =
    rw (lt→ltb 0 (length (b ∷ part)) (omega arith)) (read_full-append (b ∷ part) rest)

-- One fragment, by the parts of its header.
read_fragment-header :
    (max header : ℕ) (buf part rest : List ℕ)
    → header < 2 ^ 32
    → header % last_fragment_flag ≡ length part
    → length buf + length part ≤ max
    → read_fragment max buf (encode_uint32 header ++ (part ++ rest))
      ≡ (ok (leb last_fragment_flag header, buf ++ part), rest)
unfolding read_fragment
read_fragment-header max header buf part rest word len fits = rw (
  decode-encode_uint32 header (part ++ rest) word,
  len,
  le→leb (length part) max_fragment_size (omega (arith, len)),
  le→leb (length buf + length part) max fits,
  read_part part rest,
)

length-drop : (n : ℕ) (xs : List ℕ) → length (drop n xs) ≡ length xs - n
length-drop zero xs = omega arith
length-drop (suc n) [] = omega arith
length-drop (suc n) (x ∷ xs) = omega (arith, length-drop n xs)

length-take : (n : ℕ) (xs : List ℕ) → n ≤ length xs → length (take n xs) ≡ n
length-take zero xs h = refl
length-take (suc n) [] h = absurd (omega arith)
length-take (suc n) (x ∷ xs) h = ap suc (length-take n xs (omega arith))

-- The bytes, with what a reader makes of them that has read the buffer before.
record Sent (mf : ℕ) (d : List ℕ) (out : Option (List ℕ)) : Type 0 where
  bytes : List ℕ
  there : out ≡ some bytes
  long : length d ≤ length bytes
  read_back :
      (fuel max : ℕ) (buf rest : List ℕ)
      → length d ≤ fuel
      → length buf + length d ≤ max
      → read_loop fuel max buf (bytes ++ rest) ≡ some (ok (buf ++ d), rest)

header_length : (v : ℕ) → length (encode_uint32 v) ≡ 4
unfolding encode_uint32
header_length v = refl

-- One round of the loop.
read_loop_round :
    (fuel max : ℕ) (buf s buf' t : List ℕ) (b : Bool)
    → 0 < fuel
    → read_fragment max buf s ≡ (ok (b, buf'), t)
    → read_loop fuel max buf s ≡ (if b then some (ok buf', t) else read_loop (fuel - 1) max buf' t)
unfolding read_loop
read_loop_round zero max buf s buf' t b pos e = absurd (omega arith)
read_loop_round (suc fuel) max buf s buf' t true pos e = rw e refl
read_loop_round (suc fuel) max buf s buf' t false pos e =
    let less : suc fuel - 1 ≡ fuel = omega arith in rw (e, less) refl

-- The last fragment.
read_last :
    (max : ℕ) (buf d rest : List ℕ)
    → length d ≤ max_fragment_size
    → length buf + length d ≤ max
    → read_fragment max buf (encode_uint32 (length d + last_fragment_flag) ++ (d ++ rest))
      ≡ (ok (true, buf ++ d), rest)
read_last max buf d rest small fits =
    let flagged : leb last_fragment_flag (length d + last_fragment_flag) ≡ true = ground arith in
    let e =
      read_fragment-header max (length d + last_fragment_flag) buf d rest (omega arith)
        (omega arith) fits in
    rw flagged at e

Sent-last :
    (mf : ℕ) (d : List ℕ)
    → 0 < length d
    → length d ≤ max_fragment_size
    → Sent mf d (some (encode_uint32 (length d + last_fragment_flag) ++ (d ++ [])))
unfolding read_loop
Sent-last mf d pos small = record {
  bytes = encode_uint32 (length d + last_fragment_flag) ++ (d ++ []);
  there = refl;
  long =
      rw append-nil
        (omega (arith, length-append (encode_uint32 (length d + last_fragment_flag)) d));
  read_back = λ fuel max buf rest enough fits.
      rw (append-nil, append_assoc (encode_uint32 (length d + last_fragment_flag)) d rest)
        (rw
          (read_loop_round fuel max buf _ (buf ++ d) rest true (omega arith)
            (read_last max buf d rest small fits))
          refl);
}

read_next :
    (max mf : ℕ) (buf part rest : List ℕ)
    → length part ≡ mf
    → mf ≤ max_fragment_size
    → length buf + mf ≤ max
    → read_fragment max buf (encode_uint32 mf ++ (part ++ rest)) ≡ (ok (false, buf ++ part), rest)
read_next max mf buf part rest len small fits =
    let plain : leb last_fragment_flag mf ≡ false = ground arith in
    let e =
      read_fragment-header max mf buf part rest (omega arith) (omega (arith, len))
        (omega (arith, len)) in
    rw plain at e

-- A fragment with more behind it.
Sent-next :
    (mf : ℕ) (d : List ℕ) (out : Option (List ℕ))
    → 0 < mf
    → mf ≤ max_fragment_size
    → mf < length d
    → (r : Sent mf (drop mf d) out) → Sent mf d (some (encode_uint32 mf ++ (take mf d ++ r.bytes)))
unfolding read_loop
Sent-next mf d out pos small more r = record {
  bytes = encode_uint32 mf ++ (take mf d ++ r.bytes);
  there = refl;
  long = omega (
    arith,
    length-append (encode_uint32 mf) (take mf d ++ r.bytes),
    length-append (take mf d) r.bytes,
    length-take mf d,
    length-drop mf d,
    r.long,
  );
  read_back = λ fuel max buf rest enough fits.
      let len : length (take mf d) ≡ mf = length-take mf d (omega arith) in
      let len' = length-drop mf d in
      rw
        (
          append_assoc (encode_uint32 mf) (take mf d ++ r.bytes) rest,
          append_assoc (take mf d) r.bytes rest,
        )
        (read_loop_round fuel max buf _ (buf ++ take mf d) (r.bytes ++ rest) false (omega arith)
            (read_next max mf buf (take mf d) (r.bytes ++ rest) len small (omega arith))
          ∙ r.read_back (fuel - 1) max (buf ++ take mf d) rest (omega arith)
              (omega (arith, length-append buf (take mf d)))
          ∙ rw (append_assoc buf (take mf d) (drop mf d), take-drop mf d) refl);
}

drop_all : (xs : List ℕ) → drop (length xs) xs ≡ []
drop_all [] = refl
drop_all (x ∷ xs) = drop_all xs

write_more :
    (fuel mf b : ℕ) (d rest : List ℕ)
    → mf < length (b ∷ d)
    → write_loop fuel mf (drop mf (b ∷ d)) ≡ some rest
    → write_loop (suc fuel) mf (b ∷ d) ≡ some (encode_uint32 mf ++ (take mf (b ∷ d) ++ rest))
unfolding write_loop
write_more fuel mf b d rest less e =
    let size : fragment_size mf (length (b ∷ d)) ≡ mf = ground arith in
    let head : fragment_header (length (b ∷ d)) mf ≡ mf = ground arith in
    rw (size, write_loop) (rw e (rw (size, head)))

write_all :
    (fuel mf b : ℕ) (d : List ℕ)
    → length (b ∷ d) ≤ mf
    → write_loop (suc fuel) mf (b ∷ d)
      ≡ some (encode_uint32 (length (b ∷ d) + last_fragment_flag) ++ ((b ∷ d) ++ []))
unfolding write_loop
write_all fuel mf b d all =
    let n = length (b ∷ d) in
    let size : fragment_size mf n ≡ n = ground arith in
    let head : fragment_header n n ≡ n + last_fragment_flag = ground arith in
    rw (size, write_loop)
      (rw (drop_all d, size, head, take_of_length-le (length d) d (omega arith)))

sent :
    (fuel mf : ℕ) (d : List ℕ)
    → 0 < mf
    → mf ≤ max_fragment_size
    → 0 < length d
    → length d ≤ fuel
    → Sent mf d (write_loop fuel mf d)
unfolding write_loop
sent fuel mf [] pos small some_data enough = absurd (omega arith)
sent zero mf (b ∷ d) pos small some_data enough = absurd (omega arith)
sent (suc fuel) mf (b ∷ d) pos small some_data enough =
    elim (Bool-cases (ltb mf (length (b ∷ d)))) [
      | inl more ↦
          let less : mf < length (b ∷ d) = ground arith in
          let len = length-drop mf (b ∷ d) in
          let r = sent fuel mf (drop mf (b ∷ d)) pos small (omega arith) (omega arith) in
          rw (write_more fuel mf b d r.bytes less r.there) (Sent-next mf (b ∷ d) _ pos small less r)
      | inr fits ↦
          let all : length (b ∷ d) ≤ mf = ground arith in
          rw (write_all fuel mf b d all) (Sent-last mf (b ∷ d) some_data (omega arith))
    ]

-- Whatever a writer with a limit of 1 to 2^31 - 1 bytes for a fragment writes for a record, a reader
-- with a limit for records that it keeps reads back whole, and goes on behind it. The writer does
-- write: its loop ends.
pub read_record-write_record :
    (mf max : ℕ) (d rest : List ℕ)
    → 0 < mf
    → mf ≤ max_fragment_size
    → length d ≤ max
    → (bytes : List ℕ) × (write_record mf d ≡ some bytes)
      × (read_record max (bytes ++ rest) ≡ some (ok d, rest))
unfolding write_record read_record
read_record-write_record mf max [] rest pos small fits = (
  encode_uint32 last_fragment_flag,
  refl,
  read_loop_round (suc (length (encode_uint32 last_fragment_flag ++ rest))) max [] _ [] rest true
      (omega arith) (read_last max [] [] rest (omega arith) (omega arith)),
)
read_record-write_record mf max (b ∷ d) rest pos small fits =
    let r = sent (length (b ∷ d)) mf (b ∷ d) pos small (omega arith) (omega arith) in
    (
      r.bytes,
      r.there,
      r.read_back (suc (length (r.bytes ++ rest))) max [] rest
          (omega (arith, length-append r.bytes rest, r.long)) (omega arith),
    )
