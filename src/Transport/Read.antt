-- ===== src/Transport/Read.antt =====
-- Reading a record ends on every input, and keeps the limit.
use absnfs.Prelude.{
  ℕ, zero, suc, ◌+◌, ◌%◌, ◌≤◌, ◌<◌, ◌≡◌, refl, ap, Bool, true, false, some, List, [], ◌∷◌, ◌++◌,
  length, ltb, leb, if◌then◌else◌, arith, length-append,
}
use absnfs.Xdr.{
  too_long, Result, ok, err, pure, guard, read_full, decode_uint32, >>=-eq-ok, guard-eq-ok,
  read_full-ok,
}
use absnfs.Transport.{
  last_fragment_flag, max_fragment_size, read_fragment, continue_with, read_loop, read_record,
  Outcome,
}

decode_uint32_takes : (s t : List ℕ) (v : ℕ) → decode_uint32 s ≡ (ok v, t) → length t + 4 ≤ length s
unfolding decode_uint32
decode_uint32_takes [] t v e = absurd (ground arith)
decode_uint32_takes (a ∷ []) t v e = absurd (ground arith)
decode_uint32_takes (a ∷ b ∷ []) t v e = absurd (ground arith)
decode_uint32_takes (a ∷ b ∷ c ∷ []) t v e = absurd (ground arith)
decode_uint32_takes (a ∷ b ∷ c ∷ d ∷ s) t v e =
    let same : s ≡ t = ground arith in rw same (omega arith)

body_takes :
    (n : ℕ) (s f t : List ℕ)
    → (if ltb 0 n then read_full n else pure []) s ≡ (ok f, t)
    → (length f ≡ n) × (length t ≤ length s)
body_takes zero s f t e =
    let nothing : f ≡ [] = ground arith in
    let same : s ≡ t = ground arith in rw (nothing, same) (refl, omega arith)
body_takes (suc n) s f t e =
    let some_bytes : ltb 0 (suc n) ≡ true = ground arith in
    let (len, split) = read_full-ok (suc n) s f t (rw some_bytes at e) in
    (len, rw split (omega (arith, length-append f t)))

pure_parts :
    (a a' : Bool) (b b' s t : List ℕ)
    → pure {A = Bool × List ℕ} (a, b) s ≡ (ok (a', b'), t)
    → (b ≡ b') × (s ≡ t)
pure_parts a a' b b' s t e = (ground arith, ground arith)

fragment_bounds :
    (max : ℕ) (buf s buf' t : List ℕ) (last : Bool)
    → read_fragment max buf s ≡ (ok (last, buf'), t)
    → (length buf' ≤ max) × (length t < length s)
unfolding read_fragment
fragment_bounds max buf s buf' t last e =
    let (header, s₁, e₁, k₁) = >>=-eq-ok decode_uint32 _ s t (last, buf') e in
    let n = header % last_fragment_flag in
    let (u, s₂, e₂, k₂) =
      >>=-eq-ok (guard (leb n max_fragment_size) too_long) _ s₁ t (last, buf') k₁ in
    let (v, s₃, e₃, k₃) =
      >>=-eq-ok (guard (leb (length buf + n) max) too_long) _ s₂ t (last, buf') k₂ in
    let (f, s₄, e₄, k₄) =
      >>=-eq-ok (if ltb 0 n then read_full n else pure []) _ s₃ t (last, buf') k₃ in
    let four = decode_uint32_takes s s₁ header e₁ in
    let (_, same) = guard-eq-ok (leb n max_fragment_size) too_long s₁ s₂ e₂ in
    let (fits, same') = guard-eq-ok (leb (length buf + n) max) too_long s₂ s₃ e₃ in
    let (len, less) = body_takes n s₃ f s₄ e₄ in
    let (joined, same'') = pure_parts _ last (buf ++ f) buf' s₄ t k₄ in
    let room : length buf + n ≤ max = ground arith in
    (
      rw (← joined) (omega (arith, length-append buf f)),
      omega (arith, ap length same, ap length same', ap length same''),
    )

-- A record that is read is within the limit.
abbrev pub WithinLimit : ℕ → Outcome → Type 0
WithinLimit max (ok d, t) = length d ≤ max
WithinLimit max (err e, t) = Unit

read_loop_total :
    (fuel max : ℕ) (buf s : List ℕ)
    → length s < fuel
    → (r : Outcome) × (read_loop fuel max buf s ≡ some r) × WithinLimit max r
unfolding read_loop
read_loop_total zero max buf s enough = absurd (omega arith)
read_loop_total (suc fuel) max buf s enough =
    go (λ buf' t less. read_loop_total fuel max buf' t less) (read_fragment max buf s) refl
  where
    go :
        ((buf' t : List ℕ)
          → length t < fuel
          → (r : Outcome) × (read_loop fuel max buf' t ≡ some r) × WithinLimit max r)
        → (o : Result (Bool × List ℕ) × List ℕ) → read_fragment max buf s ≡ o
        → (r : Outcome) × (continue_with (read_loop fuel max) o.0 o.1 ≡ some r) × WithinLimit max r
    go later (err x, t) e = ((err x, t), refl, tt)
    go later (ok (true, buf'), t) e =
        ((ok buf', t), refl, (fragment_bounds max buf s buf' t true e).0)
    go later (ok (false, buf'), t) e =
        later buf' t (omega (arith, (fragment_bounds max buf s buf' t false e).1))

-- ReadRecord comes to an end on every input, also on one that never has a last fragment, and a
-- record that it returns has at most the bytes of its limit.
pub read_record_total :
    (max : ℕ) (s : List ℕ) → (r : Outcome) × (read_record max s ≡ some r) × WithinLimit max r
unfolding read_record
read_record_total max s = read_loop_total (suc (length s)) max [] s (omega arith)
