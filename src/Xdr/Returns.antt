-- ===== src/Xdr/Returns.antt =====
-- What a decoder returns if it succeeds, by the steps of its do block.
use absnfs.Prelude.{ℕ, ◌≡◌, Bool, true, List, length, ap}
use mathlib.Core.Path.{subst}
use absnfs.Xdr.Reader.{
  Error, Result, ok, err, Decoder, pure, guard, ◌>>=◌, ◌>>◌, read_full, >>=-eq-ok, guard-eq-ok,
  read_full-ok,
}

-- Every result of the decoder has the property.
abbrev pub Returns : {B : Type 0} → Decoder B → (B → Type 0) → Type 0
Returns {B} m P = (s rest : List ℕ) (b : B) → m s ≡ (ok b, rest) → P b

module _ {B : Type 0} (P : B → Type 0) where
  pub Returns->>= :
      {A : Type 0} (m : Decoder A) (f : A → Decoder B)
      → ((a : A) → Returns (f a) P)
      → Returns (m >>= f) P
  Returns->>= m f h s rest b e = let (a, t, _, k) = >>=-eq-ok m f s rest b e in h a t rest b k

  pub Returns-guard :
      (g : Bool) (x : Error) (k : Decoder B) → (g ≡ true → Returns k P) → Returns (guard g x >> k) P
  Returns-guard g x k h s rest b e =
      let (_, t, e₁, e₂) = >>=-eq-ok (guard g x) (λ _. k) s rest b e in
      h ((guard-eq-ok g x s t e₁).0) t rest b e₂

  pub Returns-read_full :
      (n : ℕ) (f : List ℕ → Decoder B)
      → ((l : List ℕ) → length l ≡ n → Returns (f l) P)
      → Returns (read_full n >>= f) P
  Returns-read_full n f h s rest b e =
      let (l, t, e₁, e₂) = >>=-eq-ok (read_full n) f s rest b e in
      h l ((read_full-ok n s l t e₁).0) t rest b e₂

  value_of : Result B → B → B
  value_of (ok b) c = b
  value_of (err x) c = c

  pub Returns-pure : (b : B) → P b → Returns (pure b) P
  unfolding value_of
  Returns-pure b p s rest c e = subst P (ap (λ (r : Result B × List ℕ). value_of r.0 c) e) p

-- Two decoders in a row.
pub Returns-trans :
    {A B : Type 0} (P : A → Type 0) (Q : B → Type 0) (m : Decoder A) (f : A → Decoder B)
    → Returns m P
    → ((a : A) → P a → Returns (f a) Q)
    → Returns (m >>= f) Q
Returns-trans P Q m f h k s rest b e =
    let (a, t, e₁, e₂) = >>=-eq-ok m f s rest b e in k a (h s t a e₁) t rest b e₂

-- The value alone decides.
pub Returns-value :
    {B : Type 0} (P : B → Type 0) (m : Decoder B) (s : List ℕ) (b : B)
    → Returns m P
    → (m s).0 ≡ ok b
    → P b
Returns-value P m s b h e = h s (m s).1 b (ap (λ r. (r, (m s).1)) e)
