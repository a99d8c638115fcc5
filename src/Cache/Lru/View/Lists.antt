-- ===== src/Cache/Lru/View/Lists.antt =====
-- The pairs of a map in the order of an access list, and how they change with the two.
use absnfs.Prelude.{
  ℕ, zero, suc, ◌≤◌, ◌≡◌, ◌≢◌, refl, ap, false, none, some, length, [], bytes_eq, nat_eq, arith,
  last?, ◌∷◌, List, take, ◌==◌, list_beq_iff, nat_beq_iff, nat_beq, Bool-cases, Option-cases, inl,
  inr,
}
use absnfs.Prelude.Assoc.{
  lookup, delete, insert, Distinct, lookup-delete, lookup-insert, delete_absent, lookup-last,
}
use absnfs.Cache.Lru.{FilePath, Slot}

-- No element is one of `p`.
abbrev pub Avoids : FilePath → List (ℕ × FilePath) → Type 0
Avoids p [] = Unit
Avoids p ((e, q) ∷ l) = ((p == q) ≡ false) × Avoids p l

pub Avoids-of :
    (p : FilePath) (l : List (ℕ × FilePath))
    → Distinct l
    → ((f : ℕ) → lookup f l ≢ some p)
    → Avoids p l
Avoids-of p [] d h = tt
Avoids-of p ((e, q) ∷ l) d h = (
  ground (arith, h e, list_beq_iff p q, nat_beq_iff e e),
  Avoids-of p l d.1 (λ f k. h f (ground (arith, nat_beq_iff e f))),
)

later :
    (f i : ℕ) (q p : FilePath) (l : List (ℕ × FilePath))
    → Distinct ((f, q) ∷ l)
    → lookup i l ≡ some p
    → lookup i ((f, q) ∷ l) ≡ some p
later f i q p l d k = ground (arith, nat_beq_iff f i)

-- The last element of the list is what a deletion by its identity removes.
pub delete-last :
    (n e : ℕ) (p : FilePath) (l : List (ℕ × FilePath))
    → Distinct l
    → length l ≡ suc n
    → last? l ≡ some (e, p)
    → delete e l ≡ take n l
unfolding delete
delete-last n e p [] d h k = cc
delete-last zero e p ((f, q) ∷ []) d h k = ground (arith, nat_beq_iff f e)
delete-last zero e p ((f, q) ∷ x ∷ l) d h k = absurd (omega arith)
delete-last (suc n) e p ((f, q) ∷ []) d h k = absurd (omega arith)
delete-last (suc n) e p ((f, q) ∷ x ∷ l) d h k =
    ground (arith, nat_beq_iff f e, delete-last n e p (x ∷ l) d.1, lookup-last (x ∷ l) d.1 k)

module _ {ℓ} {V : Type ℓ} where
  unfoldable pub view_of : List (FilePath × Slot V) → List (ℕ × FilePath) → List (FilePath × V)
  view_of es [] = []
  view_of es ((e, p) ∷ l) = elim (lookup p es) [
    | none ↦ view_of es l
    | some s ↦ (p, s.value) ∷ view_of es l
  ]

  pub view_of-cons :
      (e : ℕ) (p : FilePath) (es : List (FilePath × Slot V)) (l : List (ℕ × FilePath)) (s : Slot V)
      → lookup p es ≡ some s
      → view_of es ((e, p) ∷ l) ≡ (p, s.value) ∷ view_of es l
  unfolding view_of
  view_of-cons e p es l s h = rw (h, view_of)

  pub length-view_of :
      (es : List (FilePath × Slot V)) (l : List (ℕ × FilePath)) → length (view_of es l) ≤ length l
  unfolding view_of
  length-view_of es [] = omega arith
  length-view_of es ((e, p) ∷ l) = ground (arith, length-view_of es l)

  -- Entries that the list avoids do not show.
  pub view_of-insert :
      (p : FilePath) (s : Slot V) (es : List (FilePath × Slot V)) (l : List (ℕ × FilePath))
      → Avoids p l
      → view_of (insert p s es) l ≡ view_of es l
  unfolding view_of
  view_of-insert p s es [] h = refl
  view_of-insert p s es ((e, q) ∷ l) h =
      ground (arith, view_of-insert p s es l h.1, lookup-insert p q s es)

  pub view_of-delete :
      (p : FilePath) (es : List (FilePath × Slot V)) (l : List (ℕ × FilePath))
      → Avoids p l
      → view_of (delete p es) l ≡ view_of es l
  unfolding view_of
  view_of-delete p es [] h = refl
  view_of-delete p es ((e, q) ∷ l) h =
      ground (arith, view_of-delete p es l h.1, lookup-delete p q es)

  pub lookup-view_of-Avoids :
      (p : FilePath) (es : List (FilePath × Slot V)) (l : List (ℕ × FilePath))
      → Avoids p l
      → lookup p (view_of es l) ≡ none
  unfolding view_of
  lookup-view_of-Avoids p es [] h = refl
  lookup-view_of-Avoids p es ((e, q) ∷ l) h =
      ground (arith, lookup-view_of-Avoids p es l h.1, list_beq_iff q p, list_beq_iff p q)

  -- What the view holds for a path is what the map holds for it.
  pub lookup-view_of :
      (e : ℕ) (p : FilePath) (es : List (FilePath × Slot V)) (l : List (ℕ × FilePath)) (s : Slot V)
      → lookup e l ≡ some p
      → lookup p es ≡ some s
      → lookup p (view_of es l) ≡ some s.value
  unfolding view_of
  lookup-view_of e p es [] s h k = cc
  lookup-view_of e p es ((f, q) ∷ l) s h k =
      ground (arith, nat_beq_iff f e, list_beq_iff q p, lookup-view_of e p es l s)

  -- To delete a path's one element is to delete the path from the view.
  pub view_of-delete_element :
      (e : ℕ) (p : FilePath) (es : List (FilePath × Slot V)) (l : List (ℕ × FilePath))
      → Distinct l
      → lookup e l ≡ some p
      → ((f : ℕ) → lookup f l ≡ some p → f ≡ e)
      → view_of es (delete e l) ≡ delete p (view_of es l)
  unfolding view_of delete
  view_of-delete_element e p es [] d h u = cc
  view_of-delete_element e p es ((f, q) ∷ l) d h u = elim (Bool-cases (nat_beq f e)) [
    | inl same ↦
        let gone : lookup p (view_of es l) ≡ none =
          lookup-view_of-Avoids p es l
            (Avoids-of p l d.1 (λ i k. ground (arith, u i, nat_beq_iff f e, nat_beq_iff f i))) in
        ground (
          arith,
          nat_beq_iff f e,
          list_beq_iff q p,
          delete_absent e l,
          delete_absent p (view_of es l) gone,
        )
    | inr other ↦ ground (
      arith,
      u f,
      nat_beq_iff f f,
      list_beq_iff q p,
      view_of-delete_element e p es l d.1 (ground (arith)) (λ i k. u i (later f i q p l d k)),
    )
  ]

  -- Every element's path is in the map.
  pub view_of-take :
      (n : ℕ) (es : List (FilePath × Slot V)) (l : List (ℕ × FilePath))
      → length (view_of es l) ≡ length l
      → view_of es (take n l) ≡ take n (view_of es l)
  unfolding view_of
  view_of-take zero es l h = refl
  view_of-take (suc n) es [] h = refl
  view_of-take (suc n) es ((e, p) ∷ l) h = elim (Option-cases (lookup p es)) [
    | inl k ↦ absurd (omega (arith, length-view_of es l, rw (k, view_of) at h))
    | inr (s, k) ↦
        rw (k, view_of)
          (ap (◌∷◌ (p, s.value)) (view_of-take n es l (omega (arith, rw (k, view_of) at h))))
  ]

  pub length-view_of_full :
      (es : List (FilePath × Slot V)) (l : List (ℕ × FilePath))
      → Distinct l
      → ((e : ℕ) (p : FilePath) → lookup e l ≡ some p → (s : Slot V) × (lookup p es ≡ some s))
      → length (view_of es l) ≡ length l
  unfolding view_of
  length-view_of_full es [] d h = refl
  length-view_of_full es ((e, p) ∷ l) d h =
      let (s, k) = h e p (ground (arith, nat_beq_iff e e)) in
      ground (arith, length-view_of_full es l d.1 (λ f q m. h f q (later e f p q l d m)))
