-- ===== src/MinHeap.antt =====
-- minheap.go: the freed handle numbers. `container/heap` keeps the slice in heap order and hands
-- out a least element; the order of the other elements is never seen, so the model is a list with
-- a search for the least element.
mod Tests
use mathlib.Core.Path.{subst₂}
use absnfs.Prelude.{
  ℕ, suc, length, ◌≤◌, ◌≡◌, refl, Bool, true, false, Option, none, some, List, [], ◌∷◌, ltb,
  nat_beq, if◌then◌else◌, arith, ◌||◌, ◌↔◌, nat_beq_iff,
}

-- The least of `x` and the elements of the heap.
unfoldable pub least : ℕ → List ℕ → ℕ
least x [] = x
least x (y ∷ h) = least (if ltb y x then y else x) h

-- The heap without one `x`.
unfoldable pub remove_value : ℕ → List ℕ → List ℕ
remove_value x [] = []
remove_value x (y ∷ h) = let rest = remove_value x h in if nat_beq y x then h else y ∷ rest

unfoldable pub is_empty : List ℕ → Bool
is_empty [] = true
is_empty (x ∷ h) = false

-- PopMin.
unfoldable pub pop_min : List ℕ → Option (ℕ × List ℕ)
unfolding least remove_value
pop_min [] = none
pop_min (x ∷ h) = let m = least x h in some (m, remove_value m (x ∷ h))

-- PushValue.
unfoldable pub push_value : ℕ → List ℕ → List ℕ
push_value x h = x ∷ h

-- Is `x` in the heap, and is it there only once?
abbrev pub contains : ℕ → List ℕ → Bool
contains x [] = false
contains x (y ∷ h) = nat_beq y x || contains x h

abbrev pub NoRepeat : List ℕ → Type 0
NoRepeat [] = Unit
NoRepeat (x ∷ h) = (contains x h ≡ false) × NoRepeat h

least_bound : (x : ℕ) (h : List ℕ) → least x h ≤ x
unfolding least
least_bound x [] = omega arith
least_bound x (y ∷ h) = ground (arith, least_bound (if ltb y x then y else x) h)

least-le : (x y : ℕ) (h : List ℕ) → contains y h ≡ true → least x h ≤ y
unfolding least
least-le x y [] k = cc
least-le x y (z ∷ h) k =
    ground
      (arith, least_bound (if ltb z x then z else x) h, least-le (if ltb z x then z else x) y h)

least-contains : (x : ℕ) (h : List ℕ) → contains (least x h) (x ∷ h) ≡ true
unfolding least
least-contains x [] = ground arith
least-contains x (y ∷ h) = ground (arith, least-contains (if ltb y x then y else x) h)

contains-remove_value :
    (x y : ℕ) (h : List ℕ)
    → NoRepeat h
    → contains y (remove_value x h) ≡ (if nat_beq x y then false else contains y h)
unfolding remove_value
contains-remove_value x y [] d = ground arith
contains-remove_value x y (z ∷ h) d =
    ground (arith, contains-remove_value x y h d.1, nat_beq_iff z x)

remove_value-NoRepeat : (x : ℕ) (h : List ℕ) → NoRepeat h → NoRepeat (remove_value x h)
unfolding remove_value
remove_value-NoRepeat x [] d = tt
remove_value-NoRepeat x (z ∷ h) d =
    ground (arith, remove_value-NoRepeat x h d.1, contains-remove_value x z h d.1)

length-remove_value :
    (x : ℕ) (h : List ℕ) → contains x h ≡ true → suc (length (remove_value x h)) ≡ length h
unfolding remove_value
length-remove_value x [] k = cc
length-remove_value x (z ∷ h) k = ground (arith, length-remove_value x h)

-- `m` is a least element of `h`, and `r` holds the others.
pub record Popped (h : List ℕ) (m : ℕ) (r : List ℕ) : Type 0 where
  pub there : contains m h ≡ true
  pub is_least : (y : ℕ) → contains y h ≡ true → m ≤ y
  pub rest : (y : ℕ) → contains y r ≡ (if nat_beq m y then false else contains y h)
  pub once : NoRepeat r
  pub fewer : suc (length r) ≡ length h

-- From a heap without repetitions PopMin takes out a least element, and that element alone.
pub pop_min-Popped :
    (h : List ℕ) (m : ℕ) (r : List ℕ) → NoRepeat h → pop_min h ≡ some (m, r) → Popped h m r
unfolding pop_min
pop_min-Popped [] m r d e = cc
pop_min-Popped (x ∷ h) m r d e = subst₂ (Popped (x ∷ h)) (ground arith) (ground arith) (record {
  there = least-contains x h;
  is_least = λ y k. ground (arith, least-le x y h, least_bound x h);
  rest = λ y. contains-remove_value (least x h) y (x ∷ h) d;
  once = remove_value-NoRepeat (least x h) (x ∷ h) d;
  fewer = length-remove_value (least x h) (x ∷ h) (least-contains x h);
})

-- PopMin fails on an empty heap alone.
pub pop_min-none_iff : (h : List ℕ) → (pop_min h ≡ none) ↔ (is_empty h ≡ true)
unfolding pop_min is_empty
pop_min-none_iff [] = (λ e. refl, λ e. refl)
pop_min-none_iff (x ∷ h) = (λ e. cc, λ e. cc)
