-- ===== src/MinHeap/Tests.antt =====
-- A heap of three numbers, on which the theorems on the heap are tried.
use absnfs.Prelude.{ℕ, ◌≡◌, refl, ◌↔◌, none, some, true, List, [], ◌∷◌}
use absnfs.MinHeap.{pop_min, least, remove_value, is_empty, pop_min-none_iff}

abbrev heap : List ℕ
heap = 3 ∷ 1 ∷ 2 ∷ []

pops_1 : pop_min heap ≡ some (1, 3 ∷ 2 ∷ [])
unfolding pop_min least remove_value
pops_1 = refl

pop_min-none_iff_example : (pop_min heap ≡ none) ↔ (is_empty heap ≡ true)
pop_min-none_iff_example = pop_min-none_iff heap
