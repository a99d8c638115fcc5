-- ===== src/RateLimit/Tests.antt =====
-- A window of one request and limits of one handle, on which the theorems on rates are tried.
use absnfs.Prelude.{some, refl, ◌≡◌, ◌≤◌, List, [], ◌∷◌, arith}
use absnfs.Prelude.Int.{ℤ, pos, pos_part, ◌-ℤ◌}
use absnfs.RateLimit.{SlidingWindow, new_sliding_window, new_handle_counts}
use absnfs.RateLimit.Window.{let_through, count_after, latest, let_through_bounded}
use absnfs.RateLimit.Handles.{HandleCall, IsWithin, after_calls, after_calls-IsWithin}

abbrev instants : List ℤ
instants = pos 5 ∷ pos 7 ∷ pos 20 ∷ []

abbrev window : SlidingWindow
window = record { window = pos 10; max_count = pos 1; requests = [] }

new_window : new_sliding_window (pos 10) (pos 1) ≡ some window
unfolding new_sliding_window
new_window = refl

let_through_bounded_example :
    count_after (latest (pos 0) instants -ℤ pos 10) (let_through instants [] window).0
    ≤ pos_part (pos 1)
let_through_bounded_example =
    let_through_bounded (pos 10) (pos 1) (pos 0) instants window new_window
      (omega arith, (omega arith, (omega arith, tt)))

abbrev calls : List HandleCall
calls =
    HandleCall.allocating (1 ∷ [])
    ∷ HandleCall.allocating (1 ∷ [])
    ∷ HandleCall.releasing (1 ∷ [])
    ∷ HandleCall.releasing (2 ∷ [])
    ∷ []

after_calls-IsWithin_example :
    IsWithin (pos 1) (pos 3) (after_calls calls (new_handle_counts (pos 1) (pos 3)))
after_calls-IsWithin_example = after_calls-IsWithin (pos 1) (pos 3) calls
