-- ===== src/RateLimit/Window.antt =====
-- How many requests the sliding window lets through.
use absnfs.Prelude.{
  ℕ, ◌+◌, some, ◌≤◌, ◌≡◌, refl, sym, ap, ◌∙◌, Bool-cases, inl, inr, List, [], ◌∷◌, ◌++◌, length,
  length-append, if◌then◌else◌, arith,
}
use absnfs.Prelude.Int.{ℤ, pos, negsuc, pos_part, ltb_ℤ, ◌≤ℤ◌, ◌-ℤ◌, -ℤ_parts}
use absnfs.RateLimit.{SlidingWindow, new_sliding_window, requests_after, allow}

-- The instants of the requests that are let through, and the window behind them.
unfoldable pub let_through : List ℤ → List ℤ → SlidingWindow → List ℤ × SlidingWindow
let_through [] passed sw = (passed, sw)
let_through (t ∷ ts) passed sw =
    let r = allow t sw in let_through ts (if r.0 then passed ++ t ∷ [] else passed) r.1

abbrev pub IsAscending : ℤ → List ℤ → Type 0
IsAscending t [] = Unit
IsAscending t (u ∷ us) = (t ≤ℤ u) × IsAscending u us

abbrev pub latest : ℤ → List ℤ → ℤ
latest t [] = t
latest t (u ∷ us) = latest u us

-- An earlier cutoff leaves what a later one leaves.
after_after :
    (c d : ℤ) (ts : List ℤ) → c ≤ℤ d → requests_after d (requests_after c ts) ≡ requests_after d ts
unfolding requests_after
after_after c d [] h = refl
after_after c d (t ∷ ts) h = ground (arith, after_after c d ts h)

after-append :
    (c : ℤ) (ts us : List ℤ)
    → requests_after c (ts ++ us) ≡ requests_after c ts ++ requests_after c us
unfolding requests_after
after-append c [] us = refl
after-append c (t ∷ ts) us = ground (arith, after-append c ts us)

fewer_after :
    (c d : ℤ) (ts : List ℤ) → c ≤ℤ d → length (requests_after d ts) ≤ length (requests_after c ts)
unfolding requests_after
fewer_after c d [] h = omega arith
fewer_after c d (t ∷ ts) h = ground (arith, fewer_after c d ts h)

one_after : (c t : ℤ) → length (requests_after c (t ∷ [])) ≤ 1
unfolding requests_after
one_after c t = ground arith

-- What the window knows of the requests that were let through up to the instant `t`.
record Remembers (w m t : ℤ) (passed : List ℤ) (sw : SlidingWindow) : Type 0 where
  its_window : sw.window ≡ w
  its_max : sw.max_count ≡ m
  same : (c : ℤ) → (t -ℤ w) ≤ℤ c → requests_after c passed ≡ requests_after c sw.requests
  few : length (requests_after (t -ℤ w) passed) ≤ pos_part m

allow-Remembers :
    (w m t u : ℤ) (passed : List ℤ) (sw : SlidingWindow)
    → t ≤ℤ u
    → Remembers w m t passed sw
    → Remembers w m u (if (allow u sw).0 then passed ++ u ∷ [] else passed) (allow u sw).1
unfolding allow
allow-Remembers w m t u passed sw later h =
    let k = u -ℤ w in
    let up : (t -ℤ w) ≤ℤ k = omega (arith, -ℤ_parts t w, -ℤ_parts u w, later) in
    let known = h.same k up in
    let older : (c : ℤ)
        → k ≤ℤ c
        → requests_after c passed ≡ requests_after c (requests_after k sw.requests) =
      λ c le. h.same c (omega (arith, up, le)) ∙ sym (after_after k c sw.requests le) in
    elim (Bool-cases (ltb_ℤ (pos (length (requests_after k sw.requests))) m)) [
      | inl room ↦
          rw (h.its_window, h.its_max, room)
            (record {
              its_window = refl;
              its_max = refl;
              same = λ c le.
                  after-append c passed (u ∷ [])
                  ∙ ap (λ l. l ++ requests_after c (u ∷ [])) (older c le)
                  ∙ sym (after-append c (requests_after k sw.requests) (u ∷ []));
              few = ground (
                arith,
                ap length (after-append k passed (u ∷ [])),
                length-append (requests_after k passed) (requests_after k (u ∷ [])),
                one_after k u,
                ap length known,
              );
            })
      | inr full ↦
          rw (h.its_window, h.its_max, full)
            (record {
              its_window = refl;
              its_max = refl;
              same = older;
              few = omega (arith, fewer_after (t -ℤ w) k passed up, h.few);
            })
    ]

through-Remembers :
    (w m t : ℤ) (ts passed : List ℤ) (sw : SlidingWindow)
    → IsAscending t ts
    → Remembers w m t passed sw
    → Remembers w m (latest t ts) (let_through ts passed sw).0 (let_through ts passed sw).1
unfolding let_through
through-Remembers w m t [] passed sw up h = h
through-Remembers w m t (u ∷ us) passed sw up h =
    through-Remembers w m u us _ _ up.1 (allow-Remembers w m t u passed sw up.0 h)

-- How many instants lie after a cutoff.
unfoldable pub count_after : ℤ → List ℤ → ℕ
count_after c [] = 0
count_after c (t ∷ ts) = (if ltb_ℤ c t then 1 else 0) + count_after c ts

length-requests_after : (c : ℤ) (ts : List ℤ) → length (requests_after c ts) ≡ count_after c ts
unfolding requests_after count_after
length-requests_after c [] = refl
length-requests_after c (t ∷ ts) = ground (arith, length-requests_after c ts)

new_window-Remembers :
    (w m t : ℤ) (sw : SlidingWindow) → new_sliding_window w m ≡ some sw → Remembers w m t [] sw
unfolding new_sliding_window requests_after
new_window-Remembers w m t sw made = elim (Bool-cases (ltb_ℤ m (negsuc 0))) [
  | inl low ↦ absurd (ground (arith, made, low))
  | inr fits ↦
      let same_window : sw ≡ record { window = w; max_count = m; requests = [] } =
        ground (arith, made, fits) in
      rw same_window
        (record { its_window = refl; its_max = refl; same = λ c le. refl; few = omega arith })
]

-- A new sliding window (there is none for a maximum below -1, where the code panics) that is asked
-- at instants that do not go back: of all the requests that it let through, counted by their
-- instants, at most `max_count`, or none if that is negative, lie within the window that ends at
-- the latest instant.
pub let_through_bounded :
    (w m t : ℤ) (ts : List ℤ) (sw : SlidingWindow)
    → new_sliding_window w m ≡ some sw
    → IsAscending t ts
    → count_after (latest t ts -ℤ w) (let_through ts [] sw).0 ≤ pos_part m
let_through_bounded w m t ts sw made up = omega (
  arith,
  length-requests_after (latest t ts -ℤ w) (let_through ts [] sw).0,
  (through-Remembers w m t ts [] sw up (new_window-Remembers w m t sw made)).few,
)
