-- ===== src/RateLimit.antt =====
-- rate_limiter.go: the sliding window, and the counts of file handles per address. The caller passes
-- the instants that `time.Now()` returns.
pub mod Window
pub mod Handles
mod Tests
use absnfs.Prelude.{
  ℕ, zero, suc, ◌+◌, ◌-◌, Bool, true, false, ◌&&◌, Option, none, some, List, [], ◌∷◌, ◌++◌, length,
  ltb, if◌then◌else◌, ◌==◌, bytes_eq,
}
use absnfs.Prelude.Int.{ℤ, pos, negsuc, ltb_ℤ, leb_ℤ, ◌-ℤ◌}
use absnfs.Prelude.Assoc.{lookup, insert}

pub record SlidingWindow : Type 0 where
  pub window : ℤ
  pub max_count : ℤ
  pub requests : List ℤ

-- `make` panics on a capacity `max_count+1` that is negative: none. A capacity that is too large for
-- the memory is left out.
unfoldable pub new_sliding_window : ℤ → ℤ → Option SlidingWindow
new_sliding_window window max_count =
    if ltb_ℤ max_count (negsuc 0)
    then none
    else some (record { window = window; max_count = max_count; requests = [] })

-- The requests after the cutoff, in their order.
unfoldable pub requests_after : ℤ → List ℤ → List ℤ
requests_after cutoff [] = []
requests_after cutoff (t ∷ ts) =
    let rest = requests_after cutoff ts in if ltb_ℤ cutoff t then t ∷ rest else rest

unfoldable pub allow : ℤ → SlidingWindow → Bool × SlidingWindow
allow now sw =
    let valid = requests_after (now -ℤ sw.window) sw.requests in
    if ltb_ℤ (pos (length valid)) sw.max_count
    then (true, record sw { requests = valid ++ now ∷ [] })
    else (false, record sw { requests = valid })

unfoldable pub count_requests : ℤ → SlidingWindow → ℕ
count_requests now sw = length (requests_after (now -ℤ sw.window) sw.requests)

-- An address, as bytes.
abbrev pub Address : Type 0
Address = List ℕ

-- The limits and the counts of a RateLimiter. A limit that is not positive is none. Counts are Go's
-- `int`, which the number of open handles does not exceed.
pub record HandleCounts : Type 0 where
  pub limit_per_ip : ℤ
  pub limit_global : ℤ
  pub per_ip : List (Address × ℕ)
  pub global : ℕ

unfoldable pub new_handle_counts : ℤ → ℤ → HandleCounts
new_handle_counts limit_per_ip limit_global = record {
  limit_per_ip = limit_per_ip;
  limit_global = limit_global;
  per_ip = [];
  global = 0;
}

abbrev pub is_reached : ℕ → ℤ → Bool
is_reached n limit = ltb_ℤ (pos 0) limit && leb_ℤ limit (pos n)

-- `LoadOrStore(ip, 0)`, the value.
abbrev pub count_of : Option ℕ → ℕ
count_of none = 0
count_of (some n) = n

-- `LoadOrStore(ip, 0)`, the map, by what `Load` finds.
abbrev pub load_or_store : Address → Option ℕ → List (Address × ℕ) → List (Address × ℕ)
load_or_store ip none m = insert ip 0 m
load_or_store ip (some n) m = m

unfoldable pub allocate_handle : Address → HandleCounts → Bool × HandleCounts
allocate_handle ip c =
    let n = count_of (lookup ip c.per_ip) in
    if is_reached c.global c.limit_global
    then (false, c)
    else if ltb_ℤ (pos 0) c.limit_per_ip
    then (if leb_ℤ c.limit_per_ip (pos n)
        then (false, record c { per_ip = load_or_store ip (lookup ip c.per_ip) c.per_ip })
        else (
          true,
          record c {
            per_ip = insert ip (suc n) (load_or_store ip (lookup ip c.per_ip) c.per_ip);
            global = suc c.global;
          },
        ))
    else (true, record c { global = suc c.global })

abbrev pub lower : Address → Option ℕ → List (Address × ℕ) → List (Address × ℕ)
lower ip none m = m
lower ip (some zero) m = m
lower ip (some (suc n)) m = insert ip n m

-- The subtraction stops at 0, as the guard of the source does.
unfoldable pub release_handle : Address → HandleCounts → HandleCounts
release_handle ip c = record c {
  global = c.global - 1;
  per_ip = lower ip (lookup ip c.per_ip) c.per_ip;
}
