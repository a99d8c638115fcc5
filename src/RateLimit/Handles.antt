-- ===== src/RateLimit/Handles.antt =====
-- The limits on file handles.
use absnfs.Prelude.{
  ℕ, zero, suc, ◌≡◌, refl, false, Bool-cases, inl, inr, Option, none, some, List, [], ◌∷◌, bytes_eq,
  arith,
}
use mathlib.Core.Path.{subst}
use absnfs.Prelude.Int.{ℤ, pos, ltb_ℤ, leb_ℤ, ◌≤ℤ◌, ◌<ℤ◌}
use absnfs.Prelude.Assoc.{lookup}
use absnfs.Prelude.All.{AllValues, AllValues-insert, AllValues-lookup}
use absnfs.RateLimit.{
  Address, HandleCounts, new_handle_counts, is_reached, count_of, load_or_store, allocate_handle,
  lower, release_handle,
}

pub data HandleCall : Type 0 where
  allocating releasing : Address → HandleCall

unfoldable pub after_calls : List HandleCall → HandleCounts → HandleCounts
after_calls [] c = c
after_calls (allocating ip ∷ calls) c = after_calls calls (allocate_handle ip c).1
after_calls (releasing ip ∷ calls) c = after_calls calls (release_handle ip c)

-- No count is above a limit that is positive, and the limits are these.
pub record IsWithin (per_ip global : ℤ) (c : HandleCounts) : Type 0 where
  pub same_per_ip : c.limit_per_ip ≡ per_ip
  pub same_global : c.limit_global ≡ global
  pub globally : pos 0 <ℤ global → pos c.global ≤ℤ global
  pub each : pos 0 <ℤ per_ip → AllValues (λ n. pos n ≤ℤ per_ip) c.per_ip

module _ (p g : ℤ) where
  loaded :
      (ip : Address) (o : Option ℕ) (m : List (Address × ℕ))
      → pos 0 <ℤ p
      → AllValues (λ n. pos n ≤ℤ p) m
      → AllValues (λ n. pos n ≤ℤ p) (load_or_store ip o m)
  loaded ip none m some_limit h = AllValues-insert (λ n. pos n ≤ℤ p) ip 0 m (omega arith) h
  loaded ip (some n) m some_limit h = h

  lowered :
      (ip : Address) (m : List (Address × ℕ)) (o : Option ℕ)
      → lookup ip m ≡ o
      → AllValues (λ n. pos n ≤ℤ p) m
      → AllValues (λ n. pos n ≤ℤ p) (lower ip o m)
  lowered ip m none e h = h
  lowered ip m (some zero) e h = h
  lowered ip m (some (suc n)) e h =
      AllValues-insert (λ n. pos n ≤ℤ p) ip n m
        (omega (arith, AllValues-lookup (λ n. pos n ≤ℤ p) ip (suc n) m h e)) h

  release-IsWithin :
      (ip : Address) (c : HandleCounts) → IsWithin p g c → IsWithin p g (release_handle ip c)
  unfolding release_handle
  release-IsWithin ip c h = record {
    same_per_ip = h.same_per_ip;
    same_global = h.same_global;
    globally = λ k. omega (arith, h.globally k);
    each = λ k. lowered ip c.per_ip (lookup ip c.per_ip) refl (h.each k);
  }

  allocate-IsWithin :
      (ip : Address) (c : HandleCounts) → IsWithin p g c → IsWithin p g (allocate_handle ip c).1
  unfolding allocate_handle
  allocate-IsWithin ip c h = elim (Bool-cases (is_reached c.global c.limit_global)) [
    | inl full ↦ rw full h
    | inr room ↦ elim (Bool-cases (ltb_ℤ (pos 0) c.limit_per_ip)) [
      | inr no_limit ↦
          rw (room, no_limit)
            (record {
              same_per_ip = h.same_per_ip;
              same_global = h.same_global;
              globally = λ k. more room k;
              each = h.each;
            })
      | inl limit ↦ elim (Bool-cases (leb_ℤ c.limit_per_ip (pos (count_of (lookup ip c.per_ip))))) [
        | inl ip_full ↦
            rw (room, limit, ip_full)
              (record {
                same_per_ip = h.same_per_ip;
                same_global = h.same_global;
                globally = h.globally;
                each = λ k. loaded ip (lookup ip c.per_ip) c.per_ip k (h.each k);
              })
        | inr ip_room ↦
            rw (room, limit, ip_room)
              (record {
                same_per_ip = h.same_per_ip;
                same_global = h.same_global;
                globally = λ k. more room k;
                each = λ k.
                    AllValues-insert (λ n. pos n ≤ℤ p) ip (suc (count_of (lookup ip c.per_ip)))
                      (load_or_store ip (lookup ip c.per_ip) c.per_ip)
                      (subst (λ l. pos (suc (count_of (lookup ip c.per_ip))) ≤ℤ l) h.same_per_ip
                        (ground arith))
                      (loaded ip (lookup ip c.per_ip) c.per_ip k (h.each k));
              })
      ]
    ]
  ]
    where
      more : is_reached c.global c.limit_global ≡ false → pos 0 <ℤ g → pos (suc c.global) ≤ℤ g
      more room k =
          subst (λ l. pos 0 <ℤ l → pos (suc c.global) ≤ℤ l) h.same_global (λ j. ground arith) k

  calls-IsWithin :
      (calls : List HandleCall) (c : HandleCounts)
      → IsWithin p g c
      → IsWithin p g (after_calls calls c)
  unfolding after_calls
  calls-IsWithin [] c h = h
  calls-IsWithin (allocating ip ∷ calls) c h =
      calls-IsWithin calls (allocate_handle ip c).1 (allocate-IsWithin ip c h)
  calls-IsWithin (releasing ip ∷ calls) c h =
      calls-IsWithin calls (release_handle ip c) (release-IsWithin ip c h)

-- After any sequence of AllocateFileHandle and ReleaseFileHandle, for any addresses, the count of
-- all handles is not above the global limit, and that of no address is above the limit per address,
-- where these limits are positive.
pub after_calls-IsWithin :
    (per_ip global : ℤ) (calls : List HandleCall)
    → IsWithin per_ip global (after_calls calls (new_handle_counts per_ip global))
unfolding new_handle_counts
after_calls-IsWithin per_ip global calls =
    calls-IsWithin per_ip global calls (new_handle_counts per_ip global) (record {
      same_per_ip = refl;
      same_global = refl;
      globally = λ k. omega arith;
      each = λ k. tt;
    })
