-- ===== src/Nfs/Listing/Pages.antt =====
-- The pages of READDIR: what a client reads that goes on with the cookie of the last entry until the
-- end of the directory.
use absnfs.Prelude.{
  ℕ, zero, suc, ◌+◌, ◌-◌, ◌≤◌, ◌<◌, ◌≡◌, refl, sym, ap, ◌∙◌, Bool, true, false, List, [], ◌∷◌, ◌++◌,
  length, take, drop, ltb, leb, arith, if◌then◌else◌, Bool-cases, inl, inr, length-append,
  length-drop, drop_of_length-le, take_of_length-le, lt→ltb, le→ltb,
}
use mathlib.Core.Path.{subst}
use mathlib.Core.List.{append_assoc}
use absnfs.Ops.{NfsNode}
use absnfs.Attrs.{NfsAttrs}
use absnfs.Attrs.Wire.{encode_file_attributes, encode_time, file_type}
use absnfs.Xdr.{encode_uint32, encode_uint64}
use absnfs.Nfs.{encode_post_op_attr}
use absnfs.Nfs.Listing.{entries_loop, encode_entry, list_end, list_head, max_reply_size}

-- The entries from index `i` on, as READDIR writes them.
abbrev pub encode_entries : ℕ → List NfsNode → List ℕ
encode_entries i [] = []
encode_entries i (entry ∷ entries) = encode_entry i entry ++ encode_entries (suc i) entries

-- How many entries from index `i` on a page takes, if there are `n` bytes before them.
unfoldable pub page_size : ℕ → ℕ → List NfsNode → ℕ → ℕ
page_size max i [] n = 0
page_size max i (entry ∷ entries) n =
    let rest = page_size max (suc i) entries (n + length (encode_entry i entry)) in
    if leb max n then 0 else suc rest

ltb-suc : (a b : ℕ) → ltb (suc a) (suc b) ≡ ltb a b
ltb-suc a b = elim (Bool-cases (ltb a b)) [
  | inl less ↦ rw less (lt→ltb (suc a) (suc b) (ground arith))
  | inr more ↦ rw more (le→ltb (suc a) (suc b) (ground arith))
]

-- Behind the cookie, the loop writes that many entries, and says whether some are left.
loop_from :
    (cookie max i : ℕ) (entries : List NfsNode) (buf : List ℕ)
    → cookie ≤ i
    → entries_loop cookie max i entries buf
      ≡ buf
        ++ (encode_entries i (take (page_size max i entries (length buf)) entries)
            ++ list_end (ltb (page_size max i entries (length buf)) (length entries)))
unfolding entries_loop page_size
loop_from cookie max i [] buf h = refl
loop_from cookie max i (entry ∷ entries) buf h =
    let behind : ltb i cookie ≡ false = ground arith in
    elim (Bool-cases (leb max (length buf))) [
      | inl full ↦ rw (behind, full, lt→ltb 0 (suc (length entries)) (omega arith)) refl
      | inr room ↦
          let size = length-append buf (encode_entry i entry) in
          let rest =
            loop_from cookie max (suc i) entries (buf ++ encode_entry i entry) (omega arith) in
          rw (behind, room)
            (rest
              ∙ rw
                  (
                    size,
                    ltb-suc
                        (page_size max (suc i) entries (length buf + length (encode_entry i entry)))
                        (length entries),
                  )
                  (append_assoc buf (encode_entry i entry) _
                    ∙ ap (λ t. buf ++ t) (sym (append_assoc (encode_entry i entry) _ _))))
    ]

-- Before the cookie, it goes on.
loop_skip :
    (cookie max i : ℕ) (entries : List NfsNode) (buf : List ℕ)
    → i ≤ cookie
    → entries_loop cookie max i entries buf
      ≡ entries_loop cookie max cookie (drop (cookie - i) entries) buf
unfolding entries_loop
loop_skip cookie max i [] buf h = elim (Bool-cases (ltb i cookie)) [
  | inl less ↦ rw (drop_of_length-le {A = NfsNode} (cookie - i) [] (omega arith)) refl
  | inr here ↦ rw (drop_of_length-le {A = NfsNode} (cookie - i) [] (omega arith)) refl
]
loop_skip cookie max i (entry ∷ entries) buf h = elim (Bool-cases (ltb i cookie)) [
  | inl less ↦
      let step : cookie - i ≡ suc (cookie - suc i) = ground arith in
      rw (less, step) (loop_skip cookie max (suc i) entries buf (ground arith))
  | inr here ↦
      let at_cookie : cookie - i ≡ 0 = ground arith in
      let same : i ≡ cookie = ground arith in rw (at_cookie, same) refl
]

page_lem :
    (cookie max : ℕ) (entries : List NfsNode) (buf : List ℕ)
    → let rest = drop cookie entries in
      let n = page_size max cookie rest (length buf) in
      entries_loop cookie max 0 entries buf
      ≡ buf ++ (encode_entries cookie (take n rest) ++ list_end (ltb n (length rest)))
page_lem cookie max entries buf =
    loop_skip cookie max 0 entries buf (omega arith)
    ∙ ap (λ (k : ℕ). entries_loop cookie max cookie (drop k entries) buf) (omega arith)
    ∙ loop_from cookie max cookie (drop cookie entries) buf (omega arith)

take-append_drop : (n : ℕ) (l : List NfsNode) → take n l ++ drop n l ≡ l
take-append_drop zero l = refl
take-append_drop (suc n) [] = refl
take-append_drop (suc n) (x ∷ l) = ap (λ t. x ∷ t) (take-append_drop n l)

drop-drop : (n c : ℕ) (l : List NfsNode) → drop n (drop c l) ≡ drop (c + n) l
drop-drop n zero l = ap (λ k. drop k l) (omega arith)
drop-drop n (suc c) [] =
    drop_of_length-le {A = NfsNode} n [] (omega arith)
    ∙ sym (drop_of_length-le {A = NfsNode} (suc c + n) [] (omega arith))
drop-drop n (suc c) (x ∷ l) =
    let next : suc c + n ≡ suc (c + n) = omega arith in rw next (drop-drop n c l)

length-take_less : (n : ℕ) (l : List NfsNode) → n ≤ length l → length (take n l) ≡ n
length-take_less zero l h = refl
length-take_less (suc n) [] h = absurd (omega arith)
length-take_less (suc n) (x ∷ l) h = ap suc (length-take_less n l (omega arith))

-- A page with room for it takes an entry.
page_size-pos :
    (max i n : ℕ) (entries : List NfsNode)
    → n < max
    → 0 < length entries
    → 0 < page_size max i entries n
unfolding page_size
page_size-pos max i n [] room some_left = absurd (omega arith)
page_size-pos max i n (entry ∷ entries) room some_left = ground arith

-- What comes before the entries takes 100 bytes.
length-list_head :
    (a : NfsAttrs) (verf : List ℕ) → length verf ≡ 8 → length (list_head a verf) ≡ 100
unfolding list_head encode_post_op_attr encode_file_attributes encode_uint32 encode_uint64
    encode_time file_type
length-list_head a verf h = omega (arith, h)

-- What a client reads from a cookie on, page by page, until the end of the directory: each page may
-- have its own size, verifier and attributes of the directory.
module _ (entries : List NfsNode) (attrs : ℕ → NfsAttrs) (verf : ℕ → List ℕ) (count : ℕ → ℕ) where
  abbrev pub page : ℕ → List ℕ
  page cookie =
      entries_loop cookie (max_reply_size 100 128 (count cookie)) 0 entries
        (list_head (attrs cookie) (verf cookie))

  abbrev pub page_of : ℕ → List NfsNode → Bool → List ℕ
  page_of cookie nodes more =
      list_head (attrs cookie) (verf cookie) ++ (encode_entries cookie nodes ++ list_end more)

  pub data Reads : ℕ → List NfsNode → Type 0 where
    last_page :
        (cookie : ℕ) (nodes : List NfsNode)
        → page cookie ≡ page_of cookie nodes false
        → Reads cookie nodes
    next_page :
        (cookie : ℕ) (nodes rest : List NfsNode)
        → page cookie ≡ page_of cookie nodes true
        → Reads (cookie + length nodes) rest
        → Reads cookie (nodes ++ rest)

  module _ (verf_size : (k : ℕ) → length (verf k) ≡ 8) where
    abbrev size : ℕ → ℕ
    size cookie =
        page_size (max_reply_size 100 128 (count cookie)) cookie (drop cookie entries)
          (length (list_head (attrs cookie) (verf cookie)))

    shown :
        (cookie : ℕ) (more : Bool)
        → ltb (size cookie) (length (drop cookie entries)) ≡ more
        → page cookie ≡ page_of cookie (take (size cookie) (drop cookie entries)) more
    shown cookie more e =
        page_lem cookie (max_reply_size 100 128 (count cookie)) entries
          (list_head (attrs cookie) (verf cookie))
        ∙ ap (page_of cookie (take (size cookie) (drop cookie entries))) e

    size-pos : (cookie : ℕ) → 0 < length (drop cookie entries) → 0 < size cookie
    size-pos cookie some_left =
        page_size-pos (max_reply_size 100 128 (count cookie)) cookie _ (drop cookie entries)
          (rw (length-list_head (attrs cookie) (verf cookie) (verf_size cookie)) (ground arith))
          some_left

    last_page-Reads :
        (cookie : ℕ)
        → ltb (size cookie) (length (drop cookie entries)) ≡ false
        → Reads cookie (drop cookie entries)
    last_page-Reads cookie over = last_page cookie (drop cookie entries) (
        shown cookie false over
        ∙ ap (λ l. page_of cookie l false)
            (take_of_length-le (size cookie) (drop cookie entries) (ground arith)))

    next_page-Reads :
        (cookie : ℕ)
        → ltb (size cookie) (length (drop cookie entries)) ≡ true
        → Reads (cookie + size cookie) (drop (cookie + size cookie) entries)
        → Reads cookie (drop cookie entries)
    next_page-Reads cookie more rest =
        let left = drop cookie entries in
        subst (Reads cookie) (take-append_drop (size cookie) left) (
          next_page cookie (take (size cookie) left) (drop (size cookie) left)
            (shown cookie true more)
            (rw
              (
                length-take_less (size cookie) left (ground arith),
                drop-drop (size cookie) cookie entries,
              )
              rest))

    -- However far there is to go, that many pages are enough.
    pub drop-Reads :
        (fuel cookie : ℕ) → length (drop cookie entries) ≤ fuel → Reads cookie (drop cookie entries)
    drop-Reads zero cookie enough = last_page-Reads cookie (le→ltb _ _ (omega arith))
    drop-Reads (suc fuel) cookie enough =
        elim (Bool-cases (ltb (size cookie) (length (drop cookie entries)))) [
          | inl more ↦ next_page-Reads cookie more (
              drop-Reads fuel (cookie + size cookie) (
                ground (
                  arith,
                  size-pos cookie,
                  length-drop (cookie + size cookie) entries,
                  length-drop cookie entries,
                )))
          | inr over ↦ last_page-Reads cookie over
        ]
