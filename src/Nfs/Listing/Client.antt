-- ===== src/Nfs/Listing/Client.antt =====
-- A client of READDIR, by RFC 1813: it reads the pages of a directory, and goes on at the cookie of
-- the last entry that a page holds until a page says that the directory ends.
use absnfs.Prelude.{
  ℕ, suc, ◌+◌, ◌≡◌, refl, sym, ap, ◌∙◌, Bool, true, false, not, List, [], ◌∷◌, ◌++◌, length, map,
  arith, if◌then◌else◌,
}
use mathlib.Core.Path.{subst}
use mathlib.Core.List.{append_assoc}
use absnfs.Ops.{NfsNode}
use absnfs.Attrs.{NfsAttrs}
use absnfs.Attrs.Wire.{encode_file_attributes}
use absnfs.Xdr.{encode_uint32, encode_uint64, encode_string}
use absnfs.Nfs.{encode_post_op_attr}
use absnfs.Nfs.Listing.{base, entries_loop, encode_entry, list_end, list_head, max_reply_size}
use absnfs.Nfs.Listing.Pages.{Reads, last_page, next_page, encode_entries, drop-Reads}

-- RFC 1813, `entry3` without its successor.
pub record Entry : Type 0 where
  pub file_id : ℕ
  pub name : List ℕ
  pub cookie : ℕ

-- RFC 1813, `dirlist3`: each entry behind a word 1, a word 0 behind the last, and whether the
-- directory ends there.
unfoldable pub write_dirlist : List Entry → Bool → List ℕ
write_dirlist [] eof = encode_uint32 0 ++ encode_uint32 (if eof then 1 else 0)
write_dirlist (e ∷ es) eof =
    (encode_uint32 1
      ++ (encode_uint64 e.file_id ++ (encode_string e.name ++ encode_uint64 e.cookie)))
    ++ write_dirlist es eof

-- RFC 1813, `READDIR3res` with NFS3_OK, the attributes of the directory and a verifier.
abbrev pub write_page : NfsAttrs → List ℕ → List Entry → Bool → List ℕ
write_page a verf es eof =
    (encode_uint32 0 ++ ((encode_uint32 1 ++ encode_file_attributes a) ++ verf))
    ++ write_dirlist es eof

-- Where a client that asked from a cookie goes on: at the cookie of the last entry that it got.
abbrev pub next_cookie : ℕ → List Entry → ℕ
next_cookie cookie [] = cookie
next_cookie cookie (e ∷ es) = next_cookie e.cookie es

-- The number and the name of an entry, and those of a node.
abbrev pub seen : Entry → ℕ × List ℕ
seen e = (e.file_id, e.name)

abbrev pub described : NfsNode → ℕ × List ℕ
described node = (node.attrs.file_id, base node.path)

-- Nodes as entries, from an index on.
entries_from : ℕ → List NfsNode → List Entry
entries_from i [] = []
entries_from i (node ∷ nodes) =
    (record { file_id = node.attrs.file_id; name = base node.path; cookie = suc i })
    ∷ entries_from (suc i) nodes

encode_entries-write_dirlist :
    (i : ℕ) (nodes : List NfsNode) (more : Bool)
    → encode_entries i nodes ++ list_end more ≡ write_dirlist (entries_from i nodes) (not more)
unfolding write_dirlist encode_entry entries_from
encode_entries-write_dirlist i [] true = refl
encode_entries-write_dirlist i [] false = refl
encode_entries-write_dirlist i (node ∷ nodes) more =
    append_assoc (encode_entry i node) (encode_entries (suc i) nodes) (list_end more)
    ∙ ap (λ l. encode_entry i node ++ l) (encode_entries-write_dirlist (suc i) nodes more)

next_cookie-entries_from :
    (i : ℕ) (nodes : List NfsNode) → next_cookie i (entries_from i nodes) ≡ i + length nodes
unfolding entries_from
next_cookie-entries_from i [] = omega arith
next_cookie-entries_from i (node ∷ nodes) = omega (arith, next_cookie-entries_from (suc i) nodes)

map-entries_from :
    (i : ℕ) (nodes : List NfsNode) → map seen (entries_from i nodes) ≡ map described nodes
unfolding entries_from
map-entries_from i [] = refl
map-entries_from i (node ∷ nodes) = ap (λ l. described node ∷ l) (map-entries_from (suc i) nodes)

map_append :
    (xs ys : List NfsNode) → map described xs ++ map described ys ≡ map described (xs ++ ys)
map_append [] ys = refl
map_append (x ∷ xs) ys = ap (λ l. described x ∷ l) (map_append xs ys)

module _ (entries : List NfsNode) (attrs : ℕ → NfsAttrs) (verf : ℕ → List ℕ) (count : ℕ → ℕ) where
  -- The reply to READDIR from a cookie.
  abbrev reply : ℕ → List ℕ
  reply cookie =
      entries_loop cookie (max_reply_size 100 128 (count cookie)) 0 entries
        (list_head (attrs cookie) (verf cookie))

  -- What a client reads from a cookie on.
  pub data ClientReads : ℕ → List (ℕ × List ℕ) → Type 0 where
    at_end :
        (cookie : ℕ) (es : List Entry)
        → reply cookie ≡ write_page (attrs cookie) (verf cookie) es true
        → ClientReads cookie (map seen es)
    goes_on :
        (cookie : ℕ) (es : List Entry) (rest : List (ℕ × List ℕ))
        → reply cookie ≡ write_page (attrs cookie) (verf cookie) es false
        → ClientReads (next_cookie cookie es) rest
        → ClientReads cookie (map seen es ++ rest)

  as_page :
      (cookie : ℕ) (nodes : List NfsNode) (more : Bool)
      → reply cookie
        ≡ list_head (attrs cookie) (verf cookie) ++ (encode_entries cookie nodes ++ list_end more)
      → reply cookie
        ≡ write_page (attrs cookie) (verf cookie) (entries_from cookie nodes) (not more)
  unfolding list_head encode_post_op_attr
  as_page cookie nodes more shown =
      shown
      ∙ ap (λ l. list_head (attrs cookie) (verf cookie) ++ l)
          (encode_entries-write_dirlist cookie nodes more)

  Reads-ClientReads :
      (cookie : ℕ) (nodes : List NfsNode)
      → Reads entries attrs verf count cookie nodes
      → ClientReads cookie (map described nodes)
  Reads-ClientReads _ _ (last_page cookie nodes shown) =
      subst (ClientReads cookie) (map-entries_from cookie nodes)
        (at_end cookie (entries_from cookie nodes) (as_page cookie nodes false shown))
  Reads-ClientReads _ _ (next_page cookie nodes rest shown more) =
      subst (ClientReads cookie)
        (ap (λ l. l ++ map described rest) (map-entries_from cookie nodes) ∙ map_append nodes rest)
        (goes_on cookie (entries_from cookie nodes) (map described rest)
          (as_page cookie nodes true shown)
          (subst (λ k. ClientReads k (map described rest))
            (sym (next_cookie-entries_from cookie nodes))
            (Reads-ClientReads (cookie + length nodes) rest more)))

-- A client that reads the pages of READDIR as RFC 1813 lays them out, on a directory whose entries
-- stay the same, from cookie 0 on and then from the cookie that the last entry of the page carries,
-- comes to a page that says that the directory ends, after finitely many pages, and has then read
-- the number and the name of every entry once, in the order of the listing. Each page may have its
-- own size, however small, and its own verifier of 8 bytes and attributes of the directory.
pub readdir_pages_total :
    (entries : List NfsNode) (attrs : ℕ → NfsAttrs) (verf : ℕ → List ℕ) (count : ℕ → ℕ)
    → ((k : ℕ) → length (verf k) ≡ 8)
    → ClientReads entries attrs verf count 0 (map described entries)
readdir_pages_total entries attrs verf count verf_size =
    Reads-ClientReads entries attrs verf count 0 entries
      (drop-Reads entries attrs verf count verf_size (length entries) 0 (omega arith))
