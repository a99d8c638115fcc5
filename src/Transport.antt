-- ===== src/Transport.antt =====
-- rpc_transport.go: the record marking of RFC 1831. A connection is the list of the bytes that are
-- to come, and a writer is what it has written.
pub mod Written
pub mod Read
mod Tests
use absnfs.Prelude.{
  ℕ, zero, suc, ◌+◌, ◌-◌, ◌%◌, ◌^◌, Bool, true, false, Option, none, some, List, [], ◌∷◌, ◌++◌,
  length, take, drop, ltb, leb, nat_beq, if◌then◌else◌,
}
use absnfs.Prelude.Int.{ℤ, pos, negsuc}
use absnfs.Xdr.{
  Error, too_long, Result, ok, err, Decoder, pure, guard, ◌>>=◌, ◌>>◌, read_full, decode_uint32,
  encode_uint32,
}

abbrev pub last_fragment_flag : ℕ
last_fragment_flag = 2 ^ 31

abbrev pub max_fragment_size : ℕ
max_fragment_size = 2 ^ 31 - 1

-- `DefaultMaxFragmentSize` and `DefaultMaxRecordSize` are the same number.
abbrev pub default_max_size : ℕ
default_max_size = 2 ^ 20

-- The limit of a writer made by `NewRecordMarkingWriterWithSize`.
abbrev pub max_fragment_of : ℤ → ℕ
max_fragment_of (pos zero) = default_max_size
max_fragment_of (pos (suc n)) = if ltb max_fragment_size (suc n) then default_max_size else suc n
max_fragment_of (negsuc n) = default_max_size

-- `maxSize`, for the `MaxRecordSize` of a reader.
abbrev pub max_record_of : ℤ → ℕ
max_record_of (pos zero) = default_max_size
max_record_of (pos (suc n)) = suc n
max_record_of (negsuc n) = default_max_size

-- The size of the next fragment.
abbrev pub fragment_size : ℕ → ℕ → ℕ
fragment_size max remaining = if ltb max remaining then max else remaining

-- A fragment has at most `MaxFragmentSize` bytes, so the flag's bit is free.
abbrev pub fragment_header : ℕ → ℕ → ℕ
fragment_header remaining n = if nat_beq remaining n then n + last_fragment_flag else n

-- The loop of `WriteRecord`, over the data that remain. `none` means that the fuel ran out.
unfoldable pub write_loop : ℕ → ℕ → List ℕ → Option (List ℕ)
write_loop fuel max [] = some []
write_loop zero max (b ∷ data') = none
write_loop (suc fuel) max (b ∷ data') =
    let remaining = length (b ∷ data') in
    let n = fragment_size max remaining in
    elim (write_loop fuel max (drop n (b ∷ data'))) [
      | none ↦ none
      | some rest ↦
          some (encode_uint32 (fragment_header remaining n) ++ (take n (b ∷ data') ++ rest))
    ]

-- Each round writes a byte at least, so the length of the data is fuel enough.
unfoldable pub write_record : ℕ → List ℕ → Option (List ℕ)
unfolding write_loop
write_record max [] = some (encode_uint32 last_fragment_flag)
write_record max (b ∷ data') = write_loop (length (b ∷ data')) max (b ∷ data')

-- One round of `ReadRecord`: was it the last fragment, and the buffer with the fragment.
unfoldable pub read_fragment : ℕ → List ℕ → Decoder (Bool × List ℕ)
read_fragment max buf = do
  header ← decode_uint32
  let n = header % last_fragment_flag
  guard (leb n max_fragment_size) too_long
  guard (leb (length buf + n) max) too_long
  fragment ← if ltb 0 n then read_full n else pure []
  pure (leb last_fragment_flag header, buf ++ fragment)

-- What `ReadRecord` returns, and the bytes behind it.
abbrev pub Outcome : Type 0
Outcome = Result (List ℕ) × List ℕ

-- The loop goes on unless there was an error or the last fragment.
abbrev pub continue_with :
    (List ℕ → List ℕ → Option Outcome) → Result (Bool × List ℕ) → List ℕ → Option Outcome
continue_with next (err e) s = some (err e, s)
continue_with next (ok (true, buf)) s = some (ok buf, s)
continue_with next (ok (false, buf)) s = next buf s

unfoldable pub read_loop : ℕ → ℕ → List ℕ → List ℕ → Option Outcome
unfolding read_fragment
read_loop zero max buf s = none
read_loop (suc fuel) max buf s =
    let r = read_fragment max buf s in continue_with (read_loop fuel max) r.0 r.1

-- Each round takes four bytes at least.
unfoldable pub read_record : ℕ → List ℕ → Option Outcome
unfolding read_loop
read_record max s = read_loop (suc (length s)) max [] s
