-- ===== src/Xdr.antt =====
-- rpc_types.go, the XDR helpers. A reader is the list of the bytes that it has left, a writer is
-- what it has written: the buffers of the server, which do not fail. An error leaves the reader
-- where the code does.
mod Reader
pub mod Strings
pub mod Handles
pub mod Returns
mod Tests
pub use Reader.{
  Error, short_read, too_long, bad_length, nul_byte, not_call, empty_body, too_many_gids, Result,
  ok, err, Decoder, pure, fail, guard, ◌>>=◌, ◌>>◌, decode-encode_uint32, decode-encode_uint64,
  read_full-append, >>=-eq-ok, guard-eq-ok, read_full-ok, take-drop,
}
unfoldable pub use Reader.{
  read_full, decode_uint32, decode_uint64, encode_uint32, encode_uint64, padding, skip_padding,
}
use absnfs.Prelude.{
  ℕ, ◌+◌, ◌/◌, ◌*◌, Bool, List, [], ◌++◌, length, replicate, ltb, leb, if◌then◌else◌, not, nat_beq,
}
use absnfs.Cache.ChildOf.{has_byte}

abbrev pub max_xdr_string_length : ℕ
max_xdr_string_length = 8192

-- The bytes, and zeros up to the next multiple of four.
unfoldable pub encode_string : List ℕ → List ℕ
encode_string s = encode_uint32 (length s) ++ (s ++ replicate (padding (length s)) 0)

unfoldable pub decode_string : Decoder (List ℕ)
decode_string = do
  n ← decode_uint32
  guard (leb n max_xdr_string_length) too_long
  buf ← read_full n
  skip_padding n
  guard (not (has_byte 0 buf)) nul_byte
  pure buf

unfoldable pub encode_file_handle : ℕ → List ℕ
encode_file_handle handle = encode_uint32 8 ++ encode_uint64 handle

-- `(int(length) + 3) &^ 3`.
abbrev pub round_up : ℕ → ℕ
round_up n = (n + 3) / 4 * 4

-- A handle of another length is read and thrown away before the error.
unfoldable pub decode_file_handle : Decoder ℕ
decode_file_handle = do
  n ← decode_uint32
  guard (leb n 64) too_long
  if nat_beq n 8
      then decode_uint64
      else do if ltb 0 n then (do read_full (round_up n); pure tt) else pure tt; fail bad_length
