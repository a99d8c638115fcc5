-- ===== src/Xdr/Tests.antt =====
-- A name and a handle on the wire, on which the theorems on XDR are tried.
use absnfs.Prelude.{ℕ, ◌^◌, ◌<◌, ◌≡◌, refl, List, [], ◌∷◌, ◌++◌, arith}
use absnfs.Xdr.{ok, decode_uint32, decode_uint64, encode_file_handle, decode_file_handle}
use absnfs.Xdr.Handles.{AreBytes, decode_file_handle-ok}

abbrev name : List ℕ
name = b'a' ∷ b'b' ∷ []

abbrev behind : List ℕ
behind = 9 ∷ []

abbrev handle_bytes : List ℕ
handle_bytes = 0 ∷ 0 ∷ 0 ∷ 8 ∷ 0 ∷ 0 ∷ 0 ∷ 0 ∷ 0 ∷ 0 ∷ 1 ∷ 2 ∷ 9 ∷ []

abbrev two_words : List ℕ
two_words = 1 ∷ 2 ∷ 3 ∷ 4 ∷ []

handle_bytes-AreBytes : AreBytes handle_bytes
handle_bytes-AreBytes = (
  omega arith,
  (
    omega arith,
    (
      omega arith,
      (
        omega arith,
        (
          omega arith,
          (
            omega arith,
            (
              omega arith,
              (
                omega arith,
                (omega arith, (omega arith, (omega arith, (omega arith, (omega arith, tt))))),
              ),
            ),
          ),
        ),
      ),
    ),
  ),
)

accepts : decode_file_handle handle_bytes ≡ (ok 258, behind)
unfolding decode_file_handle decode_uint32 decode_uint64
accepts = refl

decode_file_handle-ok_example : (handle_bytes ≡ encode_file_handle 258 ++ behind) × (258 < 2 ^ 64)
decode_file_handle-ok_example =
    decode_file_handle-ok handle_bytes behind 258 handle_bytes-AreBytes accepts
