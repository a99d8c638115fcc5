-- ===== src/Transport/Tests.antt =====
-- A record of five bytes in fragments of two, on which the theorems on record marking are tried.
use absnfs.Prelude.{ℕ, ◌≡◌, some, List, [], ◌∷◌, ◌++◌, arith}
use absnfs.Xdr.{ok}
use absnfs.Transport.{write_record, read_record, Outcome}
use absnfs.Transport.Written.{read_record-write_record}
use absnfs.Transport.Read.{WithinLimit, read_record_total}

abbrev message : List ℕ
message = 1 ∷ 2 ∷ 3 ∷ 4 ∷ 5 ∷ []

abbrev behind : List ℕ
behind = 128 ∷ 0 ∷ []

read_record-write_record_example :
    (bytes : List ℕ) × (write_record 2 message ≡ some bytes)
    × (read_record 5 (bytes ++ behind) ≡ some (ok message, behind))
read_record-write_record_example =
    read_record-write_record 2 5 message behind (omega arith) (omega arith) (omega arith)

-- Two fragments with no last one.
abbrev unfinished : List ℕ
unfinished = 0 ∷ 0 ∷ 0 ∷ 0 ∷ 0 ∷ 0 ∷ 0 ∷ 1 ∷ 7 ∷ []

read_record_total_example : (r : Outcome) × (read_record 5 unfinished ≡ some r) × WithinLimit 5 r
read_record_total_example = read_record_total 5 unfinished
