-- ===== src/Attrs/Fattr.antt =====
-- attributes.go, encodeFileAttributes: what a client of RFC 1813 reads in it.
use Prim.Native.Nat.{bit_and}
use absnfs.Prelude.{
  Bool, ◌%◌, ◌/◌, ◌*◌, ◌+◌, ◌-◌, nat_beq, if◌then◌else◌, ℕ, ◌^◌, ◌<◌, ◌≡◌, List, ◌++◌, arith,
}
use absnfs.Prelude.Int.{ℤ, pos, negsuc}
use mathlib.Core.List.{append_assoc}
use absnfs.Xdr.{
  ok, Decoder, pure, ◌>>=◌, decode_uint32, decode_uint64, encode_uint32, encode_uint64,
  decode-encode_uint32, decode-encode_uint64,
}
use absnfs.Attrs.{NfsAttrs}
use absnfs.Attrs.Wire.{
  file_type, perm, to_uint64, unix32, nanosecond, encode_time, nlink, encode_file_attributes,
}

-- RFC 1813, `fattr3`. A time is its seconds and its nanoseconds.
pub record Fattr : Type 0 where
  pub kind : ℕ
  pub mode : ℕ
  pub links : ℕ
  pub owner : ℕ × ℕ
  pub size : ℕ
  pub used : ℕ
  pub device : ℕ × ℕ
  pub fsid : ℕ
  pub file_id : ℕ
  pub times : (ℕ × ℕ) × (ℕ × ℕ) × (ℕ × ℕ)

unfoldable read_pair : Decoder (ℕ × ℕ)
read_pair = do a ← decode_uint32; b ← decode_uint32; pure (a, b)

unfoldable pub read_fattr : Decoder Fattr
unfolding read_pair
read_fattr = do
  kind ← decode_uint32
  mode ← decode_uint32
  links ← decode_uint32
  owner ← read_pair
  size ← decode_uint64
  used ← decode_uint64
  device ← read_pair
  fsid ← decode_uint64
  file_id ← decode_uint64
  atime ← read_pair
  mtime ← read_pair
  ctime ← read_pair
  pure (record {
    kind = kind;
    mode = mode;
    links = links;
    owner = owner;
    size = size;
    used = used;
    device = device;
    fsid = fsid;
    file_id = file_id;
    times = (atime, mtime, ctime);
  })

-- RFC 1813, `ftype3`: a regular file unless the type bits of the os.FileMode say directory, symbolic
-- link, block device, character device, socket or named pipe, and nothing else.
abbrev pub has_type : ℕ → ℕ → Bool
has_type bits mode = nat_beq (bit_and mode 2401763328) bits

abbrev kind_of : ℕ → ℕ
kind_of mode =
    if has_type 2147483648 mode
    then 2
    else if has_type 134217728 mode
    then 5
    else if has_type 67108864 mode
    then 3
    else if has_type 69206016 mode
    then 4
    else if has_type 16777216 mode
    then 6
    else if has_type 33554432 mode
    then 7
    else 1

-- Two links of a directory, one of anything else.
abbrev links_of : ℕ → ℕ
links_of mode = if has_type 2147483648 mode then 2 else 1

file_type-kind_of : (mode : ℕ) → file_type mode ≡ kind_of mode
unfolding file_type
file_type-kind_of mode = ground arith

nlink-links_of : (mode : ℕ) → nlink mode ≡ links_of mode
unfolding file_type
nlink-links_of mode = ground arith

-- The low 32 bits of the seconds since 1970 of an instant in nanoseconds since the year 1, rounded
-- down, and the nanoseconds from there.
abbrev seconds_of : ℤ → ℕ
seconds_of (pos n) = (n / 10 ^ 9 + 15 * 2 ^ 32 - 62135596800) % 2 ^ 32
seconds_of (negsuc n) = 2 ^ 32 - 1 - (n / 10 ^ 9 + 62135596800) % 2 ^ 32

abbrev rest_of : ℤ → ℕ
rest_of (pos n) = n % 10 ^ 9
rest_of (negsuc n) = 10 ^ 9 - 1 - n % 10 ^ 9

-- The word of 64 bits of a size.
abbrev size_of : ℤ → ℕ
size_of (pos n) = n % 2 ^ 64
size_of (negsuc n) = 2 ^ 64 - 1 - n % 2 ^ 64

unix32-seconds_of : (t : ℤ) → unix32 t ≡ seconds_of t
unix32-seconds_of (pos n) = omega arith
unix32-seconds_of (negsuc n) = omega arith

nanosecond-rest_of : (t : ℤ) → nanosecond t ≡ rest_of t
nanosecond-rest_of (pos n) = omega arith
nanosecond-rest_of (negsuc n) = omega arith

to_uint64-size_of : (n : ℤ) → to_uint64 n ≡ size_of n
to_uint64-size_of (pos n) = omega arith
to_uint64-size_of (negsuc n) = omega arith

-- What the client is to see of a file's attributes.
unfoldable pub fattr_of : NfsAttrs → Fattr
fattr_of a =
    let time : ℤ → ℕ × ℕ = λ t. (seconds_of t, rest_of t) in
    record {
      kind = kind_of a.mode;
      mode = a.mode % 512;
      links = links_of a.mode;
      owner = (a.uid, a.gid);
      size = size_of a.size;
      used = size_of a.size;
      device = (0, 0);
      fsid = 0;
      file_id = a.file_id;
      times = (time a.atime, time a.mtime, time a.mtime);
    }

pub record IsWire (a : NfsAttrs) : Type 0 where
  pub uid_word : a.uid < 2 ^ 32
  pub gid_word : a.gid < 2 ^ 32
  pub file_id_word : a.file_id < 2 ^ 64

read_pair-encode :
    (a b : ℕ) (rest : List ℕ)
    → a < 2 ^ 32
    → b < 2 ^ 32
    → read_pair (encode_uint32 a ++ (encode_uint32 b ++ rest)) ≡ (ok (a, b), rest)
unfolding read_pair
read_pair-encode a b rest ha hb =
    rw (decode-encode_uint32 a (encode_uint32 b ++ rest) ha, decode-encode_uint32 b rest hb)

unix32-lt : (t : ℤ) → unix32 t < 2 ^ 32
unix32-lt (pos n) = omega arith
unix32-lt (negsuc n) = omega arith

nanosecond-lt : (t : ℤ) → nanosecond t < 2 ^ 32
nanosecond-lt (pos n) = omega arith
nanosecond-lt (negsuc n) = omega arith

to_uint64-lt : (n : ℤ) → to_uint64 n < 2 ^ 64
to_uint64-lt (pos n) = omega arith
to_uint64-lt (negsuc n) = omega arith

read_time-encode :
    (t : ℤ) (rest : List ℕ)
    → read_pair (encode_time t ++ rest) ≡ (ok (unix32 t, nanosecond t), rest)
unfolding encode_time
read_time-encode t rest =
    rw (append_assoc (encode_uint32 (unix32 t)) (encode_uint32 (nanosecond t)) rest)
      (read_pair-encode (unix32 t) (nanosecond t) rest (unix32-lt t) (nanosecond-lt t))

file_type-lt : (mode : ℕ) → file_type mode < 2 ^ 32
unfolding file_type
file_type-lt mode = ground arith

nlink-lt : (mode : ℕ) → nlink mode < 2 ^ 32
nlink-lt mode = ground arith

-- A client reads back the type as RFC 1813 numbers it, the permission bits, two links for a
-- directory and one for anything else, owner and group, the size twice, no device and file system
-- 0, the number of the file, and its access and modification times, the latter also as the time of
-- change. The reader goes on behind them. Owner, group and number fit their words.
pub read_fattr-encode :
    (a : NfsAttrs) (rest : List ℕ)
    → IsWire a
    → read_fattr (encode_file_attributes a ++ rest) ≡ (ok (fattr_of a), rest)
unfolding read_fattr fattr_of encode_file_attributes
read_fattr-encode a rest w =
    let s₁₂ : List ℕ = encode_time a.mtime ++ rest in
    let s₁₁ : List ℕ = encode_time a.mtime ++ s₁₂ in
    let s₁₀ : List ℕ = encode_time a.atime ++ s₁₁ in
    let s₉ : List ℕ = encode_uint64 a.file_id ++ s₁₀ in
    let s₈ : List ℕ = encode_uint64 0 ++ s₉ in
    let s₇ : List ℕ = encode_uint32 0 ++ (encode_uint32 0 ++ s₈) in
    let s₆ : List ℕ = encode_uint64 (to_uint64 a.size) ++ s₇ in
    let s₅ : List ℕ = encode_uint64 (to_uint64 a.size) ++ s₆ in
    let s₄ : List ℕ = encode_uint32 a.uid ++ (encode_uint32 a.gid ++ s₅) in
    let s₃ : List ℕ = encode_uint32 (nlink a.mode) ++ s₄ in
    let s₂ : List ℕ = encode_uint32 (perm a.mode) ++ s₃ in
    let flat : encode_file_attributes a ++ rest ≡ encode_uint32 (file_type a.mode) ++ s₂ =
      simp append_assoc in
    rw (
      flat,
      decode-encode_uint32 (file_type a.mode) s₂ (file_type-lt a.mode),
      decode-encode_uint32 (perm a.mode) s₃ (omega arith),
      decode-encode_uint32 (nlink a.mode) s₄ (nlink-lt a.mode),
      read_pair-encode a.uid a.gid s₅ w.uid_word w.gid_word,
      decode-encode_uint64 (to_uint64 a.size) s₆ (to_uint64-lt a.size),
      decode-encode_uint64 (to_uint64 a.size) s₇ (to_uint64-lt a.size),
      read_pair-encode 0 0 s₈ (omega arith) (omega arith),
      decode-encode_uint64 0 s₉ (omega arith),
      decode-encode_uint64 a.file_id s₁₀ w.file_id_word,
      read_time-encode a.atime s₁₁,
      read_time-encode a.mtime s₁₂,
      read_time-encode a.mtime rest,
      file_type-kind_of a.mode,
      nlink-links_of a.mode,
      to_uint64-size_of a.size,
      unix32-seconds_of a.atime,
      nanosecond-rest_of a.atime,
      unix32-seconds_of a.mtime,
      nanosecond-rest_of a.mtime,
    )
