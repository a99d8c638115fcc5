-- ===== src/Attrs/Wire.antt =====
-- attributes.go: the attributes of a file as NFSv3 puts them on the wire.
use Prim.Native.Nat.{bit_and}
use absnfs.Prelude.{ℕ, ◌+◌, ◌-◌, ◌/◌, ◌%◌, ◌^◌, List, ◌++◌, nat_beq, if◌then◌else◌}
use absnfs.Prelude.Int.{ℤ, pos, negsuc}
use absnfs.Attrs.{NfsAttrs}
use absnfs.Xdr.{encode_uint32, encode_uint64}

-- The bits of Go's os.FileMode.
abbrev mode_dir : ℕ
mode_dir = 2 ^ 31

abbrev mode_symlink : ℕ
mode_symlink = 2 ^ 27

abbrev mode_device : ℕ
mode_device = 2 ^ 26

abbrev mode_named_pipe : ℕ
mode_named_pipe = 2 ^ 25

abbrev mode_socket : ℕ
mode_socket = 2 ^ 24

abbrev mode_char_device : ℕ
mode_char_device = 2 ^ 21

abbrev mode_irregular : ℕ
mode_irregular = 2 ^ 19

abbrev mode_type : ℕ
mode_type =
    mode_dir + mode_symlink + mode_device + mode_named_pipe + mode_socket + mode_char_device
    + mode_irregular

abbrev nf3reg : ℕ
nf3reg = 1

abbrev nf3dir : ℕ
nf3dir = 2

abbrev nf3blk : ℕ
nf3blk = 3

abbrev nf3chr : ℕ
nf3chr = 4

abbrev nf3lnk : ℕ
nf3lnk = 5

abbrev nf3sock : ℕ
nf3sock = 6

abbrev nf3fifo : ℕ
nf3fifo = 7

-- The switch on `mode & os.ModeType`.
unfoldable pub file_type : ℕ → ℕ
file_type mode =
    let t = bit_and mode mode_type in
    if nat_beq t mode_dir
    then nf3dir
    else if nat_beq t mode_symlink
    then nf3lnk
    else if nat_beq t mode_device
    then nf3blk
    else if nat_beq t (mode_device + mode_char_device)
    then nf3chr
    else if nat_beq t mode_socket
    then nf3sock
    else if nat_beq t mode_named_pipe
    then nf3fifo
    else nf3reg

-- `mode.Perm()`.
abbrev pub perm : ℕ → ℕ
perm mode = mode % 512

-- `uint64(n)` of an int64.
abbrev pub to_uint64 : ℤ → ℕ
to_uint64 (pos n) = n % 2 ^ 64
to_uint64 (negsuc n) = 2 ^ 64 - 1 - n % 2 ^ 64

-- The seconds from year 1 to 1970.
abbrev pub unix_epoch : ℕ
unix_epoch = 62135596800

-- `uint32(t.Unix())`.
abbrev pub unix32 : ℤ → ℕ
unix32 (pos n) = (n / 1000000000 + 2 ^ 64 - unix_epoch) % 2 ^ 32
unix32 (negsuc n) = 2 ^ 32 - 1 - (n / 1000000000 + unix_epoch) % 2 ^ 32

-- `t.Nanosecond()`.
abbrev pub nanosecond : ℤ → ℕ
nanosecond (pos n) = n % 1000000000
nanosecond (negsuc n) = 1000000000 - 1 - n % 1000000000

unfoldable pub encode_time : ℤ → List ℕ
encode_time t = encode_uint32 (unix32 t) ++ encode_uint32 (nanosecond t)

abbrev pub nlink : ℕ → ℕ
nlink mode = if nat_beq (file_type mode) nf3dir then 2 else 1

unfoldable pub encode_file_attributes : NfsAttrs → List ℕ
unfolding file_type encode_time
encode_file_attributes a =
    encode_uint32 (file_type a.mode)
    ++ (encode_uint32 (perm a.mode)
        ++ (encode_uint32 (nlink a.mode)
            ++ (encode_uint32 a.uid
                ++ (encode_uint32 a.gid
                    ++ (encode_uint64 (to_uint64 a.size)
                        ++ (encode_uint64 (to_uint64 a.size)
                            ++ (encode_uint32 0
                                ++ (encode_uint32 0
                                    ++ (encode_uint64 0
                                        ++ (encode_uint64 a.file_id
                                            ++ (encode_time a.atime
                                                ++ (encode_time a.mtime
                                                    ++ encode_time a.mtime))))))))))))

unfoldable pub encode_wcc_attr : NfsAttrs → List ℕ
unfolding encode_time
encode_wcc_attr a = encode_uint64 (to_uint64 a.size) ++ (encode_time a.mtime ++ encode_time a.mtime)

unfoldable pub encode_attributes_response : NfsAttrs → List ℕ
unfolding encode_file_attributes
encode_attributes_response a = encode_uint32 0 ++ encode_file_attributes a

unfoldable pub encode_error_response : ℕ → List ℕ
encode_error_response code = encode_uint32 code
