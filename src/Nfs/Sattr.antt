-- ===== src/Nfs/Sattr.antt =====
-- nfs_proc_handlers.go: the attributes that a client asks to set.
use absnfs.Prelude.{
  ℕ, ◌^◌, ◌<◌, ◌≡◌, refl, Option, none, some, List, ◌++◌, nat_beq, if◌then◌else◌, arith,
}
use mathlib.Core.List.{append_assoc}
use absnfs.Xdr.{
  Decoder, ok, pure, ◌>>=◌, decode_uint32, decode_uint64, encode_uint32, encode_uint64,
  decode-encode_uint32, decode-encode_uint64,
}

-- A time to set: not at all, the server's, the client's (its seconds and nanoseconds). Other codes
-- are taken as they come, and set nothing.
pub data SetTime : Type 0 where
  keep server_time : SetTime
  client_time : ℕ → ℕ → SetTime
  unknown_code : ℕ → SetTime

-- sattr3. A field and its flag are an option.
pub record Sattr3 : Type 0 where
  pub mode : Option ℕ
  pub uid : Option ℕ
  pub gid : Option ℕ
  pub size : Option ℕ
  pub atime : SetTime
  pub mtime : SetTime

-- A flag, and the value behind it if it is set.
unfoldable pub decode_optional : Decoder ℕ → Decoder (Option ℕ)
decode_optional value = do
  flag ← decode_uint32
  if nat_beq flag 0 then pure none else (do v ← value; pure (some v))

abbrev pub simple_time : ℕ → SetTime
simple_time how =
    if nat_beq how 0 then keep else if nat_beq how 1 then server_time else unknown_code how

unfoldable pub decode_set_time : Decoder SetTime
decode_set_time = do
  how ← decode_uint32
  if nat_beq how 2
      then (do s ← decode_uint32; n ← decode_uint32; pure (client_time s n))
      else pure (simple_time how)

unfoldable pub decode_sattr3 : Decoder Sattr3
decode_sattr3 = do
  mode ← decode_optional decode_uint32
  uid ← decode_optional decode_uint32
  gid ← decode_optional decode_uint32
  size ← decode_optional decode_uint64
  atime ← decode_set_time
  mtime ← decode_set_time
  pure (record { mode = mode; uid = uid; gid = gid; size = size; atime = atime; mtime = mtime })

-- RFC 1813, sattr3 as a client writes it.
abbrev pub write_optional : (ℕ → List ℕ) → Option ℕ → List ℕ
write_optional word none = encode_uint32 0
write_optional word (some v) = encode_uint32 1 ++ word v

abbrev pub write_set_time : SetTime → List ℕ
write_set_time keep = encode_uint32 0
write_set_time server_time = encode_uint32 1
write_set_time (client_time s n) = encode_uint32 2 ++ (encode_uint32 s ++ encode_uint32 n)
write_set_time (unknown_code c) = encode_uint32 c

abbrev pub write_sattr3 : Sattr3 → List ℕ
write_sattr3 a =
    write_optional encode_uint32 a.mode
    ++ (write_optional encode_uint32 a.uid
        ++ (write_optional encode_uint32 a.gid
            ++ (write_optional encode_uint64 a.size
                ++ (write_set_time a.atime ++ write_set_time a.mtime))))

abbrev pub IsSmall : ℕ → Option ℕ → Type 0
IsSmall bound none = Unit
IsSmall bound (some v) = v < bound

abbrev pub IsSetTime : SetTime → Type 0
IsSetTime keep = Unit
IsSetTime server_time = Unit
IsSetTime (client_time s n) = (s < 2 ^ 32) × (n < 2 ^ 32)
IsSetTime (unknown_code c) = ⊥

-- Values that fit their words.
pub record IsSattr3 (a : Sattr3) : Type 0 where
  pub mode_small : IsSmall (2 ^ 32) a.mode
  pub uid_small : IsSmall (2 ^ 32) a.uid
  pub gid_small : IsSmall (2 ^ 32) a.gid
  pub size_small : IsSmall (2 ^ 64) a.size
  pub atime_known : IsSetTime a.atime
  pub mtime_known : IsSetTime a.mtime

decode_optional-write :
    (word : ℕ → List ℕ) (value : Decoder ℕ) (bound : ℕ)
    → ((v : ℕ) (rest : List ℕ) → v < bound → value (word v ++ rest) ≡ (ok v, rest))
    → (v : Option ℕ) (rest : List ℕ) → IsSmall bound v
    → decode_optional value (write_optional word v ++ rest) ≡ (ok v, rest)
unfolding decode_optional
decode_optional-write word value bound k none rest small =
    rw (decode-encode_uint32 0 rest (omega arith)) refl
decode_optional-write word value bound k (some v) rest small =
    rw
      (
        append_assoc (encode_uint32 1) (word v) rest,
        decode-encode_uint32 1 (word v ++ rest) (omega arith),
        k v rest small,
      )
      refl

decode_set_time-write :
    (t : SetTime) (rest : List ℕ)
    → IsSetTime t
    → decode_set_time (write_set_time t ++ rest) ≡ (ok t, rest)
unfolding decode_set_time
decode_set_time-write keep rest h = rw (decode-encode_uint32 0 rest (omega arith)) refl
decode_set_time-write server_time rest h = rw (decode-encode_uint32 1 rest (omega arith)) refl
decode_set_time-write (client_time s n) rest h =
    rw
      (
        append_assoc (encode_uint32 2) (encode_uint32 s ++ encode_uint32 n) rest,
        decode-encode_uint32 2 ((encode_uint32 s ++ encode_uint32 n) ++ rest) (omega arith),
        append_assoc (encode_uint32 s) (encode_uint32 n) rest,
        decode-encode_uint32 s (encode_uint32 n ++ rest) h.0,
        decode-encode_uint32 n rest h.1,
      )
      refl
decode_set_time-write (unknown_code c) rest h = elim h [ ]

-- The attributes that a client writes as RFC 1813 lays sattr3 down, with values that fit their
-- words, are what decode_sattr3 reads, and the reader goes on behind them.
pub decode_sattr3-write_sattr3 :
    (a : Sattr3) (rest : List ℕ)
    → IsSattr3 a
    → decode_sattr3 (write_sattr3 a ++ rest) ≡ (ok a, rest)
unfolding decode_sattr3
decode_sattr3-write_sattr3 a rest h =
    rw
      (
        append_assoc (write_optional encode_uint32 a.mode) _ rest,
        decode_optional-write encode_uint32 decode_uint32 (2 ^ 32) decode-encode_uint32 a.mode _
            h.mode_small,
        append_assoc (write_optional encode_uint32 a.uid) _ rest,
        decode_optional-write encode_uint32 decode_uint32 (2 ^ 32) decode-encode_uint32 a.uid _
            h.uid_small,
        append_assoc (write_optional encode_uint32 a.gid) _ rest,
        decode_optional-write encode_uint32 decode_uint32 (2 ^ 32) decode-encode_uint32 a.gid _
            h.gid_small,
        append_assoc (write_optional encode_uint64 a.size) _ rest,
        decode_optional-write encode_uint64 decode_uint64 (2 ^ 64) decode-encode_uint64 a.size _
            h.size_small,
        append_assoc (write_set_time a.atime) _ rest,
        decode_set_time-write a.atime _ h.atime_known,
        decode_set_time-write a.mtime rest h.mtime_known,
      )
      refl
