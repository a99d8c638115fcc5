-- ===== src/Attrs.antt =====
-- types.go, NFSAttrs: what the server keeps of a file, and until when it takes it for fresh.
-- Instants are nanoseconds from Go's zero time, year 1, and durations are nanoseconds.
pub mod Wire
pub mod Fattr
mod Tests
use absnfs.Prelude.{ℕ, ◌*◌, Bool}
use absnfs.Prelude.Int.{ℤ, pos, ltb_ℤ, ◌+ℤ◌}

-- `time.Time{}`.
abbrev pub zero_time : ℤ
zero_time = pos 0

abbrev pub seconds : ℕ → ℤ
seconds n = pos (n * 1000000000)

pub record NfsAttrs : Type 0 where
  pub mode : ℕ
  pub size : ℤ
  pub file_id : ℕ
  pub mtime : ℤ
  pub atime : ℤ
  pub uid : ℕ
  pub gid : ℕ
  pub valid_until : ℤ

-- IsValid, asked at the instant `now`.
unfoldable pub is_valid : ℤ → NfsAttrs → Bool
is_valid now a = ltb_ℤ now a.valid_until

unfoldable pub refresh : ℤ → NfsAttrs → NfsAttrs
refresh now a = record a { valid_until = now +ℤ seconds 2 }

unfoldable pub invalidate : NfsAttrs → NfsAttrs
invalidate a = record a { valid_until = zero_time }

-- NewNFSAttrs, which sets neither `FileId` nor `validUntil`.
unfoldable pub new_nfs_attrs : ℕ → ℤ → ℤ → ℤ → ℕ → ℕ → NfsAttrs
new_nfs_attrs mode size mtime atime uid gid = record {
  mode = mode;
  size = size;
  file_id = 0;
  mtime = mtime;
  atime = atime;
  uid = uid;
  gid = gid;
  valid_until = zero_time;
}
