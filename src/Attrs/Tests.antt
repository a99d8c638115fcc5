-- ===== src/Attrs/Tests.antt =====
-- A directory's attributes, on which the theorem on their encoding is tried.
use absnfs.Prelude.{ℕ, ◌+◌, ◌^◌, ◌≡◌, List, [], ◌∷◌, ◌++◌, arith}
use absnfs.Prelude.Int.{pos, negsuc}
use absnfs.Xdr.{ok}
use absnfs.Attrs.{NfsAttrs}
use absnfs.Attrs.Wire.{encode_file_attributes}
use absnfs.Attrs.Fattr.{IsWire, read_fattr, fattr_of, read_fattr-encode}

abbrev directory : NfsAttrs
directory = record {
  mode = 2 ^ 31 + 493;
  size = pos 4096;
  file_id = 12;
  mtime = pos 63000000000000000007;
  atime = negsuc 3;
  uid = 1000;
  gid = 100;
  valid_until = pos 0;
}

abbrev behind : List ℕ
behind = 9 ∷ []

directory-IsWire : IsWire directory
directory-IsWire = record {
  uid_word = omega arith;
  gid_word = omega arith;
  file_id_word = omega arith;
}

read_fattr-encode_example :
    read_fattr (encode_file_attributes directory ++ behind) ≡ (ok (fattr_of directory), behind)
read_fattr-encode_example = read_fattr-encode directory behind directory-IsWire
