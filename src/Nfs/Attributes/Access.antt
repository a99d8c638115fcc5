-- ===== src/Nfs/Attributes/Access.antt =====
-- What ACCESS grants.
use absnfs.Prelude.{
  sym, ◌^◌, List, [], ◌∷◌, ◌||◌, ◌*◌, ℕ, ◌+◌, ◌/◌, ◌%◌, ◌<◌, ◌≡◌, Bool, true, false, ◌&&◌, not,
  nat_beq, arith, if◌then◌else◌,
}
use absnfs.Attrs.{NfsAttrs}
use absnfs.Nfs.{Caller}
use absnfs.Nfs.Attributes.{perm_bits, has_member, access_allowed}

-- A bit of a word, by its value.
abbrev pub has_bit : ℕ → ℕ → Bool
has_bit bit n = nat_beq (n / bit % 2) 1

-- One of the groups of a caller, or none.
abbrev has_group : ℕ → List ℕ → Bool
has_group g [] = false
has_group g (a ∷ l) = if nat_beq a g then true else has_group g l

-- The right `r` (4 to read, 2 to write, 1 to execute) of a caller by the bits of the mode rwxrwxrwx:
-- the superuser has every right, the owner those of the first three bits, whoever else is in the
-- file's group those of the second three, and all others those of the last three.
abbrev pub has_right : ℕ → Caller → NfsAttrs → Bool
has_right r c attrs =
    if nat_beq c.uid 0
    then true
    else if nat_beq attrs.uid c.uid
    then has_bit (64 * r) attrs.mode
    else if has_group attrs.gid (c.gid ∷ c.aux_gids)
    then has_bit (8 * r) attrs.mode
    else has_bit r attrs.mode

abbrev is_directory : NfsAttrs → Bool
is_directory attrs = has_bit 2147483648 attrs.mode

has_group-has_member :
    (g a : ℕ) (l : List ℕ) → has_group g (a ∷ l) ≡ (nat_beq a g || has_member g l)
has_group-has_member g a [] = ground arith
has_group-has_member g a (b ∷ l) = ground (arith, has_group-has_member g b l)

-- The permission bits hold the three rights.
has_bit-perm_bits :
    (c : Caller) (attrs : NfsAttrs)
    → (has_bit 4 (perm_bits c attrs) ≡ has_right 4 c attrs)
      × (has_bit 2 (perm_bits c attrs) ≡ has_right 2 c attrs)
      × (nat_beq (perm_bits c attrs % 2) 1 ≡ has_right 1 c attrs)
unfolding perm_bits
has_bit-perm_bits c attrs =
    let member = has_group-has_member attrs.gid c.gid c.aux_gids in
    let m = attrs.mode in
    let reads : (m / 2 ^ 6 % 8 / 4 % 2 ≡ m / 256 % 2)
        × (m / 2 ^ 3 % 8 / 4 % 2 ≡ m / 32 % 2)
        × (m % 8 / 4 % 2 ≡ m / 4 % 2) =
      (omega arith, omega arith, omega arith) in
    let writes : (m / 2 ^ 6 % 8 / 2 % 2 ≡ m / 128 % 2)
        × (m / 2 ^ 3 % 8 / 2 % 2 ≡ m / 16 % 2)
        × (m % 8 / 2 % 2 ≡ m / 2 % 2) =
      (omega arith, omega arith, omega arith) in
    let executes : (m / 2 ^ 6 % 8 % 2 ≡ m / 64 % 2)
        × (m / 2 ^ 3 % 8 % 2 ≡ m / 8 % 2)
        × (m % 8 % 2 ≡ m / 1 % 2) =
      (omega arith, omega arith, omega arith) in
    (
      ground (arith, member, reads),
      ground (arith, member, writes),
      ground (arith, member, executes),
    )

abbrev bit_of : ℕ → Bool → ℕ
bit_of bit b = if b then bit else 0

abbrev sum_of : Bool → Bool → Bool → Bool → Bool → Bool → ℕ
sum_of a b c d e f = bit_of 1 a + bit_of 2 b + bit_of 32 f + bit_of 4 c + bit_of 8 d + bit_of 16 e

-- The bits that a word shows.
pub record Shows (a b c d e f : Bool) (n : ℕ) : Type 0 where
  pub bit_1 : has_bit 1 n ≡ a
  pub bit_2 : has_bit 2 n ≡ b
  pub bit_4 : has_bit 4 n ≡ c
  pub bit_8 : has_bit 8 n ≡ d
  pub bit_16 : has_bit 16 n ≡ e
  pub bit_32 : has_bit 32 n ≡ f
  pub no_other : n < 64

-- A sum of different bits shows each of them.
sum_of-Shows : (a b c d e f : Bool) → Shows a b c d e f (sum_of a b c d e f)
sum_of-Shows true b c d e f = ground arith
sum_of-Shows false b c d e f = ground arith

-- ACCESS grants each of its six rights exactly if the client asks for it and the caller has the
-- right by the mode of the file (reading; executing; looking up, which is executing a directory;
-- modifying, extending and, in a directory, deleting, which are writing and need an export that is
-- not read-only), and sets no other bit. The superuser has every right, the owner has those of the
-- owner's bits, a member of the file's group who is not the owner has those of the group's bits, by
-- the first group or another, and anyone else has those of the last bits.
pub access_allowed-Shows :
    (c : Caller) (read_only : Bool) (attrs : NfsAttrs) (access : ℕ)
    → Shows
        (has_bit 1 access && has_right 4 c attrs)
        (has_bit 2 access && (is_directory attrs && has_right 1 c attrs))
        (has_bit 4 access && (has_right 2 c attrs && not read_only))
        (has_bit 8 access && (has_right 2 c attrs && not read_only))
        (has_bit 16 access && (is_directory attrs && (has_right 2 c attrs && not read_only)))
        (has_bit 32 access && has_right 1 c attrs)
        (access_allowed c read_only attrs access)
unfolding access_allowed
access_allowed-Shows c read_only attrs access =
    let (reads, writes, executes) = has_bit-perm_bits c attrs in
    rw (sym reads, sym writes, sym executes) (sum_of-Shows _ _ _ _ _ _)
