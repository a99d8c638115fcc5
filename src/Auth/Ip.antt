-- ===== src/Auth/Ip.antt =====
-- auth.go, normalizeIP and isIPAllowed, with the methods of net.IP and net.IPNet that they call. An
-- address is its bytes: four of them, or sixteen.
use Prim.Native.Nat.{bit_and}
use absnfs.Prelude.{
  ℕ, Bool, true, false, ◌&&◌, Option, none, some, List, [], ◌∷◌, ◌++◌, length, take, drop,
  replicate, nat_beq, if◌then◌else◌, ◌==◌, bytes_eq,
}
use absnfs.Cache.ChildOf.{slash, has_byte}

-- What stands before the four bytes of an IPv4 address in its sixteen-byte form.
abbrev pub mapped_prefix : List ℕ
mapped_prefix = replicate 10 0 ++ (255 ∷ 255 ∷ [])

-- `ip.To4()`.
unfoldable pub to4 : List ℕ → Option (List ℕ)
to4 ip =
    if nat_beq (length ip) 4
    then some ip
    else if nat_beq (length ip) 16 && take 12 ip == mapped_prefix
    then some (drop 12 ip)
    else none

unfoldable pub normalize_ip : List ℕ → List ℕ
unfolding to4
normalize_ip ip = elim (to4 ip) [ some v4 ↦ v4 | none ↦ ip ]

-- `ip.Equal(x)`: the two forms of an IPv4 address are equal.
unfoldable pub ip_equal : List ℕ → List ℕ → Bool
ip_equal ip x =
    if nat_beq (length ip) (length x)
    then ip == x
    else if nat_beq (length ip) 4 && nat_beq (length x) 16
    then take 12 x == mapped_prefix && ip == drop 12 x
    else if nat_beq (length ip) 16 && nat_beq (length x) 4
    then take 12 ip == mapped_prefix && drop 12 ip == x
    else false

-- What net.ParseCIDR returns: the address and the mask.
pub record Subnet : Type 0 where
  pub address : List ℕ
  pub mask : List ℕ

-- A subnet of IPv4 addresses is compared in four bytes.
unfoldable pub network_of : Subnet → Subnet
unfolding to4
network_of n = elim (to4 n.address) [
  | none ↦ n
  | some v4 ↦ record {
    address = v4;
    mask = if nat_beq (length n.mask) 16 then drop 12 n.mask else n.mask;
  }
]

-- The bytes agree under the mask.
abbrev pub same_under : List ℕ → List ℕ → List ℕ → Bool
same_under (m ∷ ms) (a ∷ xs) (b ∷ ys) = nat_beq (bit_and a m) (bit_and b m) && same_under ms xs ys
same_under [] [] [] = true
same_under _ _ _ = false

-- `subnet.Contains(ip)`.
unfoldable pub subnet_contains : Subnet → List ℕ → Bool
unfolding normalize_ip network_of
subnet_contains n ip = let m = network_of n in same_under m.mask m.address (normalize_ip ip)

module _ (parse_ip : List ℕ → Option (List ℕ)) (parse_cidr : List ℕ → Option Subnet) where
  -- One entry of the list.
  unfoldable pub entry_matches : List ℕ → List ℕ → Bool
  unfolding subnet_contains ip_equal
  entry_matches ip entry =
      if has_byte slash entry
      then elim (parse_cidr entry) [ none ↦ false | some subnet ↦ subnet_contains subnet ip ]
      else elim (parse_ip entry) [ none ↦ false | some other ↦ ip_equal (normalize_ip other) ip ]

  unfoldable pub any_entry : List ℕ → List (List ℕ) → Bool
  unfolding entry_matches
  any_entry ip [] = false
  any_entry ip (entry ∷ entries) =
      let rest = any_entry ip entries in if entry_matches ip entry then true else rest

  unfoldable pub is_ip_allowed : List ℕ → List (List ℕ) → Bool
  unfolding any_entry
  is_ip_allowed client entries = elim (parse_ip client) [
    | none ↦ false
    | some ip ↦ any_entry (normalize_ip ip) entries
  ]
