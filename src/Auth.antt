-- ===== src/Auth.antt =====
-- auth.go: who may call, and as which user. The parsers of package net on addresses and subnets,
-- net.ParseIP and net.ParseCIDR, are parameters; what the code does with their results is modelled.
-- Of AuthContext the fields that ValidateAuthentication reads or sets are kept. ToLower stands for
-- strings.ToLower on ASCII, and no other letter becomes one of the letters of a mode.
pub mod Ip
pub mod Squash
pub mod Access
mod Tests
use absnfs.Prelude.{
  ℕ, ◌+◌, Bool, true, false, ◌&&◌, ◌||◌, not, Option, none, some, List, [], ◌∷◌, length, replicate,
  ltb, leb, nat_beq, if◌then◌else◌, ◌==◌, bytes_eq,
}
use absnfs.Prelude.Int.{ℤ, pos, leb_ℤ}
use absnfs.Xdr.{Error, Result, ok, err}
use absnfs.Rpc.{OpaqueAuth, AuthSysCredential, auth_none, auth_sys, parse_auth_sys}
use absnfs.Auth.Ip.{Subnet, is_ip_allowed}

abbrev pub nobody : ℕ
nobody = 65534

-- Why a call is denied.
pub data Denial : Type 0 where
  ip_not_allowed port_not_privileged : Denial
  invalid_credential : Error → Denial
  unsupported_flavor : ℕ → Denial

pub record AuthContext : Type 0 where
  pub client_ip : List ℕ
  pub client_port : ℤ
  pub credential : OpaqueAuth
  pub parsed : Option AuthSysCredential

pub record AuthResult : Type 0 where
  pub allowed : Bool
  pub uid : ℕ
  pub gid : ℕ
  pub reason : Option Denial

pub record PolicyOptions : Type 0 where
  pub secure : Bool
  pub allowed_ips : List (List ℕ)
  pub squash : List ℕ

abbrev pub lower_byte : ℕ → ℕ
lower_byte b = if leb b'A' b && leb b b'Z' then b + 32 else b

abbrev pub to_lower : List ℕ → List ℕ
to_lower [] = []
to_lower (b ∷ s) = lower_byte b ∷ to_lower s

abbrev pub root_mode : List ℕ
root_mode = b'r' ∷ b'o' ∷ b'o' ∷ b't' ∷ []

abbrev pub all_mode : List ℕ
all_mode = b'a' ∷ b'l' ∷ b'l' ∷ []

abbrev pub none_mode : List ℕ
none_mode = b'n' ∷ b'o' ∷ b'n' ∷ b'e' ∷ []

abbrev pub to_nobody : AuthResult → AuthResult
to_nobody r = record r { uid = nobody; gid = nobody }

-- The user and the group in mode `root`.
abbrev pub squash_root : AuthResult → AuthSysCredential → AuthResult
squash_root r c =
    if nat_beq c.uid 0
    then to_nobody r
    else if nat_beq r.gid 0
    then record r { gid = nobody }
    else r

-- The loop over the copy of the auxiliary group ids in mode `root`.
unfoldable pub squash_gids : List ℕ → List ℕ
squash_gids [] = []
squash_gids (g ∷ gids) = (if nat_beq g 0 then nobody else g) ∷ squash_gids gids

-- The result, and the credential that the pointer is left with.
unfoldable pub apply_squashing :
    AuthResult → AuthSysCredential → List ℕ → AuthResult × AuthSysCredential
unfolding squash_gids
apply_squashing r c squash =
    let mode = to_lower squash in
    if mode == root_mode
    then (squash_root r c, record c { aux_gids = squash_gids c.aux_gids })
    else if mode == all_mode
    then (to_nobody r, record c { aux_gids = replicate (length c.aux_gids) nobody })
    else if mode == none_mode || mode == []
    then (r, c)
    else (to_nobody r, c)

abbrev pub deny : Denial → AuthResult
deny why = record { allowed = false; uid = nobody; gid = nobody; reason = some why }

abbrev pub allow : ℕ → ℕ → AuthResult
allow uid gid = record { allowed = true; uid = uid; gid = gid; reason = none }

-- The credential, parsed before or now.
abbrev pub credential_of : AuthContext → Result AuthSysCredential
credential_of ctx = elim ctx.parsed [ none ↦ parse_auth_sys ctx.credential.body | some c ↦ ok c ]

abbrev pub accept_sys :
    Result AuthSysCredential → AuthContext → PolicyOptions → AuthResult × AuthContext
accept_sys (err e) ctx policy = (deny (invalid_credential e), ctx)
accept_sys (ok c) ctx policy =
    let squashed = apply_squashing (allow c.uid c.gid) c policy.squash in
    (squashed.0, record ctx { parsed = some squashed.1 })

-- The switch over the flavor of the credential.
unfoldable pub check_flavor : AuthContext → PolicyOptions → AuthResult × AuthContext
check_flavor ctx policy =
    if nat_beq ctx.credential.flavor auth_none
    then (allow nobody nobody, ctx)
    else if nat_beq ctx.credential.flavor auth_sys
    then accept_sys (credential_of ctx) ctx policy
    else (deny (unsupported_flavor ctx.credential.flavor), ctx)

module _ (parse_ip : List ℕ → Option (List ℕ)) (parse_cidr : List ℕ → Option Subnet) where
  unfoldable pub validate_authentication : AuthContext → PolicyOptions → AuthResult × AuthContext
  unfolding check_flavor
  validate_authentication ctx policy =
      if ltb 0 (length policy.allowed_ips)
        && not (is_ip_allowed parse_ip parse_cidr ctx.client_ip policy.allowed_ips)
      then (deny ip_not_allowed, ctx)
      else if policy.secure && leb_ℤ (pos 1024) ctx.client_port
      then (deny port_not_privileged, ctx)
      else check_flavor ctx policy
