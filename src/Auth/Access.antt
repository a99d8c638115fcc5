-- ===== src/Auth/Access.antt =====
-- What ValidateAuthentication decides.
use absnfs.Prelude.{
  ℕ, ◌≡◌, refl, Bool, true, false, ◌&&◌, ◌||◌, not, Option, List, length, nat_beq, bytes_eq,
  Bool-cases, inl, inr, arith,
}
use absnfs.Prelude.Int.{pos, leb_ℤ}
use absnfs.Xdr.{Result, ok, err}
use absnfs.Rpc.{AuthSysCredential, auth_none, auth_sys}
use absnfs.Auth.Ip.{Subnet, is_ip_allowed}
use absnfs.Auth.{
  AuthContext, AuthResult, PolicyOptions, allow, apply_squashing, credential_of, accept_sys,
  check_flavor, validate_authentication,
}

abbrev pub is_ok : {A : Type 0} → Result A → Bool
is_ok (ok a) = true
is_ok (err e) = false

-- A flavor that is served, with a credential that can be read.
abbrev pub serves : AuthContext → Bool
serves ctx =
    nat_beq ctx.credential.flavor auth_none
    || (nat_beq ctx.credential.flavor auth_sys && is_ok (credential_of ctx))

squash_allowed :
    (r : AuthResult) (c : AuthSysCredential) (squash : List ℕ)
    → (apply_squashing r c squash).0.allowed ≡ r.allowed
unfolding apply_squashing
squash_allowed r c squash = ground arith

check_flavor-allowed :
    (ctx : AuthContext) (policy : PolicyOptions) → (check_flavor ctx policy).0.allowed ≡ serves ctx
unfolding check_flavor
check_flavor-allowed ctx policy = elim (Bool-cases (nat_beq ctx.credential.flavor auth_none)) [
  | inl e ↦ rw e refl
  | inr e ↦ elim (Bool-cases (nat_beq ctx.credential.flavor auth_sys)) [
    | inl k ↦ rw (e, k) (accepts (credential_of ctx))
    | inr k ↦ rw (e, k) refl
  ]
]
  where
    accepts : (r : Result AuthSysCredential) → (accept_sys r ctx policy).0.allowed ≡ is_ok r
    accepts (err x) = refl
    accepts (ok c) = squash_allowed (allow c.uid c.gid) c policy.squash

module _ (parse_ip : List ℕ → Option (List ℕ)) (parse_cidr : List ℕ → Option Subnet) where
  abbrev pub ip_passes : AuthContext → PolicyOptions → Bool
  ip_passes ctx policy =
      nat_beq (length policy.allowed_ips) 0
      || is_ip_allowed parse_ip parse_cidr ctx.client_ip policy.allowed_ips

  abbrev pub port_passes : AuthContext → PolicyOptions → Bool
  port_passes ctx policy = not policy.secure || not (leb_ℤ (pos 1024) ctx.client_port)

  -- A call is allowed exactly if its address is on the list or the list is empty, its port is below
  -- 1024 or any port will do, and its flavor is AUTH_NONE, or AUTH_SYS with a credential that was
  -- parsed before or can be parsed.
  pub validate_authentication-allowed :
      (ctx : AuthContext) (policy : PolicyOptions)
      → (validate_authentication parse_ip parse_cidr ctx policy).0.allowed
        ≡ (ip_passes ctx policy && (port_passes ctx policy && serves ctx))
  unfolding validate_authentication
  validate_authentication-allowed ctx policy = ground (arith, check_flavor-allowed ctx policy)
