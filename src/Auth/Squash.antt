-- ===== src/Auth/Squash.antt =====
-- What is left of the caller's user and groups.
use absnfs.Prelude.{
  ℕ, zero, suc, ap, ◌⊎◌, length-replicate, ◌≡◌, ◌≢◌, refl, Option, List, [], ◌∷◌, length, replicate,
  bytes_eq, if_keeps, inl, inr, arith,
}
use absnfs.Prelude.All.{All}
use absnfs.Xdr.{Result, ok, err}
use absnfs.Rpc.{AuthSysCredential}
use absnfs.Auth.Ip.{Subnet}
use absnfs.Auth.{
  nobody, deny, Denial, ip_not_allowed, port_not_privileged, invalid_credential, unsupported_flavor,
  AuthContext, AuthResult, PolicyOptions, to_lower, root_mode, all_mode, squash_root, allow,
  squash_gids, apply_squashing, credential_of, accept_sys, check_flavor, validate_authentication,
}

abbrev IsUnprivileged : AuthResult → Type 0
IsUnprivileged r = (r.uid ≢ 0) × (r.gid ≢ 0)

squash_root-IsUnprivileged :
    (c : AuthSysCredential) → IsUnprivileged (squash_root (allow c.uid c.gid) c)
squash_root-IsUnprivileged c = ground arith

module _ (parse_ip : List ℕ → Option (List ℕ)) (parse_cidr : List ℕ → Option Subnet) where
  -- Every result is a denial, nobody, or a squashed credential.
  result_keeps :
      (P : AuthResult → Type 0) (ctx : AuthContext) (policy : PolicyOptions)
      → ((d : Denial) → P (deny d))
      → P (allow nobody nobody)
      → ((c : AuthSysCredential) → P (apply_squashing (allow c.uid c.gid) c policy.squash).0)
      → P (validate_authentication parse_ip parse_cidr ctx policy).0
  unfolding validate_authentication check_flavor
  result_keeps P ctx policy denied anyone squashed =
      let Q : AuthResult × AuthContext → Type 0 = λ r. P r.0 in
      if_keeps Q _ (denied ip_not_allowed) (
        if_keeps Q _ (denied port_not_privileged) (
          if_keeps Q _ anyone (
            if_keeps Q _ (accepted (credential_of ctx))
              (denied (unsupported_flavor ctx.credential.flavor)))))
    where
      accepted : (r : Result AuthSysCredential) → P (accept_sys r ctx policy).0
      accepted (err e) = denied (invalid_credential e)
      accepted (ok c) = squashed c

  -- In mode `root`, in any letter case, no call runs as user 0 or group 0, whatever its credential
  -- says.
  pub validate_authentication-root :
      (ctx : AuthContext) (policy : PolicyOptions)
      → to_lower policy.squash ≡ root_mode
      → ((validate_authentication parse_ip parse_cidr ctx policy).0.uid ≢ 0)
        × ((validate_authentication parse_ip parse_cidr ctx policy).0.gid ≢ 0)
  unfolding validate_authentication apply_squashing
  validate_authentication-root ctx policy mode =
      result_keeps IsUnprivileged ctx policy (λ d. (λ e. cc, λ e. cc)) (λ e. cc, λ e. cc)
        (λ c. rw (mode, apply_squashing) (squash_root-IsUnprivileged c))

  -- In mode `all`, in any letter case, every call runs as nobody.
  pub validate_authentication-all :
      (ctx : AuthContext) (policy : PolicyOptions)
      → to_lower policy.squash ≡ all_mode
      → ((validate_authentication parse_ip parse_cidr ctx policy).0.uid ≡ nobody)
        × ((validate_authentication parse_ip parse_cidr ctx policy).0.gid ≡ nobody)
  unfolding validate_authentication apply_squashing
  validate_authentication-all ctx policy mode =
      result_keeps (λ r. (r.uid ≡ nobody) × (r.gid ≡ nobody)) ctx policy (λ d. (refl, refl))
        (refl, refl) (λ c. rw (mode, apply_squashing) (refl, refl))

squash_gids-nonzero : (gids : List ℕ) → All (λ g. g ≢ 0) (squash_gids gids)
unfolding squash_gids
squash_gids-nonzero [] = tt
squash_gids-nonzero (g ∷ gids) = (ground arith, squash_gids-nonzero gids)

length-squash_gids : (gids : List ℕ) → length (squash_gids gids) ≡ length gids
unfolding squash_gids
length-squash_gids [] = refl
length-squash_gids (g ∷ gids) = ap suc (length-squash_gids gids)

nobodies-nonzero : (n : ℕ) → All (λ g. g ≢ 0) (replicate n nobody)
nobodies-nonzero zero = tt
nobodies-nonzero (suc n) = (λ e. cc, nobodies-nonzero n)

-- In the modes `root` and `all`, in any letter case, the auxiliary group ids that the credential is
-- left with hold no 0, and there are as many as before.
pub apply_squashing-gids :
    (r : AuthResult) (c : AuthSysCredential) (squash : List ℕ)
    → (to_lower squash ≡ root_mode) ⊎ (to_lower squash ≡ all_mode)
    → All (λ g. g ≢ 0) (apply_squashing r c squash).1.aux_gids
      × (length (apply_squashing r c squash).1.aux_gids ≡ length c.aux_gids)
unfolding apply_squashing
apply_squashing-gids r c squash (inl mode) =
    rw (mode, apply_squashing) (squash_gids-nonzero c.aux_gids, length-squash_gids c.aux_gids)
apply_squashing-gids r c squash (inr mode) =
    rw (mode, apply_squashing)
      (nobodies-nonzero (length c.aux_gids), length-replicate {A = ℕ} (length c.aux_gids) nobody)
