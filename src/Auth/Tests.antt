-- ===== src/Auth/Tests.antt =====
-- A client, a policy and small parsers, on which the theorems on access are tried.
use absnfs.Prelude.{
  ℕ, ◌≡◌, ◌≢◌, refl, true, ◌&&◌, Option, none, some, List, [], ◌∷◌, ◌++◌, ◌==◌, bytes_eq,
  if◌then◌else◌,
}
use absnfs.Prelude.Int.{pos}
use absnfs.Rpc.{AuthSysCredential}
use absnfs.Auth.Ip.{Subnet, mapped_prefix}
use absnfs.Auth.{AuthContext, PolicyOptions, all_mode, validate_authentication}
use absnfs.Auth.Access.{serves, ip_passes, port_passes, validate_authentication-allowed}
use absnfs.Auth.Squash.{validate_authentication-root}

-- The texts of one address in its two forms.
abbrev short : List ℕ
short = b'1' ∷ []

abbrev long : List ℕ
long = b':' ∷ b'1' ∷ []

abbrev address : List ℕ
address = 10 ∷ 0 ∷ 0 ∷ 1 ∷ []

abbrev parse_ip : List ℕ → Option (List ℕ)
parse_ip s =
    if s == short then some address else if s == long then some (mapped_prefix ++ address) else none

abbrev parse_cidr : List ℕ → Option Subnet
parse_cidr s = none

abbrev credential : AuthSysCredential
credential = record { stamp = 1; machine_name = []; uid = 0; gid = 0; aux_gids = 0 ∷ 24 ∷ [] }

abbrev client : AuthContext
client = record {
  client_ip = long;
  client_port = pos 700;
  credential = record { flavor = 1; body = [] };
  parsed = some credential;
}

-- `Root`.
abbrev mixed_case : List ℕ
mixed_case = b'R' ∷ b'o' ∷ b'o' ∷ b't' ∷ []

abbrev root_policy : PolicyOptions
root_policy = record { secure = true; allowed_ips = short ∷ []; squash = mixed_case }

abbrev all_policy : PolicyOptions
all_policy = record { secure = true; allowed_ips = short ∷ []; squash = all_mode }

validate_authentication-allowed_example :
    (validate_authentication parse_ip parse_cidr client root_policy).0.allowed ≡ (
      ip_passes parse_ip parse_cidr client root_policy
      && (port_passes parse_ip parse_cidr client root_policy && serves client))
validate_authentication-allowed_example =
    validate_authentication-allowed parse_ip parse_cidr client root_policy

validate_authentication-root_example :
    ((validate_authentication parse_ip parse_cidr client root_policy).0.uid ≢ 0)
    × ((validate_authentication parse_ip parse_cidr client root_policy).0.gid ≢ 0)
validate_authentication-root_example =
    validate_authentication-root parse_ip parse_cidr client root_policy refl
