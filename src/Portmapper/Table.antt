-- ===== src/Portmapper/Table.antt =====
-- portmapper.go: the table of services stands for a map from program, version and protocol to the
-- port. Changes come from the program itself and from the records of the connections.
use absnfs.Prelude.{ℕ, Bool, false, ◌&&◌, List, [], ◌∷◌, nat_beq, if◌then◌else◌, arith, ◌≡◌, refl}
use absnfs.Portmapper.{PortMapping, is_for, register_service, unregister_service, get_port}

-- A registration, or its end.
pub data Change : Type 0 where
  register : ℕ → ℕ → ℕ → ℕ → Change
  unregister : ℕ → ℕ → ℕ → Change

abbrev change : Change → List PortMapping → List PortMapping
change (register prog vers prot port) ms = register_service prog vers prot port ms
change (unregister prog vers prot) ms = unregister_service prog vers prot ms

-- The last change comes first.
unfoldable pub table_after : List Change → List PortMapping
table_after [] = []
table_after (c ∷ cs) = change c (table_after cs)

-- The port of a service by its last change.
abbrev pub same : ℕ → ℕ → ℕ → ℕ → ℕ → ℕ → Bool
same a b c prog vers prot = nat_beq a prog && (nat_beq b vers && nat_beq c prot)

abbrev pub last_port : ℕ → ℕ → ℕ → List Change → ℕ
last_port prog vers prot [] = 0
last_port prog vers prot (register a b c port ∷ cs) =
    if same a b c prog vers prot then port else last_port prog vers prot cs
last_port prog vers prot (unregister a b c ∷ cs) =
    if same a b c prog vers prot then 0 else last_port prog vers prot cs

-- The service is not in the table.
abbrev Lacks : ℕ → ℕ → ℕ → List PortMapping → Type 0
Lacks prog vers prot [] = Unit
Lacks prog vers prot (m ∷ ms) = (is_for prog vers prot m ≡ false) × Lacks prog vers prot ms

-- No service stands twice.
abbrev HasOnce : List PortMapping → Type 0
HasOnce [] = Unit
HasOnce (m ∷ ms) = Lacks m.program m.version m.protocol ms × HasOnce ms

get_port-Lacks : (p v t : ℕ) (ms : List PortMapping) → Lacks p v t ms → get_port p v t ms ≡ 0
unfolding get_port
get_port-Lacks p v t [] h = refl
get_port-Lacks p v t (m ∷ ms) h = ground (arith, get_port-Lacks p v t ms)

pub get_port-register_service :
    (a b c n p v t : ℕ) (ms : List PortMapping)
    → get_port p v t (register_service a b c n ms)
      ≡ (if same a b c p v t then n else get_port p v t ms)
unfolding get_port register_service
get_port-register_service a b c n p v t [] = ground arith
get_port-register_service a b c n p v t (m ∷ ms) =
    ground (arith, get_port-register_service a b c n p v t ms)

get_port-unregister_service :
    (a b c p v t : ℕ) (ms : List PortMapping)
    → HasOnce ms
    → get_port p v t (unregister_service a b c ms)
      ≡ (if same a b c p v t then 0 else get_port p v t ms)
unfolding get_port unregister_service
get_port-unregister_service a b c p v t [] o = ground arith
get_port-unregister_service a b c p v t (m ∷ ms) o = ground (
  arith,
  get_port-unregister_service a b c p v t ms o.1,
  get_port-Lacks m.program m.version m.protocol ms o.0,
)

register_service-Lacks :
    (a b c n p v t : ℕ) (ms : List PortMapping)
    → same a b c p v t ≡ false
    → Lacks p v t ms
    → Lacks p v t (register_service a b c n ms)
unfolding register_service
register_service-Lacks a b c n p v t [] e h = ground arith
register_service-Lacks a b c n p v t (m ∷ ms) e h =
    ground (arith, register_service-Lacks a b c n p v t ms)

unregister_service-Lacks :
    (a b c p v t : ℕ) (ms : List PortMapping)
    → Lacks p v t ms
    → Lacks p v t (unregister_service a b c ms)
unfolding unregister_service
unregister_service-Lacks a b c p v t [] h = tt
unregister_service-Lacks a b c p v t (m ∷ ms) h =
    ground (arith, unregister_service-Lacks a b c p v t ms)

register_service-HasOnce :
    (a b c n : ℕ) (ms : List PortMapping) → HasOnce ms → HasOnce (register_service a b c n ms)
unfolding register_service
register_service-HasOnce a b c n [] o = ground arith
register_service-HasOnce a b c n (m ∷ ms) o = ground (
  arith,
  register_service-HasOnce a b c n ms,
  register_service-Lacks a b c n m.program m.version m.protocol ms,
)

unregister_service-HasOnce :
    (a b c : ℕ) (ms : List PortMapping) → HasOnce ms → HasOnce (unregister_service a b c ms)
unfolding unregister_service
unregister_service-HasOnce a b c [] o = tt
unregister_service-HasOnce a b c (m ∷ ms) o = ground (
  arith,
  unregister_service-HasOnce a b c ms,
  unregister_service-Lacks a b c m.program m.version m.protocol ms,
)

table_after-HasOnce : (cs : List Change) → HasOnce (table_after cs)
unfolding table_after
table_after-HasOnce [] = tt
table_after-HasOnce (register a b c n ∷ cs) =
    register_service-HasOnce a b c n (table_after cs) (table_after-HasOnce cs)
table_after-HasOnce (unregister a b c ∷ cs) =
    unregister_service-HasOnce a b c (table_after cs) (table_after-HasOnce cs)

-- After any registrations and unregistrations `GetPort` returns, for every program, version and
-- protocol, the port of the last registration of that service, and 0 if it was never registered or
-- was unregistered after that.
pub get_port-table_after :
    (prog vers prot : ℕ) (cs : List Change)
    → get_port prog vers prot (table_after cs) ≡ last_port prog vers prot cs
unfolding table_after
get_port-table_after p v t [] = get_port-Lacks p v t [] tt
get_port-table_after p v t (register a b c n ∷ cs) =
    ground (
      arith,
      get_port-register_service a b c n p v t (table_after cs),
      get_port-table_after p v t cs,
    )
get_port-table_after p v t (unregister a b c ∷ cs) = ground (
  arith,
  get_port-unregister_service a b c p v t (table_after cs) (table_after-HasOnce cs),
  get_port-table_after p v t cs,
)
