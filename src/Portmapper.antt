-- ===== src/Portmapper.antt =====
-- portmapper.go: the table of services, `handleCall` and its procedures. The text functions of Go
-- are parameters. The buffers of the replies do not fail. The listener and its connections, with
-- their limit and their deadlines, are not here: a record that arrives is a step.
pub mod Handlers
pub mod Table
pub mod Guard
pub mod Wire
pub mod Tests
use absnfs.Prelude.{
  ℕ, ◌+◌, ◌*◌, ◌/◌, ◌%◌, ◌^◌, Bool, true, false, ◌&&◌, ◌||◌, not, Option, none, some, List, [], ◌∷◌,
  ◌++◌, ltb, leb, nat_beq, list_beq, if◌then◌else◌,
}
use absnfs.Xdr.{
  Result, ok, err, Decoder, pure, guard, ◌>>=◌, ◌>>◌, not_call, too_long, read_full, decode_uint32,
  encode_uint32, padding, decode_string, encode_string,
}
use absnfs.Rpc.{rpc_call, rpc_reply, max_rpc_auth_length, msg_accepted}

abbrev pub portmapper_program : ℕ
portmapper_program = 100000

abbrev pub ipproto_tcp : ℕ
ipproto_tcp = 6

abbrev pub ipproto_udp : ℕ
ipproto_udp = 17

pub record PortMapping : Type 0 where
  pub program : ℕ
  pub version : ℕ
  pub protocol : ℕ
  pub port : ℕ

pub record Portmapper : Type 0 where
  pub mappings : List PortMapping
  pub listen_addr : List ℕ

-- The condition of the three loops over the table.
abbrev pub is_for : ℕ → ℕ → ℕ → PortMapping → Bool
is_for prog vers prot m =
    nat_beq m.program prog && (nat_beq m.version vers && nat_beq m.protocol prot)

unfoldable pub register_service : ℕ → ℕ → ℕ → ℕ → List PortMapping → List PortMapping
register_service prog vers prot port [] =
    (record { program = prog; version = vers; protocol = prot; port = port }) ∷ []
register_service prog vers prot port (m ∷ ms) =
    let rest = register_service prog vers prot port ms in
    if is_for prog vers prot m then record m { port = port } ∷ ms else m ∷ rest

unfoldable pub unregister_service : ℕ → ℕ → ℕ → List PortMapping → List PortMapping
unregister_service prog vers prot [] = []
unregister_service prog vers prot (m ∷ ms) =
    let rest = unregister_service prog vers prot ms in
    if is_for prog vers prot m then ms else m ∷ rest

unfoldable pub get_port : ℕ → ℕ → ℕ → List PortMapping → ℕ
get_port prog vers prot [] = 0
get_port prog vers prot (m ∷ ms) =
    let rest = get_port prog vers prot ms in if is_for prog vers prot m then m.port else rest

abbrev pub registered : ℕ → ℕ → ℕ → ℕ → Portmapper → Portmapper
registered prog vers prot port pm = record pm {
  mappings = register_service prog vers prot port pm.mappings;
}

abbrev pub unregistered : ℕ → ℕ → ℕ → Portmapper → Portmapper
unregistered prog vers prot pm = record pm {
  mappings = unregister_service prog vers prot pm.mappings;
}

-- `StartOnPort`, once it listens.
unfoldable pub start_on_port : ℕ → Portmapper → Portmapper
start_on_port port pm =
    let p = port % 2 ^ 32 in
    let two =
      registered portmapper_program 2 ipproto_udp p
        (registered portmapper_program 2 ipproto_tcp p pm) in
    let three =
      registered portmapper_program 3 ipproto_udp p
        (registered portmapper_program 3 ipproto_tcp p two) in
    registered portmapper_program 4 ipproto_udp p
      (registered portmapper_program 4 ipproto_tcp p three)

abbrev pub skip_body : ℕ → Decoder (Unit {0})
skip_body n = do
  read_full n
  if ltb 0 (padding n) then (do read_full (padding n); pure tt) else pure tt

abbrev pub skip_auth : Decoder (Unit {0})
skip_auth = do
  flavor ← decode_uint32
  n ← decode_uint32
  guard (leb n max_rpc_auth_length) too_long
  if ltb 0 n then skip_body n else pure tt

pub record PortCall : Type 0 where
  pub xid : ℕ
  pub program : ℕ
  pub version : ℕ
  pub procedure : ℕ

-- What `handleCall` reads before it looks at the program. It does not look at the RPC version.
unfoldable pub read_call : Decoder PortCall
read_call = do
  xid ← decode_uint32
  msg_type ← decode_uint32
  guard (nat_beq msg_type rpc_call) not_call
  rpc_version ← decode_uint32
  program ← decode_uint32
  version ← decode_uint32
  procedure ← decode_uint32
  skip_auth
  skip_auth
  pure (record { xid = xid; program = program; version = version; procedure = procedure })

abbrev pub read_mapping : Decoder PortMapping
read_mapping = do
  prog ← decode_uint32
  vers ← decode_uint32
  prot ← decode_uint32
  port ← decode_uint32
  pure (record { program = prog; version = vers; protocol = prot; port = port })

-- The reply to arguments that cannot be read, or what to do with them.
abbrev pub or_else {ℓ} : {A : Type 0} {B : Type ℓ} → Result A × List ℕ → B → (A → B) → B
or_else (ok a, s) z f = f a
or_else (err e, s) z f = z

abbrev pub encode_bool : Bool → List ℕ
encode_bool b = encode_uint32 (if b then 1 else 0)

-- The reply of `makeReply`: with `msg_accepted` it is that of a success.
unfoldable pub make_reply : ℕ → ℕ → List ℕ → List ℕ
make_reply xid status bytes =
    encode_uint32 xid
    ++ (encode_uint32 rpc_reply
        ++ (encode_uint32 msg_accepted
            ++ (encode_uint32 0
                ++ (encode_uint32 0
                    ++ (if nat_beq status msg_accepted
                        then encode_uint32 0 ++ bytes
                        else encode_uint32 status)))))

-- The functions of Go on addresses and text: the address of a peer as `net.ParseIP` reads it from
-- the host, `IsLoopback`, `%d`, and the last two of the six numbers that `fmt.Sscanf` reads, as the
-- words of two's complement.
pub record Texts (R : Type 0) : Type 0 where
  pub ip_of : R → Option (List ℕ)
  pub is_loopback : List ℕ → Bool
  pub print : ℕ → List ℕ
  pub scan : List ℕ → Option (ℕ × ℕ)

module _ {R : Type 0} (t : Texts R) where
  -- The guard of `handleSet` and `handleUnset`; no peer is a nil address.
  abbrev pub is_foreign : Option R → Bool
  is_foreign none = false
  is_foreign (some r) = elim (t.ip_of r) [ none ↦ false | some ip ↦ not (t.is_loopback ip) ]

  -- `%s.%d.%d`.
  abbrev pub universal_address : List ℕ → ℕ → List ℕ
  universal_address addr port = addr ++ (46 ∷ (t.print (port / 256) ++ (46 ∷ t.print (port % 256))))

-- "0.0.0.0" where no address is set.
abbrev pub own_address : Portmapper → List ℕ
own_address pm = elim pm.listen_addr [
  | [] ↦ 48 ∷ 46 ∷ 48 ∷ 46 ∷ 48 ∷ 46 ∷ 48 ∷ []
  | c ∷ cs ↦ c ∷ cs
]

abbrev pub tcp : List ℕ
tcp = 116 ∷ 99 ∷ 112 ∷ []

abbrev pub udp : List ℕ
udp = 117 ∷ 100 ∷ 112 ∷ []

-- "tcp6" and "udp6".
abbrev pub of_six : List ℕ → List ℕ
of_six s = s ++ (54 ∷ [])

abbrev pub superuser : List ℕ
superuser = 115 ∷ 117 ∷ 112 ∷ 101 ∷ 114 ∷ 117 ∷ 115 ∷ 101 ∷ 114 ∷ []

abbrev pub is_name_of : List ℕ → List ℕ → Bool
is_name_of s netid = list_beq netid s || list_beq netid (of_six s)
