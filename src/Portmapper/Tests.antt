-- ===== src/Portmapper/Tests.antt =====
-- Tests of the portmapper.
use absnfs.Prelude.{
  ℕ, ◌+◌, ◌/◌, ◌%◌, Bool, false, Option, none, some, List, [], ◌∷◌, ◌++◌, ◌≡◌, ◌⊎◌, refl, nat_beq,
  ltb, list_beq, if◌then◌else◌, arith,
}
use absnfs.Xdr.{
  ok, encode_uint32, encode_string, decode_uint32, decode_string, read_full, padding, skip_padding,
}
use absnfs.Portmapper.{
  PortMapping, Portmapper, PortCall, Texts, read_call, registered, start_on_port, tcp, get_port,
  register_service, unregister_service, portmapper_program,
}
use absnfs.Portmapper.Handlers.{handle_portmapper_call, dispatch, handle_rpcb_set, later_version}
use absnfs.Portmapper.Table.{register, unregister, table_after, get_port-table_after}
use absnfs.Portmapper.Guard.{handle_portmapper_call-IsLaterChange}
use absnfs.Portmapper.Wire.{write_port_reply, write_call, write_mapping, handle_portmapper_call-set}

abbrev is_home : List ℕ → Bool
is_home [] = false
is_home (a ∷ ip) = nat_beq a 127

-- A number below 1000.
abbrev print_small : ℕ → List ℕ
print_small n =
    if ltb n 10
    then (48 + n) ∷ []
    else if ltb n 100
    then (48 + n / 10) ∷ (48 + n % 10) ∷ []
    else (48 + n / 100) ∷ (48 + n / 10 % 10) ∷ (48 + n % 10) ∷ []

-- "0.0.0.0.8.1".
abbrev nfs_address : List ℕ
nfs_address = 48 ∷ 46 ∷ 48 ∷ 46 ∷ 48 ∷ 46 ∷ 48 ∷ 46 ∷ 56 ∷ 46 ∷ 49 ∷ []

abbrev texts : Texts (List ℕ)
texts = record {
  ip_of = some;
  is_loopback = is_home;
  print = print_small;
  scan = λ s. if list_beq s nfs_address then some (8, 1) else none;
}

abbrev far : Option (List ℕ)
far = some (10 ∷ 0 ∷ 0 ∷ 9 ∷ [])

abbrev near : Option (List ℕ)
near = some (127 ∷ 0 ∷ 0 ∷ 1 ∷ [])

abbrev empty : Portmapper
empty = record { mappings = []; listen_addr = [] }

abbrev nfs_service : PortMapping
nfs_service = record { program = 100003; version = 3; protocol = 6; port = 2049 }

abbrev question : PortMapping
question = record nfs_service { port = 0 }

abbrev with_nfs : Portmapper
with_nfs = registered 100003 3 6 2049 empty

get_port-table_after_example :
    get_port 100003 3 6 (
      table_after (register 100003 3 6 2049 ∷ unregister 100003 3 6 ∷ register 100003 3 6 111 ∷ []))
    ≡ 2049
get_port-table_after_example =
    get_port-table_after 100003 3 6
      (register 100003 3 6 2049 ∷ unregister 100003 3 6 ∷ register 100003 3 6 111 ∷ [])

handle_portmapper_call-IsLaterChange_example :
    ((handle_portmapper_call texts far (write_call 7 1 (write_mapping nfs_service)) empty).1
      ≡ empty)
    ⊎ ((c : PortCall) × (rest : List ℕ) × (read_call (write_call 7 1 (write_mapping nfs_service))
          ≡ (ok c, rest))
        × ((c.program ≡ portmapper_program)
            × ((c.version ≡ 3) ⊎ (c.version ≡ 4))
            × ((c.procedure ≡ 1) ⊎ (c.procedure ≡ 2))))
handle_portmapper_call-IsLaterChange_example =
    handle_portmapper_call-IsLaterChange texts far empty
      (write_call 7 1 (write_mapping nfs_service)) refl

handle_portmapper_call-set_example :
    (handle_portmapper_call texts far
      (write_call 8 3 (write_mapping question))
      (handle_portmapper_call texts near (write_call 7 1 (write_mapping nfs_service)) empty).1).0
    ≡ some (write_port_reply 8 2049)
handle_portmapper_call-set_example =
    handle_portmapper_call-set texts near far empty 7 8 nfs_service question refl (omega arith)
      (omega arith)
      (record {
        program_word = omega arith;
        version_word = omega arith;
        protocol_word = omega arith;
        port_word = omega arith;
      })
      (record {
        program_word = omega arith;
        version_word = omega arith;
        protocol_word = omega arith;
        port_word = omega arith;
      })

-- The second registration changes the port.
register_twice :
    register_service 100003 3 6 4711 with_nfs.mappings ≡ (record nfs_service { port = 4711 }) ∷ []
unfolding register_service
register_twice = refl

unregister_all : unregister_service 100003 3 6 with_nfs.mappings ≡ []
unfolding register_service unregister_service
unregister_all = refl

-- It answers for its own version 4, and not for version 5.
ports_of_start :
    (get_port 100000 4 17 (start_on_port 111 empty).mappings ≡ 111)
    × (get_port 100000 5 17 (start_on_port 111 empty).mappings ≡ 0)
unfolding start_on_port register_service get_port
ports_of_start = (refl, refl)

-- A set of version 3 from afar.
set_from_afar :
    (dispatch texts far
      (record { xid = 7; program = 100000; version = 3; procedure = 1 })
      empty
      (encode_uint32 100003
        ++ (encode_uint32 3 ++ (encode_string tcp ++ encode_string nfs_address)))).1
    ≡ with_nfs
unfolding dispatch later_version handle_rpcb_set register_service encode_uint32 encode_string
    decode_uint32 decode_string read_full padding skip_padding
set_from_afar = refl
