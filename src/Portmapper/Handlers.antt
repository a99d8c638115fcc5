-- ===== src/Portmapper/Handlers.antt =====
-- portmapper.go: the procedures of the versions 2, 3 and 4, and `handleCall`. Versions 3 and 4
-- share one set of procedures.
use absnfs.Prelude.{
  ℕ, ◌+◌, ◌*◌, ◌%◌, ◌^◌, true, false, ◌||◌, not, Option, none, some, List, [], ◌∷◌, ◌++◌, ltb,
  nat_beq, list_beq, if◌then◌else◌,
}
use absnfs.Xdr.{
  Result, ok, err, Decoder, pure, ◌>>=◌, decode_uint32, encode_uint32, decode_string, encode_string,
}
use absnfs.Rpc.{prog_unavail, proc_unavail, msg_accepted, prog_mismatch}
use absnfs.Portmapper.{
  PortMapping, Portmapper, PortCall, Texts, portmapper_program, ipproto_tcp, ipproto_udp, get_port,
  registered, unregistered, read_mapping, read_call, or_else, encode_bool, make_reply, is_foreign,
  universal_address, own_address, tcp, udp, of_six, superuser, is_name_of,
}

-- A reply, and the portmapper after it.
abbrev pub Replied : Type 0
Replied = List ℕ × Portmapper

pub record ServiceName : Type 0 where
  pub program : ℕ
  pub version : ℕ
  pub netid : List ℕ

-- In UNSET and GETADDR what follows the name is read, and its errors are ignored.
abbrev pub read_name : Decoder ServiceName
read_name = do
  prog ← decode_uint32
  vers ← decode_uint32
  netid ← decode_string
  pure (record { program = prog; version = vers; netid = netid })

-- The name, and the address behind it. The owner that follows is not used.
abbrev pub read_address : Decoder (ServiceName × List ℕ)
read_address = do name ← read_name; uaddr ← decode_string; pure (name, uaddr)

-- SET and UNSET take every other name for TCP.
abbrev pub protocol_of : List ℕ → ℕ
protocol_of netid = if is_name_of udp netid then ipproto_udp else ipproto_tcp

-- GETADDR takes every other name for UDP.
abbrev pub asked_protocol : List ℕ → ℕ
asked_protocol netid = if is_name_of tcp netid then ipproto_tcp else ipproto_udp

unfoldable pub encode_mappings : List PortMapping → List ℕ
encode_mappings [] = encode_uint32 0
encode_mappings (m ∷ ms) =
    encode_uint32 1
    ++ (encode_uint32 m.program
        ++ (encode_uint32 m.version
            ++ (encode_uint32 m.protocol ++ (encode_uint32 m.port ++ encode_mappings ms))))

unfoldable pub handle_get_port : Portmapper → List ℕ → List ℕ
handle_get_port pm body =
    or_else (read_mapping body) (encode_uint32 0)
      (λ m. encode_uint32 (get_port m.program m.version m.protocol pm.mappings))

unfoldable pub handle_dump : Portmapper → List ℕ
handle_dump pm = encode_mappings pm.mappings

-- "::1." before the port for the names in six, else the address.
abbrev six_address : List ℕ
six_address = 58 ∷ 58 ∷ 49 ∷ []

abbrev pub reply_with : ℕ → Portmapper → Option Replied → Replied
reply_with xid pm none = (make_reply xid proc_unavail [], pm)
reply_with xid pm (some (bytes, pm')) = (make_reply xid msg_accepted bytes, pm')

module _ {R : Type 0} (t : Texts R) where
  unfoldable pub handle_set : Option R → Portmapper → List ℕ → Replied
  handle_set peer pm body =
      if is_foreign t peer
      then (encode_bool false, pm)
      else or_else (read_mapping body) (encode_bool false, pm)
          (λ m. (encode_bool true, registered m.program m.version m.protocol m.port pm))

  unfoldable pub handle_unset : Option R → Portmapper → List ℕ → Replied
  handle_unset peer pm body =
      if is_foreign t peer
      then (encode_bool false, pm)
      else or_else (read_mapping body) (encode_bool false, pm)
          (λ m. (encode_bool true, unregistered m.program m.version m.protocol pm))

  abbrev address_of : Portmapper → List ℕ → ℕ → List ℕ
  address_of pm netid port =
      if ltb 0 port
      then universal_address t
          (if list_beq netid (of_six tcp) || list_beq netid (of_six udp)
            then six_address
            else own_address pm)
          port
      else []

  unfoldable pub handle_get_addr : Portmapper → List ℕ → List ℕ
  handle_get_addr pm body = or_else (read_name body) (encode_string []) (λ n.
      encode_string
        (address_of pm n.netid (get_port n.program n.version (asked_protocol n.netid) pm.mappings)))

  -- `uint32(hi*256 + lo)`, or 0 where the address is not one.
  abbrev pub port_of : List ℕ → ℕ
  port_of uaddr = elim (t.scan uaddr) [ none ↦ 0 | some w ↦ (w.0 * 256 + w.1) % 2 ^ 32 ]

  abbrev named_port : List ℕ → ℕ
  named_port [] = 0
  named_port (c ∷ cs) = port_of (c ∷ cs)

  unfoldable pub handle_rpcb_set : Portmapper → List ℕ → Replied
  handle_rpcb_set pm body =
      or_else (read_address body) (encode_bool false, pm)
        (λ a.
          let port = named_port a.1 in
          (
            encode_bool true,
            if ltb 0 port
                then registered a.0.program a.0.version (protocol_of a.0.netid) port pm
                else pm,
          ))

  unfoldable pub handle_rpcb_unset : Portmapper → List ℕ → Replied
  handle_rpcb_unset pm body =
      or_else (read_name body) (encode_bool false, pm)
        (λ n. (encode_bool true, unregistered n.program n.version (protocol_of n.netid) pm))

  unfoldable pub encode_services : List ℕ → List PortMapping → List ℕ
  encode_services addr [] = encode_uint32 0
  encode_services addr (m ∷ ms) =
      encode_uint32 1
      ++ (encode_uint32 m.program
          ++ (encode_uint32 m.version
              ++ (encode_string (if nat_beq m.protocol ipproto_tcp then tcp else udp)
                  ++ (encode_string (universal_address t addr m.port)
                      ++ (encode_string superuser ++ encode_services addr ms)))))

  unfoldable pub handle_rpcb_dump : Portmapper → List ℕ
  handle_rpcb_dump pm = encode_services (own_address pm) pm.mappings

  -- The procedures by their numbers, or none.
  unfoldable pub version_two : Option R → ℕ → Portmapper → List ℕ → Option Replied
  version_two peer procedure pm body =
      if nat_beq procedure 0
      then some ([], pm)
      else if nat_beq procedure 1
      then some (handle_set peer pm body)
      else if nat_beq procedure 2
      then some (handle_unset peer pm body)
      else if nat_beq procedure 3
      then some (handle_get_port pm body, pm)
      else if nat_beq procedure 4
      then some (handle_dump pm, pm)
      else none

  unfoldable pub later_version : ℕ → Portmapper → List ℕ → Option Replied
  later_version procedure pm body =
      if nat_beq procedure 0
      then some ([], pm)
      else if nat_beq procedure 1
      then some (handle_rpcb_set pm body)
      else if nat_beq procedure 2
      then some (handle_rpcb_unset pm body)
      else if nat_beq procedure 3
      then some (handle_get_addr pm body, pm)
      else if nat_beq procedure 4
      then some (handle_rpcb_dump pm, pm)
      else none

  unfoldable pub dispatch : Option R → PortCall → Portmapper → List ℕ → Replied
  dispatch peer c pm body =
      if not (nat_beq c.program portmapper_program)
      then (make_reply c.xid prog_unavail [], pm)
      else if not (nat_beq c.version 2 || nat_beq c.version 3 || nat_beq c.version 4)
      then (make_reply c.xid prog_mismatch [], pm)
      else if nat_beq c.version 2
      then reply_with c.xid pm (version_two peer c.procedure pm body)
      else reply_with c.xid pm (later_version c.procedure pm body)

  -- No reply is the error of a call that cannot be read: the connection goes on.
  unfoldable pub answer_call :
      Option R → Result PortCall × List ℕ → Portmapper → Option (List ℕ) × Portmapper
  answer_call peer (err e, body) pm = (none, pm)
  answer_call peer (ok c, body) pm = let r = dispatch peer c pm body in (some r.0, r.1)

  unfoldable pub handle_portmapper_call :
      Option R → List ℕ → Portmapper → Option (List ℕ) × Portmapper
  handle_portmapper_call peer bytes pm = answer_call peer (read_call bytes) pm
