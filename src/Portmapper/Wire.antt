-- ===== src/Portmapper/Wire.antt =====
-- portmapper.go: what a call of SET does for a later call of GETPORT, by the bytes of the calls.
use absnfs.Prelude.{
  ℕ, ◌^◌, ◌<◌, true, false, Option, some, List, [], ◌++◌, ◌≡◌, arith, if◌then◌else◌,
}
use absnfs.Xdr.{ok, encode_uint32, decode-encode_uint32}
use absnfs.Portmapper.{
  PortMapping, Portmapper, Texts, skip_auth, read_call, read_mapping, make_reply, is_foreign,
  get_port, registered, encode_bool,
}
use absnfs.Portmapper.Handlers.{
  handle_set, handle_get_port, version_two, dispatch, answer_call, handle_portmapper_call,
}
use absnfs.Portmapper.Table.{same, get_port-register_service}

-- A call of version 2 without credentials, as a client writes it.
abbrev pub write_call : ℕ → ℕ → List ℕ → List ℕ
write_call xid procedure body =
    encode_uint32 xid
    ++ (encode_uint32 0
        ++ (encode_uint32 2
            ++ (encode_uint32 100000
                ++ (encode_uint32 2
                    ++ (encode_uint32 procedure
                        ++ (encode_uint32 0
                            ++ (encode_uint32 0
                                ++ (encode_uint32 0 ++ (encode_uint32 0 ++ body)))))))))

abbrev pub write_mapping : PortMapping → List ℕ
write_mapping m =
    encode_uint32 m.program
    ++ (encode_uint32 m.version ++ (encode_uint32 m.protocol ++ (encode_uint32 m.port ++ [])))

pub record HasWords (m : PortMapping) : Type 0 where
  pub program_word : m.program < 2 ^ 32
  pub version_word : m.version < 2 ^ 32
  pub protocol_word : m.protocol < 2 ^ 32
  pub port_word : m.port < 2 ^ 32

read_mapping-write_mapping :
    (m : PortMapping) → HasWords m → read_mapping (write_mapping m) ≡ (ok m, [])
read_mapping-write_mapping m w = rw (
  decode-encode_uint32 m.program
      (encode_uint32 m.version ++ (encode_uint32 m.protocol ++ (encode_uint32 m.port ++ [])))
      w.program_word,
  decode-encode_uint32 m.version (encode_uint32 m.protocol ++ (encode_uint32 m.port ++ []))
      w.version_word,
  decode-encode_uint32 m.protocol (encode_uint32 m.port ++ []) w.protocol_word,
  decode-encode_uint32 m.port [] w.port_word,
)

abbrev zeros : List ℕ → List ℕ
zeros body = encode_uint32 0 ++ (encode_uint32 0 ++ (encode_uint32 0 ++ (encode_uint32 0 ++ body)))

skip_auth_empty :
    (body : List ℕ) → skip_auth (encode_uint32 0 ++ (encode_uint32 0 ++ body)) ≡ (ok tt, body)
skip_auth_empty body = rw (
  decode-encode_uint32 0 (encode_uint32 0 ++ body) (omega arith),
  decode-encode_uint32 0 body (omega arith),
)

read_call-write_call :
    (xid procedure : ℕ) (body : List ℕ)
    → xid < 2 ^ 32
    → procedure < 2 ^ 32
    → read_call (write_call xid procedure body)
      ≡ (ok (record { xid = xid; program = 100000; version = 2; procedure = procedure }), body)
unfolding read_call
read_call-write_call x p body hx hp =
    let s₄ : List ℕ = encode_uint32 p ++ zeros body in
    let s₃ : List ℕ = encode_uint32 2 ++ s₄ in
    let s₂ : List ℕ = encode_uint32 100000 ++ s₃ in
    let s₁ : List ℕ = encode_uint32 2 ++ s₂ in
    rw (
      decode-encode_uint32 x (encode_uint32 0 ++ s₁) hx,
      decode-encode_uint32 0 s₁ (omega arith),
      decode-encode_uint32 2 s₂ (omega arith),
      decode-encode_uint32 100000 s₃ (omega arith),
      decode-encode_uint32 2 s₄ (omega arith),
      decode-encode_uint32 p (zeros body) hp,
      skip_auth_empty (encode_uint32 0 ++ (encode_uint32 0 ++ body)),
      skip_auth_empty body,
    )

module _ {R : Type 0} (t : Texts R) (peer : Option R) (pm : Portmapper) (xid : ℕ) where
  handle_set-write_mapping :
      is_foreign t peer ≡ false
      → (m : PortMapping) → HasWords m
      → handle_set t peer pm (write_mapping m)
        ≡ (encode_bool true, registered m.program m.version m.protocol m.port pm)
  unfolding handle_set
  handle_set-write_mapping f m w = rw (f, read_mapping-write_mapping m w)

  set_call :
      is_foreign t peer ≡ false
      → xid < 2 ^ 32
      → (m : PortMapping) → HasWords m
      → handle_portmapper_call t peer (write_call xid 1 (write_mapping m)) pm ≡ (
        some (make_reply xid 0 (encode_bool true)),
        registered m.program m.version m.protocol m.port pm,
      )
  unfolding handle_portmapper_call answer_call dispatch version_two
  set_call f hx m w = rw (
    read_call-write_call xid 1 (write_mapping m) hx (omega arith),
    handle_set-write_mapping f m w,
  )

  get_call :
      xid < 2 ^ 32
      → (m : PortMapping) → HasWords m
      → handle_portmapper_call t peer (write_call xid 3 (write_mapping m)) pm ≡ (
        some (
            make_reply xid 0 (encode_uint32 (get_port m.program m.version m.protocol pm.mappings))),
        pm,
      )
  unfolding handle_portmapper_call answer_call dispatch version_two handle_get_port
  get_call hx m w = rw (
    read_call-write_call xid 3 (write_mapping m) hx (omega arith),
    read_mapping-write_mapping m w,
  )

-- RFC 1831, the accepted reply of a call that succeeded, with an empty verifier, and RFC 1833, the
-- port that is its result.
abbrev pub write_port_reply : ℕ → ℕ → List ℕ
write_port_reply xid port =
    encode_uint32 xid
    ++ (encode_uint32 1
        ++ (encode_uint32 0
            ++ (encode_uint32 0 ++ (encode_uint32 0 ++ (encode_uint32 0 ++ encode_uint32 port)))))

-- For words below 2^32: after a record with a SET call of version 2, without credentials, from a
-- peer without an address that can be parsed and is not loopback, a record with a GETPORT call from
-- any peer is answered by the bytes of an RPC reply to its xid that is accepted with success, has an
-- empty verifier and holds the port of the SET if both name the same program, version and protocol,
-- and else the port that the table had for the service asked for.
pub handle_portmapper_call-set :
    {R : Type 0} (t : Texts R) (peer asker : Option R) (pm : Portmapper) (x y : ℕ)
    (m q : PortMapping)
    → is_foreign t peer ≡ false
    → x < 2 ^ 32
    → y < 2 ^ 32
    → HasWords m
    → HasWords q
    → (handle_portmapper_call t asker
        (write_call y 3 (write_mapping q))
        (handle_portmapper_call t peer (write_call x 1 (write_mapping m)) pm).1).0
      ≡ some (
          write_port_reply y (
            if same m.program m.version m.protocol q.program q.version q.protocol
            then m.port
            else get_port q.program q.version q.protocol pm.mappings))
unfolding make_reply
handle_portmapper_call-set t peer asker pm x y m q f hx hy wm wq = rw (
  set_call t peer pm x f hx m wm,
  get_call t asker (registered m.program m.version m.protocol m.port pm) y hy q wq,
  get_port-register_service m.program m.version m.protocol m.port q.program q.version q.protocol
      pm.mappings,
)
