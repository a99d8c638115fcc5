-- ===== src/Portmapper/Guard.antt =====
-- portmapper.go: what a peer that is not on this host can change.
use absnfs.Prelude.{ℕ, true, Option, List, ◌≡◌, refl, ◌⊎◌, inl, inr, arith}
use absnfs.Xdr.{Result, ok, err}
use absnfs.Portmapper.{PortCall, Portmapper, Texts, read_call, is_foreign, portmapper_program}
use absnfs.Portmapper.Handlers.{
  reply_with, handle_set, handle_unset, version_two, later_version, dispatch, answer_call,
  handle_portmapper_call,
}

-- A call of SET or UNSET of version 3 or 4.
abbrev IsLaterChange : PortCall → Type 0
IsLaterChange c =
    (c.program ≡ portmapper_program)
    × ((c.version ≡ 3) ⊎ (c.version ≡ 4))
    × ((c.procedure ≡ 1) ⊎ (c.procedure ≡ 2))

module _ {R : Type 0} (t : Texts R) (peer : Option R) (pm : Portmapper) where
  version_two_foreign :
      is_foreign t peer ≡ true
      → (c : PortCall) (body : List ℕ)
      → (reply_with c.xid pm (version_two t peer c.procedure pm body)).1 ≡ pm
  unfolding version_two handle_set handle_unset
  version_two_foreign f c body = ground (arith, f)

  later_version_changes :
      (c : PortCall) (body : List ℕ)
      → ((reply_with c.xid pm (later_version t c.procedure pm body)).1 ≡ pm)
        ⊎ ((c.procedure ≡ 1) ⊎ (c.procedure ≡ 2))
  unfolding later_version
  later_version_changes c body = ground arith

  -- `pm` stays, or the call is such a change.
  dispatch_foreign :
      is_foreign t peer ≡ true
      → (c : PortCall) (body : List ℕ) → ((dispatch t peer c pm body).1 ≡ pm) ⊎ IsLaterChange c
  unfolding dispatch
  dispatch_foreign f c body =
      ground (arith, version_two_foreign f c body, later_version_changes c body)

  answer_foreign :
      is_foreign t peer ≡ true
      → (r : Result PortCall × List ℕ)
      → ((answer_call t peer r pm).1 ≡ pm)
        ⊎ ((c : PortCall) × (rest : List ℕ) × (r ≡ (ok c, rest)) × IsLaterChange c)
  unfolding answer_call
  answer_foreign f (err e, rest) = inl refl
  answer_foreign f (ok c, rest) = elim (dispatch_foreign f c rest) [
    | inl same ↦ inl same
    | inr later ↦ inr (c, rest, refl, later)
  ]

-- Whatever record arrives from a peer whose host `net.ParseIP` reads as an address that is not a
-- loopback address (it does not read an address with a zone, as in fe80::1%eth0, and the code then
-- treats the peer as local), the portmapper afterwards is the one before it, or the record is a
-- call of SET or UNSET of version 3 or 4 of the portmapper's program.
pub handle_portmapper_call-IsLaterChange :
    {R : Type 0} (t : Texts R) (peer : Option R) (pm : Portmapper) (bytes : List ℕ)
    → is_foreign t peer ≡ true
    → ((handle_portmapper_call t peer bytes pm).1 ≡ pm)
      ⊎ ((c : PortCall) × (rest : List ℕ) × (read_call bytes ≡ (ok c, rest)) × IsLaterChange c)
unfolding handle_portmapper_call
handle_portmapper_call-IsLaterChange t peer pm bytes f =
    answer_foreign t peer pm f (read_call bytes)
