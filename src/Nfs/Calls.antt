-- ===== src/Nfs/Calls.antt =====
-- nfs_handlers.go: what holds of HandleCall, and of a sequence of calls.
use absnfs.Prelude.{ℕ, Bool, true, ◌≡◌, refl, Option, List, [], ◌∷◌, Bool-cases, inl, inr}
use absnfs.Auth.{AuthContext, PolicyOptions, validate_authentication}
use absnfs.Auth.Ip.{Subnet}
use absnfs.Rpc.{RpcCall}
use absnfs.Ops.{FileSystem, Outside, Server}
use absnfs.Ops.Requests.Valid.{HasValidCaches, caches-IsRobust}
use absnfs.Ops.Requests.ReadOnly.{IsFrozen}
use absnfs.Nfs.{Caller, Exchange}
use absnfs.Nfs.Dispatch.{Timing, handle_program, serve_call, handle_call}
use absnfs.Nfs.Keeps.{Keeps, IsGood}
use absnfs.Nfs.Keeps.Calls.{handle-Keeps, handle_program-Keeps}
use absnfs.Nfs.Keeps.Frozen.{handle_program-IsFrozen}

-- A call as it comes in.
pub record Arrival : Type 0 where
  pub call : RpcCall
  pub body : List ℕ
  pub context : AuthContext
  pub timing : Timing
  pub admitted : Bool

module _ (parse_ip : List ℕ → Option (List ℕ)) (parse_cidr : List ℕ → Option Subnet) {F H : Type 0}
    (fs : FileSystem F H) (o : Outside) (verf : List ℕ) (policy : PolicyOptions) where
  unfoldable pub receive : Arrival → Exchange F → Exchange F
  receive a x =
      (handle_call parse_ip parse_cidr fs o verf policy a.call a.timing a.context a.admitted
        (record x { body = a.body })).1

  unfoldable pub receive_all : List Arrival → Exchange F → Exchange F
  receive_all [] x = x
  receive_all (a ∷ l) x = receive_all l (receive a x)

  module _ (J : Server F → Type 0) (slack : ℕ) where
    serve_call-IsGood :
        (call : RpcCall) (t : Timing) (c : Caller) (x : Exchange F)
        → Keeps J (handle_program fs o verf call c)
        → IsGood J slack x
        → IsGood J slack (serve_call parse_ip parse_cidr fs o verf policy call t c x).1
    unfolding serve_call
    serve_call-IsGood call t c x k h = elim (Bool-cases t.late_start) [
      | inl late ↦ rw late h
      | inr early ↦ rw early (k.keep slack x h)
    ]

    handle_call-IsGood :
        (call : RpcCall) (t : Timing) (ctx : AuthContext) (admitted : Bool) (x : Exchange F)
        → ((c : Caller) → Keeps J (handle_program fs o verf call c))
        → IsGood J slack x
        → IsGood J slack (handle_call parse_ip parse_cidr fs o verf policy call t ctx admitted x).1
    unfolding handle_call
    handle_call-IsGood call t ctx admitted x k h = elim (Bool-cases t.draining) [
      | inl busy ↦ rw busy h
      | inr idle ↦
          elim (Bool-cases (validate_authentication parse_ip parse_cidr ctx policy).0.allowed) [
            | inl good ↦ rw (idle, good) (serve_call-IsGood call _ _ x (k _) h)
            | inr bad ↦ rw (idle, bad) h
          ]
    ]

    receive-IsGood :
        ((call : RpcCall) (c : Caller) → Keeps J (handle_program fs o verf call c))
        → (a : Arrival) (x : Exchange F) → IsGood J slack x
        → IsGood J slack (receive a x)
    unfolding receive
    receive-IsGood k a x h =
        handle_call-IsGood a.call a.timing a.context a.admitted (record x { body = a.body })
          (k a.call) (record { served = h.served; ample = h.ample })

    receive_all-IsGood :
        ((call : RpcCall) (c : Caller) → Keeps J (handle_program fs o verf call c))
        → (l : List Arrival) (x : Exchange F) → IsGood J slack x
        → IsGood J slack (receive_all l x)
    unfolding receive_all
    receive_all-IsGood k [] x h = h
    receive_all-IsGood k (a ∷ l) x h = receive_all-IsGood k l (receive a x) (receive-IsGood k a x h)

  -- Whatever calls come in, of whatever bytes, and whatever the file system and the clock answer:
  -- from valid caches, and valid handles whose counter is accounted for, all calls of NFS and MOUNT
  -- leave both caches valid, the handle map valid (a live number is not free, no two handles stand
  -- for one path, there are no more than the limit), and the counter so that it never comes to its
  -- end.
  pub receive_all-HasValidCaches :
      (slack : ℕ) (l : List Arrival) (x : Exchange F)
      → IsGood HasValidCaches slack x
      → IsGood HasValidCaches slack (receive_all l x)
  receive_all-HasValidCaches slack l x h =
      receive_all-IsGood HasValidCaches slack
        (λ call c.
          handle_program-Keeps fs o verf (caches-IsRobust o fs).free
            (handle-Keeps fs o verf (caches-IsRobust o fs)) call c)
        l x h

  -- In a read-only export whose handles are valid and accounted for no sequence of calls changes the
  -- files: whichever procedures are called, by whom, and with whatever bytes as arguments.
  pub receive_all-read_only :
      (slack : ℕ) (l : List Arrival) (x : Exchange F)
      → x.server.read_only ≡ true
      → absnfs.FileHandle.Laws.IsAmple slack x.file_map
      → ((receive_all l x).server.files ≡ x.server.files)
        × ((receive_all l x).server.read_only ≡ true)
  receive_all-read_only slack l x locked ample =
      let k =
        receive_all-IsGood (IsFrozen x.server.files) slack
          (handle_program-IsFrozen x.server.files fs o verf) l x
          (record { served = record { locked = locked; same_files = refl }; ample = ample }) in
      (k.served.same_files, k.served.locked)
