-- ===== src/Nfs.antt =====
-- nfs_handlers.go: what the procedures share. A call works on an exchange: the server, the file
-- handles and the bytes of its body that are not read yet. A node is stored under its handle, by
-- value: there is one handle for a node, and what changes the node stores it again. A step of a
-- procedure goes on with a value, answers, or gets stuck: a panic, or an eviction of handles that
-- runs out of fuel. The buffers of the replies do not fail, so the branches on an error of an
-- encoder are left out, as are the branches on nodes whose attributes are nil.
pub mod Sattr
pub mod Info
pub mod Names
pub mod Attributes
pub mod Data
pub mod Create
pub mod Remove
pub mod Listing
pub mod Dispatch
pub mod Goes
pub mod Keeps
pub mod Calls
mod Tests
use absnfs.Prelude.{
  ℕ, Bool, true, false, ◌⊎◌, inl, inr, Option, none, some, List, [], ◌∷◌, ◌++◌, nat_eq, nat_beq,
  ◌/◌, ◌%◌, ◌^◌, if◌then◌else◌,
}
use absnfs.Attrs.{NfsAttrs}
use absnfs.Attrs.Wire.{encode_file_attributes, encode_wcc_attr}
use absnfs.FileHandle
use absnfs.FileHandle.{File, FileHandleMap}
use absnfs.Prelude.Assoc.{insert}
use absnfs.Rpc.{ReplyData, no_data, raw, success}
use absnfs.Xdr.{Result, ok, err, Decoder, encode_uint32}
use absnfs.Ops.{Failure, nil_dereference, Server, NfsNode, Op, map_error}

abbrev pub nfserr_noent : ℕ
nfserr_noent = 2

abbrev pub nfserr_io : ℕ
nfserr_io = 5

abbrev pub nfserr_acces : ℕ
nfserr_acces = 13

abbrev pub nfserr_exist : ℕ
nfserr_exist = 17

abbrev pub nfserr_notdir : ℕ
nfserr_notdir = 20

abbrev pub nfserr_rofs : ℕ
nfserr_rofs = 30

abbrev pub nfserr_notempty : ℕ
nfserr_notempty = 66

abbrev pub nfserr_stale : ℕ
nfserr_stale = 70

abbrev pub nfserr_not_sync : ℕ
nfserr_not_sync = 10002

abbrev pub nfserr_notsupp : ℕ
nfserr_notsupp = 10004

abbrev pub nfserr_jukebox : ℕ
nfserr_jukebox = 10008

abbrev pub nfserr_delay : ℕ
nfserr_delay = 10013

abbrev pub garbage_args : ℕ
garbage_args = 4

-- What a procedure reads of the AuthContext (the effective ids, and the auxiliary ones of AUTH_SYS),
-- and whether the rate limiter lets it pass, if there is one that is asked.
pub record Caller : Type 0 where
  pub uid : ℕ
  pub gid : ℕ
  pub aux_gids : List ℕ
  pub admitted : Bool

-- What a procedure sets of its reply.
pub record Answer : Type 0 where
  pub accept_status : ℕ
  pub result : ReplyData

-- An answer of data.
abbrev pub replied : List ℕ → Answer
replied bytes = record { accept_status = success; result = raw bytes }

abbrev pub bare : ℕ → Answer
bare accept_status = record { accept_status = accept_status; result = no_data }

pub record Exchange (F : Type 0) : Type 0 where
  pub server : Server F
  pub file_map : FileHandleMap NfsAttrs
  pub body : List ℕ

-- The bit of a mode that says directory, and the one that says symbolic link.
abbrev pub is_dir : ℕ → Bool
is_dir mode = nat_beq (mode / 2 ^ 31 % 2) 1

abbrev pub is_symlink : ℕ → Bool
is_symlink mode = nat_beq (mode / 2 ^ 27 % 2) 1

pub data Outcome (A : Type 0) : Type 0 where
  going : A → Outcome A
  answered : Answer → Outcome A
  stuck : Outcome A

abbrev pub Step : Type 0 → Type 0 → Type 0
Step F A = Exchange F → Outcome A × Exchange F

module _ {F A : Type 0} where
  unfoldable pub pure : A → Step F A
  pure a x = (going a, x)

  unfoldable pub answer : Answer → Step F A
  answer a x = (answered a, x)

  unfoldable pub stop : Step F A
  stop x = (stuck, x)

module _ {F A B : Type 0} where
  abbrev pub continue : Outcome A → (A → Step F B) → Step F B
  continue (going a) f x = f a x
  continue (answered r) f x = (answered r, x)
  continue stuck f x = (stuck, x)

  infixl 5 ◌>>=◌ ◌>>◌
  unfoldable pub ◌>>=◌ : Step F A → (A → Step F B) → Step F B
  ◌>>=◌ m f x = continue (m x).0 f (m x).1

  abbrev pub ◌>>◌ : Step F A → Step F B → Step F B
  m >> k = m >>= λ _. k

-- nfsErrorReply.
unfoldable pub nfs_error_reply : ℕ → List ℕ
nfs_error_reply status = encode_uint32 status

-- nfsErrorWithPostOp.
unfoldable pub nfs_error_with_post_op : ℕ → List ℕ
nfs_error_with_post_op status = encode_uint32 status ++ encode_uint32 0

-- nfsErrorWithWcc.
unfoldable pub nfs_error_with_wcc : ℕ → List ℕ
nfs_error_with_wcc status = encode_uint32 status ++ (encode_uint32 0 ++ encode_uint32 0)

-- nfsErrorWithPostOpAndWcc.
unfoldable pub nfs_error_with_post_op_and_wcc : ℕ → List ℕ
nfs_error_with_post_op_and_wcc status =
    encode_uint32 status ++ (encode_uint32 0 ++ (encode_uint32 0 ++ encode_uint32 0))

-- nfsErrorWithDoubleWcc.
unfoldable pub nfs_error_with_double_wcc : ℕ → List ℕ
nfs_error_with_double_wcc status =
    encode_uint32 status
    ++ (encode_uint32 0 ++ (encode_uint32 0 ++ (encode_uint32 0 ++ encode_uint32 0)))

-- encodePostOpAttr.
unfoldable pub encode_post_op_attr : NfsAttrs → List ℕ
encode_post_op_attr attrs = encode_uint32 1 ++ encode_file_attributes attrs

-- encodeWccData.
unfoldable pub encode_wcc_data : NfsAttrs → NfsAttrs → List ℕ
unfolding encode_post_op_attr
encode_wcc_data pre post = (encode_uint32 1 ++ encode_wcc_attr pre) ++ encode_post_op_attr post

-- The type assertion on what a handle stands for.
abbrev pub node_of : Option (File NfsAttrs) → Option NfsNode
node_of none = none
node_of (some (File.node p a)) = some (record { path = p; attrs = a })
node_of (some (File.other a)) = none

-- The same node, with other attributes.
abbrev pub changed_file : NfsAttrs → File NfsAttrs → File NfsAttrs
changed_file a (File.node p old) = File.node p a
changed_file a (File.other old) = File.other old

unfoldable pub with_attrs : ℕ → NfsAttrs → FileHandleMap NfsAttrs → FileHandleMap NfsAttrs
with_attrs h a fm = elim (FileHandle.get h fm) [
  | none ↦ fm
  | some f ↦ record fm { handles = insert h (changed_file a f) fm.handles }
]

module _ {F : Type 0} where
  unfoldable pub check : Bool → List ℕ → Step F (Unit {0})
  check true reply x = (going tt, x)
  check false reply x = (answered (replied reply), x)

  -- The check of `policy.ReadOnly`.
  unfoldable pub check_writable : List ℕ → Step F (Unit {0})
  check_writable reply x =
      if x.server.read_only then (answered (replied reply), x) else (going tt, x)

  unfoldable pub is_read_only : Step F Bool
  is_read_only x = (going x.server.read_only, x)

  -- `lookupNode`, and the reply where there is no node.
  unfoldable pub node_or : List ℕ → Option NfsNode → Step F NfsNode
  node_or reply none x = (answered (replied reply), x)
  node_or reply (some n) x = (going n, x)

  unfoldable pub lookup_node : ℕ → List ℕ → Step F NfsNode
  lookup_node h reply x = node_or reply (node_of (FileHandle.get h x.file_map)) x

  -- The node that the handle stands for has these attributes now.
  unfoldable pub store_attrs : ℕ → NfsAttrs → Step F (Unit {0})
  store_attrs h a x = (going tt, record x { file_map = with_attrs h a x.file_map })

  unfoldable pub allocated : Option (ℕ × FileHandleMap NfsAttrs) → Step F ℕ
  allocated none x = (stuck, x)
  allocated (some (h, fm)) x = (going h, record x { file_map = fm })

  -- `fileMap.Allocate`.
  unfoldable pub allocate : NfsNode → Step F ℕ
  allocate n x = allocated (FileHandle.allocate (File.node n.path n.attrs) x.file_map) x

module _ {F A : Type 0} where
  unfoldable pub decoded : Answer → Result A → Step F A
  decoded reply (ok a) x = (going a, x)
  decoded reply (err e) x = (answered reply, x)

  -- A part of the arguments, and the reply where it cannot be read.
  unfoldable pub decode : Decoder A → Answer → Step F A
  decode d reply x = decoded reply (d x.body).0 (record x { body = (d x.body).1 })

  unfoldable pub unpanicked : Failure ⊎ A → Step F (Failure ⊎ A)
  unpanicked (inl nil_dereference) x = (stuck, x)
  unpanicked r x = (going r, x)

  -- An operation, and its error or its value.
  unfoldable pub run : Op F A → Step F (Failure ⊎ A)
  run m x = unpanicked (m x.server).0 (record x { server = (m x.server).1 })

  -- The reply by `mapError`, where the operation failed.
  unfoldable pub or_reply : (ℕ → List ℕ) → Failure ⊎ A → Step F A
  or_reply reply (inl e) x = (answered (replied (reply (map_error (some e)))), x)
  or_reply reply (inr a) x = (going a, x)

  unfoldable pub demand : (ℕ → List ℕ) → Op F A → Step F A
  demand reply m = run m >>= or_reply reply
