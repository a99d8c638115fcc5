-- ===== src/Nfs/Dispatch.antt =====
-- nfs_operations.go, mount_handlers.go and nfs_handlers.go: which procedure a call reaches, and what
-- comes before it.
use absnfs.Prelude.{
  ℕ, Bool, true, false, ◌⊎◌, inl, inr, Option, none, some, List, [], ◌∷◌, ◌++◌, nat_beq,
  if◌then◌else◌, bytes_eq, get_elem?,
}
use absnfs.Cache.ChildOf.{slash}
use absnfs.Xdr.{encode_uint32, encode_uint64, encode_string, decode_string}
use absnfs.Rpc.{
  prog_unavail, proc_unavail, RpcCall, RpcReply, AuthSysCredential, success, prog_mismatch,
  auth_sys, msg_accepted,
}
use absnfs.Auth.{AuthContext, AuthResult, PolicyOptions, validate_authentication}
use absnfs.Auth.Ip.{Subnet}
use absnfs.Ops.{Failure, FileSystem, Outside, NfsNode}
use absnfs.Ops.Nodes.{lookup}
use absnfs.Paths.{clean, starts_with_slash}
use absnfs.Nfs.{
  Caller, Answer, Exchange, Outcome, going, answered, stuck, Step, pure, ◌>>=◌, ◌>>◌, replied, bare,
  check, decode, run, allocate, garbage_args, nfserr_jukebox, nfs_error_reply,
}
use absnfs.Nfs.Info.{handle_null, handle_getattr, handle_fsstat, handle_fsinfo, handle_pathconf}
use absnfs.Nfs.Names.{handle_lookup, handle_readlink}
use absnfs.Nfs.Attributes.{handle_setattr, handle_access}
use absnfs.Nfs.Data.{handle_read, handle_write, handle_commit}
use absnfs.Nfs.Create.{handle_create, handle_mkdir, handle_symlink, handle_mknod}
use absnfs.Nfs.Remove.{handle_remove, handle_rmdir, handle_rename, handle_link}
use absnfs.Nfs.Listing.{handle_readdir, handle_readdirplus}

abbrev pub msg_denied : ℕ
msg_denied = 1

abbrev pub nfs_program : ℕ
nfs_program = 100003

abbrev pub mount_program : ℕ
mount_program = 100005

-- The procedures of NFSv3, by their numbers.
pub data Procedure : Type 0 where
  null getattr setattr look_up access readlink read write create mkdir symlink mknod : Procedure
  remove rmdir rename link readdir readdirplus fsstat fsinfo pathconf commit : Procedure

-- The keys of `nfsHandlers`, from 0.
abbrev pub procedures : List Procedure
procedures =
    null ∷ getattr ∷ setattr ∷ look_up ∷ access ∷ readlink ∷ read ∷ write ∷ create ∷ mkdir ∷ symlink
    ∷ mknod ∷ remove ∷ rmdir ∷ rename ∷ link ∷ readdir ∷ readdirplus ∷ fsstat ∷ fsinfo ∷ pathconf
    ∷ commit ∷ []

-- The procedures of MOUNT, from 0.
pub data MountProcedure : Type 0 where
  mount_null mnt dump umnt umntall export_list : MountProcedure

abbrev pub mount_procedures : List MountProcedure
mount_procedures = mount_null ∷ mnt ∷ dump ∷ umnt ∷ umntall ∷ export_list ∷ []

-- The reply of MNT: the handle, and one flavor of authentication.
unfoldable pub mount_reply : ℕ → List ℕ
mount_reply h =
    encode_uint32 0
    ++ (encode_uint32 8 ++ (encode_uint64 h ++ (encode_uint32 1 ++ encode_uint32 auth_sys)))

-- The reply of EXPORT: the root, for everyone.
unfoldable pub export_reply : List ℕ
export_reply =
    encode_uint32 1 ++ (encode_string (slash ∷ []) ++ (encode_uint32 0 ++ encode_uint32 0))

-- Whether a policy update holds the lock, and whether the time of the call is over when its
-- goroutine starts, and when it hands over its reply.
pub record Timing : Type 0 where
  pub draining : Bool
  pub late_start : Bool
  pub late_reply : Bool

module _ {F H : Type 0} (fs : FileSystem F H) (o : Outside) (verf : List ℕ) where
  -- The handlers of `nfsHandlers`.
  unfoldable pub handle : Procedure → Caller → Step F Answer
  handle null c = handle_null
  handle getattr c = handle_getattr fs o
  handle setattr c = handle_setattr fs o c
  handle look_up c = handle_lookup fs o
  handle access c = handle_access fs o c
  handle readlink c = handle_readlink fs o
  handle read c = handle_read fs o c
  handle write c = handle_write fs o verf c
  handle create c = handle_create fs o c
  handle mkdir c = handle_mkdir fs o c
  handle symlink c = handle_symlink fs o c
  handle mknod c = handle_mknod
  handle remove c = handle_remove fs o
  handle rmdir c = handle_rmdir fs o
  handle rename c = handle_rename fs o
  handle link c = handle_link
  handle readdir c = handle_readdir fs o c
  handle readdirplus c = handle_readdirplus fs o c
  handle fsstat c = handle_fsstat fs o
  handle fsinfo c = handle_fsinfo fs o
  handle pathconf c = handle_pathconf fs o
  handle commit c = handle_commit fs o verf

  unfoldable pub by_procedure : Option Procedure → Caller → Step F Answer
  by_procedure none c = pure (bare proc_unavail)
  by_procedure (some p) c = handle p c

  unfoldable pub handle_nfs_call : ℕ → ℕ → Caller → Step F Answer
  handle_nfs_call version procedure c =
      if nat_beq version 3
      then by_procedure (get_elem? procedures procedure) c
      else pure (bare prog_mismatch)

  unfoldable pub mounted : Failure ⊎ NfsNode → Step F Answer
  mounted (inl e) = pure (replied (encode_uint32 2))
  mounted (inr node) = do h ← allocate node; pure (replied (mount_reply h))

  unfoldable pub handle_mnt : Caller → Step F Answer
  handle_mnt c = do
    check c.admitted (encode_uint32 10006)
    path ← decode decode_string (bare garbage_args)
    check (starts_with_slash (clean path)) (encode_uint32 2)
    r ← run (lookup fs o (clean path))
    mounted r

  unfoldable pub handle_umnt : Step F Answer
  handle_umnt = do decode decode_string (bare garbage_args); pure (bare success)

  unfoldable pub mount_procedure : Option MountProcedure → Caller → Step F Answer
  mount_procedure (some mount_null) c = pure (bare success)
  mount_procedure (some mnt) c = handle_mnt c
  mount_procedure (some dump) c = pure (replied (encode_uint32 0))
  mount_procedure (some umnt) c = handle_umnt
  mount_procedure (some umntall) c = pure (bare success)
  mount_procedure (some export_list) c = pure (replied export_reply)
  mount_procedure none c = pure (bare proc_unavail)

  unfoldable pub handle_mount_call : ℕ → ℕ → Caller → Step F Answer
  handle_mount_call version procedure c =
      if nat_beq version 1
      then mount_procedure (get_elem? mount_procedures procedure) c
      else if nat_beq version 3
      then mount_procedure (get_elem? mount_procedures procedure) c
      else pure (bare prog_mismatch)

  unfoldable pub handle_program : RpcCall → Caller → Step F Answer
  handle_program call c =
      if nat_beq call.header.program mount_program
      then handle_mount_call call.header.version call.header.procedure c
      else if nat_beq call.header.program nfs_program
      then handle_nfs_call call.header.version call.header.procedure c
      else pure (bare prog_unavail)

-- The reply that HandleCall fills in.
abbrev pub reply_to : RpcCall → ℕ → Answer → RpcReply
reply_to call status a = record {
  header = call.header;
  status = status;
  accept_status = a.accept_status;
  verifier = record { flavor = 0; body = [] };
  result = a.result;
}

abbrev pub aux_gids_of : Option AuthSysCredential → List ℕ
aux_gids_of none = []
aux_gids_of (some cred) = cred.aux_gids

-- The goroutine's reply; none where it comes too late, or never.
abbrev pub delivered : RpcCall → Bool → Outcome Answer → Option RpcReply
delivered call true r = none
delivered call false (going a) = some (reply_to call msg_accepted a)
delivered call false (answered a) = some (reply_to call msg_accepted a)
delivered call false stuck = none

module _ (parse_ip : List ℕ → Option (List ℕ)) (parse_cidr : List ℕ → Option Subnet) {F H : Type 0}
    (fs : FileSystem F H) (o : Outside) (verf : List ℕ) (policy : PolicyOptions) where
  -- The caller, once it is let in.
  unfoldable pub caller_of : Bool → AuthResult × AuthContext → Caller
  caller_of admitted r = record {
    uid = r.0.uid;
    gid = r.0.gid;
    aux_gids = aux_gids_of r.1.parsed;
    admitted = admitted;
  }

  unfoldable pub serve_call : RpcCall → Timing → Caller → Exchange F → Option RpcReply × Exchange F
  serve_call call timing c x =
      if timing.late_start
      then (none, x)
      else let r = handle_program fs o verf call c x in (delivered call timing.late_reply r.0, r.1)

  -- HandleCall: its reply, or none where it answers that the call timed out, and the exchange once
  -- its goroutine is done.
  unfoldable pub handle_call :
      RpcCall → Timing → AuthContext → Bool → Exchange F → Option RpcReply × Exchange F
  handle_call call timing ctx admitted x =
      let r = validate_authentication parse_ip parse_cidr ctx policy in
      if timing.draining
      then (some (reply_to call msg_accepted (replied (nfs_error_reply nfserr_jukebox))), x)
      else if r.0.allowed
      then serve_call call timing (caller_of admitted r) x
      else (some (reply_to call msg_denied (bare success)), x)
