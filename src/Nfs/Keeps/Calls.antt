-- ===== src/Nfs/Keeps/Calls.antt =====
-- What calls keep: the caches valid and the handles accounted for; in a read-only export the files.
use absnfs.Prelude.{ℕ, ◌⊎◌, inl, inr, Option, none, some, List}
use absnfs.Rpc.{RpcCall}
use absnfs.Ops.{Failure, FileSystem, Outside, Server, NfsNode}
use absnfs.Ops.Steady.{IsFree}
use absnfs.Ops.Changes.{IsRobust}
use absnfs.Nfs.{Caller}
use absnfs.Nfs.Dispatch.{
  Procedure, null, getattr, setattr, look_up, access, readlink, read, write, create, mkdir, symlink,
  mknod, remove, rmdir, rename, link, readdir, readdirplus, fsstat, fsinfo, pathconf, commit,
  MountProcedure, mount_null, mnt, dump, umnt, umntall, export_list, handle, by_procedure,
  handle_nfs_call, mounted, handle_mnt, handle_umnt, mount_procedure, handle_mount_call,
  handle_program,
}
use absnfs.Nfs.Keeps.{Keeps, step_laws}
use absnfs.Nfs.Keeps.Reading.{
  handle_null-Keeps, handle_mknod-Keeps, handle_link-Keeps, lookup-Keeps, handle_getattr-Keeps,
  handle_fsstat-Keeps, handle_fsinfo-Keeps, handle_pathconf-Keeps, handle_lookup-Keeps,
  handle_readlink-Keeps, handle_access-Keeps, handle_read-Keeps, handle_readdir-Keeps,
  handle_readdirplus-Keeps,
}
use absnfs.Nfs.Keeps.Changing.{
  handle_setattr-Keeps, handle_write-Keeps, handle_commit-Keeps, handle_create-Keeps,
  handle_mkdir-Keeps, handle_symlink-Keeps, handle_remove-Keeps, handle_rmdir-Keeps,
  handle_rename-Keeps,
}

module _ {F H : Type 0} (fs : FileSystem F H) (o : Outside) (verf : List ℕ) {J : Server F → Type 0}
    (k : IsFree fs o J) where
  mounted-Keeps : (r : Failure ⊎ NfsNode) → Keeps J (mounted fs o verf r)
  unfolding mounted
  mounted-Keeps (inl e) = search (step_laws)
  mounted-Keeps (inr p) = search (step_laws)

  mount_procedure-Keeps :
      (p : Option MountProcedure) (c : Caller) → Keeps J (mount_procedure fs o verf p c)
  unfolding mount_procedure handle_mnt handle_umnt
  mount_procedure-Keeps (some mount_null) c = search (step_laws)
  mount_procedure-Keeps (some mnt) c =
      let l = lookup-Keeps fs o k in search (step_laws, mounted-Keeps, l) depth 12
  mount_procedure-Keeps (some dump) c = search (step_laws)
  mount_procedure-Keeps (some umnt) c = search (step_laws)
  mount_procedure-Keeps (some umntall) c = search (step_laws)
  mount_procedure-Keeps (some export_list) c = search (step_laws)
  mount_procedure-Keeps none c = search (step_laws)

  -- From what the procedures keep.
  module _ (handles : (p : Procedure) (c : Caller) → Keeps J (handle fs o verf p c)) where
    by_procedure-Keeps : (p : Option Procedure) (c : Caller) → Keeps J (by_procedure fs o verf p c)
    unfolding by_procedure
    by_procedure-Keeps none c = search (step_laws)
    by_procedure-Keeps (some p) c = handles p c

    pub handle_program-Keeps :
        (call : RpcCall) (c : Caller) → Keeps J (handle_program fs o verf call c)
    unfolding handle_program handle_mount_call handle_nfs_call
    handle_program-Keeps call c =
        search (step_laws, mount_procedure-Keeps, by_procedure-Keeps) depth 12

module _ {F H : Type 0} (fs : FileSystem F H) (o : Outside) (verf : List ℕ) {J : Server F → Type 0}
    (k : IsRobust fs o J) where
  pub handle-Keeps : (p : Procedure) (c : Caller) → Keeps J (handle fs o verf p c)
  unfolding handle
  handle-Keeps null c = handle_null-Keeps
  handle-Keeps getattr c = handle_getattr-Keeps fs o k.free
  handle-Keeps setattr c = handle_setattr-Keeps fs o k c
  handle-Keeps look_up c = handle_lookup-Keeps fs o k.free
  handle-Keeps access c = handle_access-Keeps fs o k.free c
  handle-Keeps readlink c = handle_readlink-Keeps fs o k.free
  handle-Keeps read c = handle_read-Keeps fs o k.free c
  handle-Keeps write c = handle_write-Keeps fs o k verf c
  handle-Keeps create c = handle_create-Keeps fs o k c
  handle-Keeps mkdir c = handle_mkdir-Keeps fs o k c
  handle-Keeps symlink c = handle_symlink-Keeps fs o k c
  handle-Keeps mknod c = handle_mknod-Keeps
  handle-Keeps remove c = handle_remove-Keeps fs o k
  handle-Keeps rmdir c = handle_rmdir-Keeps fs o k
  handle-Keeps rename c = handle_rename-Keeps fs o k
  handle-Keeps link c = handle_link-Keeps
  handle-Keeps readdir c = handle_readdir-Keeps fs o k.free c
  handle-Keeps readdirplus c = handle_readdirplus-Keeps fs o k.free c
  handle-Keeps fsstat c = handle_fsstat-Keeps fs o k.free
  handle-Keeps fsinfo c = handle_fsinfo-Keeps fs o k.free
  handle-Keeps pathconf c = handle_pathconf-Keeps fs o k.free
  handle-Keeps commit c = handle_commit-Keeps fs o k verf
