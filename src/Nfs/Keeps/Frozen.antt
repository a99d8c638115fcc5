-- ===== src/Nfs/Keeps/Frozen.antt =====
-- In a read-only export the procedures that change files do nothing.
use absnfs.Prelude.{ℕ, refl, List}
use absnfs.Ops.{FileSystem, Outside}
use absnfs.Ops.Requests.ReadOnly.{IsFrozen, IsFrozen-IsFree}
use absnfs.Rpc.{RpcCall}
use absnfs.Nfs.{Caller, Step, ◌>>=◌, check_writable}
use absnfs.Nfs.Attributes.{handle_setattr}
use absnfs.Nfs.Data.{handle_write, handle_commit}
use absnfs.Nfs.Create.{handle_create, handle_mkdir, handle_symlink}
use absnfs.Nfs.Remove.{handle_remove, handle_rmdir, handle_rename}
use absnfs.Nfs.Dispatch.{
  Procedure, null, getattr, setattr, look_up, access, readlink, read, write, create, mkdir, symlink,
  mknod, remove, rmdir, rename, link, readdir, readdirplus, fsstat, fsinfo, pathconf, commit,
  handle, handle_program,
}
use absnfs.Nfs.Keeps.{Keeps}
use absnfs.Nfs.Keeps.Reading.{
  handle_null-Keeps, handle_mknod-Keeps, handle_link-Keeps, handle_getattr-Keeps,
  handle_fsstat-Keeps, handle_fsinfo-Keeps, handle_pathconf-Keeps, handle_lookup-Keeps,
  handle_readlink-Keeps, handle_access-Keeps, handle_read-Keeps, handle_readdir-Keeps,
  handle_readdirplus-Keeps,
}
use absnfs.Nfs.Keeps.Calls.{handle_program-Keeps}

module _ {F : Type 0} (f : F) where
  check_writable_stops :
      {A : Type 0} (r : List ℕ) (k : Unit {0} → Step F A)
      → Keeps (IsFrozen f) (check_writable r >>= k)
  unfolding check_writable ◌>>=◌
  check_writable_stops r k = record {
    keep = λ n x h. rw (h.served.locked) (record {
      served = record { locked = refl; same_files = h.served.same_files };
      ample = h.ample;
    });
  }

  module _ {H : Type 0} (fs : FileSystem F H) (o : Outside) (verf : List ℕ) where
    stopped-Keeps : (p : Procedure) (c : Caller) → Keeps (IsFrozen f) (handle fs o verf p c)
    unfolding handle handle_setattr handle_write handle_commit handle_create handle_mkdir
        handle_symlink handle_remove handle_rmdir handle_rename
    stopped-Keeps null c = handle_null-Keeps
    stopped-Keeps getattr c = handle_getattr-Keeps fs o (IsFrozen-IsFree f fs o)
    stopped-Keeps setattr c = check_writable_stops _ _
    stopped-Keeps look_up c = handle_lookup-Keeps fs o (IsFrozen-IsFree f fs o)
    stopped-Keeps access c = handle_access-Keeps fs o (IsFrozen-IsFree f fs o) c
    stopped-Keeps readlink c = handle_readlink-Keeps fs o (IsFrozen-IsFree f fs o)
    stopped-Keeps read c = handle_read-Keeps fs o (IsFrozen-IsFree f fs o) c
    stopped-Keeps write c = check_writable_stops _ _
    stopped-Keeps create c = check_writable_stops _ _
    stopped-Keeps mkdir c = check_writable_stops _ _
    stopped-Keeps symlink c = check_writable_stops _ _
    stopped-Keeps mknod c = handle_mknod-Keeps
    stopped-Keeps remove c = check_writable_stops _ _
    stopped-Keeps rmdir c = check_writable_stops _ _
    stopped-Keeps rename c = check_writable_stops _ _
    stopped-Keeps link c = handle_link-Keeps
    stopped-Keeps readdir c = handle_readdir-Keeps fs o (IsFrozen-IsFree f fs o) c
    stopped-Keeps readdirplus c = handle_readdirplus-Keeps fs o (IsFrozen-IsFree f fs o) c
    stopped-Keeps fsstat c = handle_fsstat-Keeps fs o (IsFrozen-IsFree f fs o)
    stopped-Keeps fsinfo c = handle_fsinfo-Keeps fs o (IsFrozen-IsFree f fs o)
    stopped-Keeps pathconf c = handle_pathconf-Keeps fs o (IsFrozen-IsFree f fs o)
    stopped-Keeps commit c = check_writable_stops _ _

    pub handle_program-IsFrozen :
        (call : RpcCall) (c : Caller) → Keeps (IsFrozen f) (handle_program fs o verf call c)
    handle_program-IsFrozen call c =
        handle_program-Keeps fs o verf (IsFrozen-IsFree f fs o) stopped-Keeps call c
