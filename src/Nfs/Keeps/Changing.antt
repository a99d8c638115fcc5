-- ===== src/Nfs/Keeps/Changing.antt =====
-- What the procedures that change files keep.
use absnfs.Prelude.{ℕ, ◌⊎◌, inl, inr, Option, none, some, List}
use absnfs.Attrs.{NfsAttrs}
use absnfs.Ops.{Failure, FileInfo, FileSystem, Outside, Server, NfsNode}
use absnfs.Ops.Content.{Written}
use absnfs.Ops.Keeps as Ops
use absnfs.Ops.Changes.{
  IsRobust, set_attr-Keeps, create-Keeps, remove-Keeps, rename-Keeps, symlink-Keeps, write-Keeps,
  call-Keeps, attempt-Keeps,
}
use absnfs.Nfs.{Caller}
use absnfs.Nfs.Sattr.{Sattr3, SetTime, keep, server_time, client_time, unknown_code}
use absnfs.Nfs.Attributes.{time_for, resized, set_size, handle_setattr}
use absnfs.Nfs.Data.{attrs_or, failed, report, written, handle_write, handle_commit}
use absnfs.Nfs.Create.{
  CreateHow, by_sattr, exclusive, without_attrs, announce, existing, created, handle_create,
  made_dir, handle_mkdir, made_link, handle_symlink,
}
use absnfs.Nfs.Remove.{
  changed, removed, handle_remove, removed_dir, remove_dir, handle_rmdir, renamed, handle_rename,
}
use absnfs.Nfs.Keeps.{Keeps, step_laws}
use absnfs.Nfs.Keeps.Reading.{get_attr-Keeps, lookup-Keeps}

module _ {F H : Type 0} (fs : FileSystem F H) (o : Outside) {J : Server F → Type 0}
    (k : IsRobust fs o J) where
  asks : (p : Option NfsNode) → Ops.Keeps J (absnfs.Ops.Nodes.get_attr fs o p)
  asks p = get_attr-Keeps fs o k.free p

  looks_up : (p : List ℕ) → Ops.Keeps J (absnfs.Ops.Nodes.lookup fs o p)
  looks_up p = lookup-Keeps fs o k.free p

  time_for-Keeps : (t : SetTime) → Keeps J (time_for o t)
  unfolding time_for
  time_for-Keeps keep = search (step_laws)
  time_for-Keeps server_time = let n = k.free.now_keeps in search (step_laws)
  time_for-Keeps (client_time s n) = search (step_laws)
  time_for-Keeps (unknown_code c) = search (step_laws)

  resized-Keeps : (p : NfsNode) (r : Failure ⊎ FileInfo) → Keeps J (resized fs o p r)
  unfolding resized
  resized-Keeps p (inl e) = search (step_laws)
  resized-Keeps p (inr i) = let n = k.free.now_keeps in search (step_laws)

  set_size-Keeps : (h : ℕ) (p : NfsNode) (n : Option ℕ) → Keeps J (set_size fs o h p n)
  unfolding set_size
  set_size-Keeps h p none = search (step_laws)
  set_size-Keeps h p (some n) =
      search (step_laws, Ops.reading_laws, resized-Keeps, k.attrs_drop, call-Keeps fs o J k) depth
        20

  pub handle_setattr-Keeps : (c : Caller) → Keeps J (handle_setattr fs o c)
  unfolding handle_setattr
  handle_setattr-Keeps c =
      search (step_laws, asks, time_for-Keeps, set_size-Keeps, set_attr-Keeps fs o J k) depth 30

  attrs_or-Keeps : (a : NfsAttrs) (r : Failure ⊎ NfsAttrs) → Keeps J (attrs_or fs o a r)
  unfolding attrs_or
  attrs_or-Keeps a (inl e) = search (step_laws)
  attrs_or-Keeps a (inr b) = search (step_laws)

  failed-Keeps : (s : ℕ) (a : NfsAttrs) (p : NfsNode) → Keeps J (failed fs o s a p)
  unfolding failed
  failed-Keeps s a p = search (step_laws, asks, attrs_or-Keeps) depth 12

  report-Keeps :
      (verf : List ℕ) (a : NfsAttrs) (p : NfsNode) (n : ℕ) (e : Option Failure)
      → Keeps J (report fs o verf a p n e)
  unfolding report
  report-Keeps verf a p n (some e) = failed-Keeps _ a p
  report-Keeps verf a p n none = search (step_laws, asks)

  written-Keeps :
      (verf : List ℕ) (h : ℕ) (p : NfsNode) (a : NfsAttrs) (r : Failure ⊎ Written)
      → Keeps J (written fs o verf h p a r)
  unfolding written
  written-Keeps verf h p a (inl e) = failed-Keeps _ a p
  written-Keeps verf h p a (inr w) = search (step_laws, report-Keeps)

  pub handle_write-Keeps : (verf : List ℕ) (c : Caller) → Keeps J (handle_write fs o verf c)
  unfolding handle_write
  handle_write-Keeps verf c =
      search (step_laws, Ops.reading_laws, asks, written-Keeps, write-Keeps fs o J k) depth 40

  pub handle_commit-Keeps : (verf : List ℕ) → Keeps J (handle_commit fs o verf)
  unfolding handle_commit
  handle_commit-Keeps verf = search (step_laws, asks) depth 20

  announce-Keeps : (a : NfsAttrs) (p q : NfsNode) → Keeps J (announce fs o a p q)
  unfolding announce
  announce-Keeps a p q = search (step_laws, asks) depth 12

  existing-Keeps :
      (a : NfsAttrs) (p : NfsNode) (e : Failure) (r : Failure ⊎ NfsNode)
      → Keeps J (existing fs o a p e r)
  unfolding existing
  existing-Keeps a p e (inl x) = failed-Keeps _ a p
  existing-Keeps a p e (inr q) = search (step_laws, asks, attrs_or-Keeps) depth 12

  created-Keeps :
      (how : CreateHow) (a : NfsAttrs) (p : NfsNode) (name : List ℕ) (r : Failure ⊎ NfsNode)
      → Keeps J (created fs o how a p name r)
  unfolding created
  created-Keeps (by_sattr s) a p name (inr q) = announce-Keeps a p q
  created-Keeps exclusive a p name (inr q) = announce-Keeps a p q
  created-Keeps without_attrs a p name (inr q) = announce-Keeps a p q
  created-Keeps (by_sattr s) a p name (inl e) = failed-Keeps _ a p
  created-Keeps without_attrs a p name (inl e) = failed-Keeps _ a p
  created-Keeps exclusive a p name (inl e) =
      search (step_laws, looks_up, existing-Keeps, failed-Keeps) depth 12

  pub handle_create-Keeps : (c : Caller) → Keeps J (handle_create fs o c)
  unfolding handle_create
  handle_create-Keeps c = search (step_laws, asks, created-Keeps, create-Keeps fs o J k) depth 30

  made_dir-Keeps :
      (c : Caller) (s : Sattr3) (a : NfsAttrs) (p : NfsNode) (path : List ℕ)
      (r : Failure ⊎ Unit {0})
      → Keeps J (made_dir fs o c s a p path r)
  unfolding made_dir
  made_dir-Keeps c s a p path (inl e) = failed-Keeps _ a p
  made_dir-Keeps c s a p path (inr u) =
      search (step_laws, looks_up, announce-Keeps, attempt-Keeps fs o J k) depth 12

  pub handle_mkdir-Keeps : (c : Caller) → Keeps J (handle_mkdir fs o c)
  unfolding handle_mkdir
  handle_mkdir-Keeps c = search (step_laws, asks, made_dir-Keeps, call-Keeps fs o J k) depth 30

  made_link-Keeps :
      (c : Caller) (s : Sattr3) (a : NfsAttrs) (p : NfsNode) (name : List ℕ) (r : Failure ⊎ NfsNode)
      → Keeps J (made_link fs o c s a p name r)
  unfolding made_link
  made_link-Keeps c s a p name (inl e) = failed-Keeps _ a p
  made_link-Keeps c s a p name (inr q) =
      search (step_laws, announce-Keeps, attempt-Keeps fs o J k) depth 12

  pub handle_symlink-Keeps : (c : Caller) → Keeps J (handle_symlink fs o c)
  unfolding handle_symlink
  handle_symlink-Keeps c =
      search (step_laws, asks, made_link-Keeps, symlink-Keeps fs o J k) depth 40

  changed-Keeps : (a : NfsAttrs) (p : NfsNode) → Keeps J (changed fs o a p)
  unfolding changed
  changed-Keeps a p = search (step_laws, asks)

  removed-Keeps :
      (a : NfsAttrs) (p : NfsNode) (r : Failure ⊎ Unit {0}) → Keeps J (removed fs o a p r)
  unfolding removed
  removed-Keeps a p (inl e) = failed-Keeps _ a p
  removed-Keeps a p (inr u) = changed-Keeps a p

  pub handle_remove-Keeps : Keeps J (handle_remove fs o)
  unfolding handle_remove
  handle_remove-Keeps = search (step_laws, asks, removed-Keeps, remove-Keeps fs o J k) depth 30

  removed_dir-Keeps :
      (a : NfsAttrs) (p : NfsNode) (path : List ℕ) (r : Failure ⊎ Unit {0})
      → Keeps J (removed_dir fs o a p path r)
  unfolding removed_dir
  removed_dir-Keeps a p path (inl e) = failed-Keeps _ a p
  removed_dir-Keeps a p path (inr u) =
      search (step_laws, changed-Keeps, k.attrs_drop, k.listing_drop) depth 16

  remove_dir-Keeps :
      (a : NfsAttrs) (p : NfsNode) (path : List ℕ) (r : Failure ⊎ FileInfo)
      → Keeps J (remove_dir fs o a p path r)
  unfolding remove_dir
  remove_dir-Keeps a p path (inl e) = search (step_laws)
  remove_dir-Keeps a p path (inr i) =
      search (step_laws, removed_dir-Keeps, call-Keeps fs o J k) depth 12

  pub handle_rmdir-Keeps : Keeps J (handle_rmdir fs o)
  unfolding handle_rmdir
  handle_rmdir-Keeps = search (step_laws, Ops.reading_laws, asks, remove_dir-Keeps) depth 30

  renamed-Keeps :
      (a b : NfsAttrs) (p q : NfsNode) (r : Failure ⊎ Unit {0}) → Keeps J (renamed fs o a b p q r)
  unfolding renamed
  renamed-Keeps a b p q (inl e) = search (step_laws, asks, attrs_or-Keeps) depth 16
  renamed-Keeps a b p q (inr u) = search (step_laws, asks) depth 12

  pub handle_rename-Keeps : Keeps J (handle_rename fs o)
  unfolding handle_rename
  handle_rename-Keeps = search (step_laws, asks, renamed-Keeps, rename-Keeps fs o J k) depth 40
