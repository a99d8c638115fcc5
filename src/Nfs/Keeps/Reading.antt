-- ===== src/Nfs/Keeps/Reading.antt =====
-- What the procedures that only read keep.
use absnfs.Prelude.{
  ℕ, suc, Bool, true, false, ◌⊎◌, inl, inr, Option, List, [], ◌∷◌, ltb, leb, length, ◌&&◌,
}
use absnfs.Ops.{Failure, FileSystem, Outside, Server, NfsNode}
use absnfs.Ops.Nodes
use absnfs.Ops.Steady
use absnfs.Ops.Steady.{
  IsFree, IsSteady, free-IsSteady, read-Keeps, readlink-Keeps, read_dir-Keeps, read_dir_plus-Keeps,
}
use absnfs.Nfs.{Caller, Step}
use absnfs.Nfs.Info.{
  handle_null, handle_getattr, answer_with, handle_fsstat, handle_fsinfo, handle_pathconf,
}
use absnfs.Nfs.Names.{found_or_not, handle_lookup, handle_readlink}
use absnfs.Nfs.Attributes.{handle_access}
use absnfs.Nfs.Data.{handle_read}
use absnfs.Nfs.Create.{discard, handle_mknod}
use absnfs.Nfs.Remove.{handle_link}
use absnfs.Nfs.Listing.{entries_plus_loop, handle_readdir, handle_readdirplus}
use absnfs.Nfs.Keeps.{Keeps, step_laws, pure-Keeps, >>=-Keeps, allocate-Keeps}
use absnfs.Xdr.{Decoder}

module _ {F : Type 0} {J : Server F → Type 0} where
  pub discard-Keeps : {A : Type 0} (d : Decoder A) → Keeps J (discard d)
  unfolding discard
  discard-Keeps d = record { keep = λ n x h. record { served = h.served; ample = h.ample } }

  pub handle_null-Keeps : Keeps J handle_null
  unfolding handle_null
  handle_null-Keeps = search (step_laws)

  pub handle_mknod-Keeps : Keeps J handle_mknod
  unfolding handle_mknod
  handle_mknod-Keeps = search (step_laws, discard-Keeps)

  pub handle_link-Keeps : Keeps J handle_link
  unfolding handle_link
  handle_link-Keeps = search (step_laws, discard-Keeps)

  choice-Keeps :
      {A : Type 0} (b : Bool) {m k : Step F A}
      → Keeps J m
      → Keeps J k
      → Keeps J (elim b [ true ↦ m | false ↦ k ])
  choice-Keeps true l r = l
  choice-Keeps false l r = r

  pub entries_plus_loop-Keeps :
      (cookie max n i : ℕ) (entries : List NfsNode) (buf : List ℕ)
      → Keeps J (entries_plus_loop cookie max n i entries buf)
  unfolding entries_plus_loop
  entries_plus_loop-Keeps cookie max n i [] buf = search (step_laws)
  entries_plus_loop-Keeps cookie max n i (entry ∷ entries) buf =
      choice-Keeps (ltb i cookie) (entries_plus_loop-Keeps cookie max n (suc i) entries buf) (
        choice-Keeps (leb max (length buf) && ltb 0 n) (pure-Keeps _) (
          >>=-Keeps (allocate-Keeps entry)
            (λ h. entries_plus_loop-Keeps cookie max (suc n) (suc i) entries _)))

module _ {F H : Type 0} (fs : FileSystem F H) (o : Outside) {J : Server F → Type 0}
    (k : IsFree fs o J) where
  steady : IsSteady fs o J
  steady = free-IsSteady fs o J k

  pub get_attr-Keeps : (p : Option NfsNode) → absnfs.Ops.Keeps.Keeps J (Nodes.get_attr fs o p)
  get_attr-Keeps p = Steady.get_attr-Keeps fs o J steady p

  pub lookup-Keeps : (p : List ℕ) → absnfs.Ops.Keeps.Keeps J (Nodes.lookup fs o p)
  lookup-Keeps p = Steady.lookup-Keeps fs o J steady p

  pub handle_getattr-Keeps : Keeps J (handle_getattr fs o)
  unfolding handle_getattr
  handle_getattr-Keeps = search (step_laws, get_attr-Keeps) depth 12

  answer_with-Keeps : (bytes : List ℕ) → Keeps J (answer_with fs o bytes)
  unfolding answer_with
  answer_with-Keeps bytes = search (step_laws, get_attr-Keeps) depth 12

  pub handle_fsstat-Keeps : Keeps J (handle_fsstat fs o)
  unfolding handle_fsstat
  handle_fsstat-Keeps = answer_with-Keeps _

  pub handle_fsinfo-Keeps : Keeps J (handle_fsinfo fs o)
  unfolding handle_fsinfo
  handle_fsinfo-Keeps = answer_with-Keeps _

  pub handle_pathconf-Keeps : Keeps J (handle_pathconf fs o)
  unfolding handle_pathconf
  handle_pathconf-Keeps = answer_with-Keeps _

  found_or_not-Keeps : (dir : NfsNode) (r : Failure ⊎ NfsNode) → Keeps J (found_or_not fs o dir r)
  unfolding found_or_not
  found_or_not-Keeps dir (inl e) = search (step_laws)
  found_or_not-Keeps dir (inr p) = search (step_laws)

  pub handle_lookup-Keeps : Keeps J (handle_lookup fs o)
  unfolding handle_lookup
  handle_lookup-Keeps = search (step_laws, found_or_not-Keeps, lookup-Keeps) depth 16

  pub handle_readlink-Keeps : Keeps J (handle_readlink fs o)
  unfolding handle_readlink
  handle_readlink-Keeps =
      let r = readlink-Keeps fs o J steady in search (step_laws, get_attr-Keeps, r) depth 16

  pub handle_access-Keeps : (c : Caller) → Keeps J (handle_access fs o c)
  unfolding handle_access
  handle_access-Keeps c = search (step_laws, get_attr-Keeps) depth 16

  pub handle_read-Keeps : (c : Caller) → Keeps J (handle_read fs o c)
  unfolding handle_read
  handle_read-Keeps c =
      let r = read-Keeps fs o J steady in search (step_laws, get_attr-Keeps, r) depth 20

  pub handle_readdir-Keeps : (c : Caller) → Keeps J (handle_readdir fs o c)
  unfolding handle_readdir
  handle_readdir-Keeps c =
      let r = read_dir-Keeps fs o J steady in search (step_laws, get_attr-Keeps, r) depth 20

  pub handle_readdirplus-Keeps : (c : Caller) → Keeps J (handle_readdirplus fs o c)
  unfolding handle_readdirplus
  handle_readdirplus-Keeps c =
      let r = read_dir_plus-Keeps fs o J k in
      search (step_laws, get_attr-Keeps, entries_plus_loop-Keeps, r) depth 24
