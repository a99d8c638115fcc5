-- ===== src/Ops/Tests.antt =====
-- A file system of files by path, and a server of it with empty caches, on which the theorems on the
-- operations are tried.
mod Changes
use absnfs.Prelude.{
  ℕ, ◌+◌, ◌^◌, ◌≡◌, ◌≢◌, refl, ap, ◌∙◌, ◌⊎◌, inl, inr, Bool, true, false, Option, none, some, List,
  [], ◌∷◌, take, drop, length, min, ◌==◌, bytes_eq, list_beq_iff, if◌then◌else◌, Bool-cases, arith,
}
use absnfs.Prelude.Int.{ℤ, pos, pos_part, ◌≤ℤ◌}
use absnfs.Prelude.All.{All}
use absnfs.Prelude.Assoc.{lookup, insert, delete, lookup-insert, lookup-delete}
use absnfs.Attrs.{NfsAttrs, seconds, zero_time}
use absnfs.Cache.Lru.{FilePath, peek}
use absnfs.Cache.ChildOf.{root, child_path}
use absnfs.Cache.Attr.{new_attr_cache}
use absnfs.Cache.Attr.Valid.{new_attr_cache-IsValid}
use absnfs.Paths.Clean.{IsElement, path_of}
use absnfs.Ops.{Failure, not_exist, invalid, FileInfo, FileSystem, Outside, Server, NfsNode}
use absnfs.Ops.Nodes
use absnfs.Ops.Nodes.Answers.{AgreesWith, get_attr-lstat}
use absnfs.Ops.Content
use absnfs.Ops.Content.Reading.{HasContent, read-content}
use absnfs.Ops.Entries
use absnfs.Ops.Requests.{Request, serve_all}
use absnfs.Ops.Requests.Valid.{HasValidCaches, serve_all-HasValidCaches}
use absnfs.Ops.Requests.ReadOnly.{IsOther, serve_all-read_only}
use absnfs.Ops.Coherent.{IsCoherentBut, IsCoherent}
use absnfs.Ops.Coherent.Reads.{Matches, lookup-lstat}
use absnfs.Ops.Coherent.Renames.{Touched, IsBelow, IsLocalRename, rename-IsCoherentBut}

pub record StoredFile : Type 0 where
  pub info : FileInfo
  pub bytes : List ℕ

abbrev pub Files : Type 0
Files = List (FilePath × StoredFile)

abbrev pub info_of : Option StoredFile → Failure ⊎ FileInfo
info_of none = inl not_exist
info_of (some x) = inr x.info

abbrev pub bytes_of : Option StoredFile → List ℕ
bytes_of none = []
bytes_of (some x) = x.bytes

abbrev pub path_if : FilePath → Option StoredFile → Failure ⊎ FilePath
path_if p none = inl not_exist
path_if p (some x) = inr p

abbrev pub new_file : StoredFile
new_file = record {
  info = record { name = []; mode = 420; size = pos 0; mod_time = pos 5 };
  bytes = [];
}

abbrev pub new_directory : StoredFile
new_directory = record {
  info = record { name = []; mode = 2 ^ 31 + 493; size = pos 0; mod_time = pos 5 };
  bytes = [];
}

abbrev pub move : FilePath → FilePath → Option StoredFile → Files → (Failure ⊎ Unit {0}) × Files
move p q none f = (inl not_exist, f)
move p q (some x) f = (inr tt, insert q x (delete p f))

-- Another mode, and another time, of a file that is there.
abbrev pub moded : FilePath → ℕ → Option StoredFile → Files → Files
moded p m none f = f
moded p m (some x) f = insert p (record x { info = record x.info { mode = m } }) f

abbrev pub timed : FilePath → ℤ → Option StoredFile → Files → Files
timed p t none f = f
timed p t (some x) f = insert p (record x { info = record x.info { mod_time = t } }) f

abbrev pub simple : FileSystem Files FilePath
simple = record {
  lstat = λ f p. info_of (lookup p f);
  stat = λ f p. info_of (lookup p f);
  readlink = λ f p. inl invalid;
  open_file = λ a f p. path_if p (lookup p f);
  file_stat = λ f p. info_of (lookup p f);
  readdir = λ f p. inr [];
  read_at =
      λ f p offset n. (take (pos_part n) (drop (pos_part offset) (bytes_of (lookup p f))), none);
  write_at = λ p d offset f. ((length d, none), insert p (record new_file { bytes = d }) f);
  close = λ p f. (inr tt, f);
  create = λ p f. (inr p, insert p new_file f);
  chmod = λ p m f. (inr tt, moded p m (lookup p f) f);
  chown = λ p u g f. (inr tt, f);
  chtimes = λ p a m f. (inr tt, timed p m (lookup p f) f);
  remove = λ p f. (inr tt, delete p f);
  rename = λ p q f. move p q (lookup p f) f;
  symlink = λ target p f. (inr tt, insert p (record new_file { bytes = target }) f);
  mkdir = λ p m f. (inr tt, insert p new_directory f);
  lchown = λ p u g f. (inr tt, f);
  truncate =
      λ p n f. (inr tt, insert p (record new_file { bytes = take n (bytes_of (lookup p f)) }) f);
}

abbrev pub steady_clock : Outside
steady_clock = record {
  clock = λ n. pos (n + 100);
  context_done = λ n. false;
  path_hash = λ p. length p;
  structs_differ = λ a b. false;
}

abbrev pub note : StoredFile
note = record {
  info = record { name = b'n' ∷ []; mode = 420; size = pos 3; mod_time = pos 7 };
  bytes = 1 ∷ 2 ∷ 3 ∷ [];
}

abbrev pub note_path : FilePath
note_path = b'/' ∷ b'n' ∷ []

abbrev pub server : Bool → Server Files
server read_only = record {
  files = (note_path, note) ∷ [];
  attr_cache = new_attr_cache (seconds 5) (pos 100);
  dir_cache = none;
  read_only = read_only;
  transfer_size = pos 2;
  asked = 0;
}

abbrev pub attrs : NfsAttrs
attrs = record {
  mode = 420;
  size = pos 0;
  file_id = 0;
  mtime = zero_time;
  atime = zero_time;
  uid = 0;
  gid = 0;
  valid_until = zero_time;
}

abbrev pub root_node : NfsNode
root_node = record { path = root; attrs = attrs }

abbrev pub note_node : NfsNode
note_node = record { path = note_path; attrs = attrs }

abbrev requests : List Request
requests =
    Request.look_up note_path
    ∷ Request.creating (some root_node) (b'm' ∷ []) (some attrs)
    ∷ Request.removing (some root_node) (b'n' ∷ [])
    ∷ []

fresh-HasValidCaches : (b : Bool) → HasValidCaches (server b)
fresh-HasValidCaches b = record {
  attrs_valid = new_attr_cache-IsValid (seconds 5) (pos 100);
  listings_valid = tt;
}

serve_all-read_only_example :
    ((serve_all simple steady_clock requests (server true)).files ≡ (server true).files)
    × ((serve_all simple steady_clock requests (server true)).read_only ≡ true)
serve_all-read_only_example =
    serve_all-read_only simple steady_clock requests (server true) (tt, (tt, (tt, tt))) refl

get_attr-lstat_example :
    AgreesWith note_node 2
      (inr note.info)
      (Nodes.get_attr simple steady_clock (some note_node) (server false)).0
get_attr-lstat_example =
    get_attr-lstat simple steady_clock note_node (server false)
      (new_attr_cache-IsValid (seconds 5) (pos 100)) (λ n. omega arith)

pub fresh-IsCoherent : IsCoherent simple (server false)
unfolding peek new_attr_cache absnfs.Cache.Lru.empty
fresh-IsCoherent = record {
  valid = new_attr_cache-IsValid (seconds 5) (pos 100);
  current = λ q v out there. absurd (ground (arith, there));
}

lookup-lstat_example :
    Matches simple steady_clock note_path
      (inr note.info)
      (Nodes.lookup simple steady_clock note_path (server false)).0
lookup-lstat_example =
    lookup-lstat simple steady_clock note_path (server false) fresh-IsCoherent (λ e. cc) refl

pub note-HasContent : HasContent simple (server false).files note_path (1 ∷ 2 ∷ 3 ∷ [])
note-HasContent = record {
  file = note_path;
  info = note.info;
  opens = refl;
  known = refl;
  whole = refl;
  reads = λ offset n. refl;
}

read-content_example :
    (Content.read simple steady_clock (some note_node) (pos 1) (pos 9) (server false)).0
    ≡ inr (take (min 9 2) (drop 1 (1 ∷ 2 ∷ 3 ∷ [])))
read-content_example =
    read-content simple steady_clock note_node 1 9 2 (1 ∷ 2 ∷ 3 ∷ []) (server false) note-HasContent
      refl refl

pub other_inserted :
    (p q : FilePath) (x : StoredFile) (f : Files)
    → q ≢ p
    → info_of (lookup q (insert p x f)) ≡ info_of (lookup q f)
other_inserted p q x f other =
    ap info_of (ground (arith, lookup-insert p q x f, list_beq_iff p q, other))

pub other_deleted :
    (p q : FilePath) (f : Files) → q ≢ p → info_of (lookup q (delete p f)) ≡ info_of (lookup q f)
other_deleted p q f other =
    ap info_of (ground (arith, lookup-delete p q f, list_beq_iff p q, other))

pub other_moded :
    (p q : FilePath) (m : ℕ) (x : Option StoredFile) (f : Files)
    → q ≢ p
    → info_of (lookup q (moded p m x f)) ≡ info_of (lookup q f)
other_moded p q m none f other = refl
other_moded p q m (some x) f other = other_inserted p q _ f other

pub other_timed :
    (p q : FilePath) (t : ℤ) (x : Option StoredFile) (f : Files)
    → q ≢ p
    → info_of (lookup q (timed p t x f)) ≡ info_of (lookup q f)
other_timed p q t none f other = refl
other_timed p q t (some x) f other = other_inserted p q _ f other
