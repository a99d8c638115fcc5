-- ===== src/Nfs/Tests.antt =====
-- A server of a directory with one file, and calls to it.
use absnfs.Prelude.{
  map, ℕ, ◌+◌, ◌^◌, ◌≡◌, ◌<◌, inr, refl, Bool, true, false, Option, none, some, List, [], ◌∷◌, ◌++◌,
  take, drop, min, replicate, arith, length, leb, ◌&&◌, if◌then◌else◌,
}
use mathlib.Core.Path.{subst}
use absnfs.Prelude.Int.{pos}
use absnfs.Attrs.{NfsAttrs, seconds, refresh}
use absnfs.Cache.ChildOf.{root}
use absnfs.Cache.Attr.{new_attr_cache}
use absnfs.Cache.Attr.Valid.{new_attr_cache-IsValid}
use absnfs.FileHandle as Handles
use absnfs.FileHandle.{FileHandleMap, new_map}
use absnfs.FileHandle.Valid.{new_map-IsValid}
use absnfs.FileHandle.Laws.{IsAmple, allocate-IsAmple}
use absnfs.Xdr.{encode_file_handle, encode_string, encode_uint32, encode_uint64}
use absnfs.Rpc.{RpcCall}
use absnfs.Auth.{AuthContext, PolicyOptions}
use absnfs.Ops.{NfsNode}
use absnfs.Ops.Tests.{
  simple, steady_clock, server, attrs, root_node, note_node, note_path, Files, note-HasContent,
}
use absnfs.Ops.Requests.Valid.{HasValidCaches}
use absnfs.Ops.Nodes
use absnfs.Ops.Content
use absnfs.Nfs.Data.{handle_read}
use absnfs.Nfs.Data.Read.{write_read3resok, handle_read-content}
use absnfs.Nfs.{Exchange, Caller, going, replied, node_of}
use absnfs.Nfs.Names.{handle_lookup}
use absnfs.Nfs.Names.Found.{write_lookup3resok, handle_lookup-found}
use absnfs.Nfs.Sattr.{
  Sattr3, server_time, client_time, decode_sattr3, decode_sattr3-write_sattr3, write_sattr3,
}
use absnfs.Nfs.Calls.{Arrival, receive_all, receive_all-HasValidCaches, receive_all-read_only}
use absnfs.Nfs.Dispatch.{Timing, nfs_program}
use absnfs.Nfs.Keeps.{IsGood}
use absnfs.Nfs.Listing.Client.{ClientReads, described, readdir_pages_total}
use absnfs.Nfs.Attributes.{access_allowed}
use absnfs.Nfs.Attributes.Access.{Shows, access_allowed-Shows}

abbrev asks_times : Sattr3
asks_times = record {
  mode = some 420;
  uid = none;
  gid = some 100;
  size = some 7;
  atime = server_time;
  mtime = client_time 5 6;
}

decode_sattr3-write_sattr3_example :
    decode_sattr3 (write_sattr3 asks_times ++ (1 ∷ [])) ≡ (absnfs.Xdr.ok asks_times, 1 ∷ [])
decode_sattr3-write_sattr3_example = decode_sattr3-write_sattr3 asks_times (1 ∷ []) (record {
  mode_small = omega arith;
  uid_small = tt;
  gid_small = omega arith;
  size_small = omega arith;
  atime_known = tt;
  mtime_known = (omega arith, omega arith);
})

abbrev directory : NfsAttrs
directory = record attrs { mode = 2 ^ 31 + 493 }

abbrev rooted : FileHandleMap NfsAttrs
rooted = record {
  handles = (1, Handles.node root directory) ∷ [];
  path_handles = (root, 1) ∷ [];
  next_handle = 2;
  free_handles = [];
  max_handles = pos 10;
  closed = [];
}

abbrev new_handles : FileHandleMap NfsAttrs
new_handles = record {
  handles = [];
  path_handles = [];
  next_handle = 1;
  free_handles = [];
  max_handles = pos 10;
  closed = [];
}

new_handles-IsAmple : IsAmple 1 new_handles
unfolding new_map
new_handles-IsAmple = record {
  valid = new_map-IsValid (pos 10);
  counted = record { total = omega arith; low = omega arith };
  small = omega arith;
}

root_allocated : Handles.allocate (Handles.node root directory) new_handles ≡ some (1, rooted)
unfolding Handles.allocate Handles.allocate_new Handles.take_handle Handles.bind_handle
    Handles.evict absnfs.MinHeap.pop_min absnfs.Prelude.Assoc.insert absnfs.Prelude.Assoc.delete
root_allocated = refl

rooted-IsAmple : IsAmple 1 rooted
rooted-IsAmple =
    let (h, fm, runs, a) = allocate-IsAmple (Handles.node root directory) new_handles-IsAmple in
    let same : fm ≡ rooted = cc (runs, root_allocated) in subst (IsAmple 1) same a

abbrev exchange : Bool → List ℕ → Exchange Files
exchange read_only body = record { server = server read_only; file_map = rooted; body = body }

abbrev call_of : ℕ → RpcCall
call_of procedure = record {
  header = record {
    xid = 7;
    msg_type = 0;
    rpc_version = 2;
    program = nfs_program;
    version = 3;
    procedure = procedure;
  };
  credential = record { flavor = 0; body = [] };
  verifier = record { flavor = 0; body = [] };
}

abbrev client : AuthContext
client = record {
  client_ip = [];
  client_port = pos 2000;
  credential = record { flavor = 0; body = [] };
  parsed = none;
}

abbrev open_policy : PolicyOptions
open_policy = record { secure = false; allowed_ips = []; squash = [] }

abbrev secure_policy : PolicyOptions
secure_policy = record { secure = true; allowed_ips = []; squash = [] }

abbrev on_time : Timing
on_time = record { draining = false; late_start = false; late_reply = false }

abbrev no_parser : {A : Type 0} → List ℕ → Option A
no_parser s = none

abbrev verifier : List ℕ
verifier = replicate 8 0

-- The name of the file, in the root, as arguments.
abbrev named : List ℕ
named = encode_file_handle 1 ++ (encode_string (b'n' ∷ []) ++ [])

abbrev arrival : ℕ → List ℕ → Arrival
arrival procedure body = record {
  call = call_of procedure;
  body = body;
  context = client;
  timing = on_time;
  admitted = true;
}

-- LOOKUP, REMOVE, and a READ without arguments.
abbrev arrivals : List Arrival
arrivals = arrival 3 named ∷ arrival 12 named ∷ arrival 6 [] ∷ []

exchange-IsGood : IsGood HasValidCaches 1 (exchange false [])
exchange-IsGood = record {
  served = record {
    attrs_valid = new_attr_cache-IsValid (seconds 5) (pos 100);
    listings_valid = tt;
  };
  ample = rooted-IsAmple;
}

receive_all-HasValidCaches_example : IsGood HasValidCaches 1 (
    receive_all no_parser no_parser simple steady_clock verifier open_policy arrivals
      (exchange false []))
receive_all-HasValidCaches_example =
    receive_all-HasValidCaches no_parser no_parser simple steady_clock verifier open_policy 1
      arrivals (exchange false []) exchange-IsGood

receive_all-read_only_example :
    ((receive_all no_parser no_parser simple steady_clock verifier open_policy arrivals
        (exchange true [])).server.files
      ≡ (server true).files)
    × ((receive_all no_parser no_parser simple steady_clock verifier open_policy arrivals
          (exchange true [])).server.read_only
        ≡ true)
receive_all-read_only_example =
    receive_all-read_only no_parser no_parser simple steady_clock verifier open_policy 1 arrivals
      (exchange true []) refl rooted-IsAmple

denied :
    (absnfs.Auth.validate_authentication no_parser no_parser client secure_policy).0.allowed ≡ false
unfolding absnfs.Auth.validate_authentication
denied = refl

readdir_pages_total_example :
    ClientReads
      (note_node ∷ root_node ∷ [])
      (λ k. directory)
      (λ k. verifier)
      (λ k. 4096)
      0
      (map described (note_node ∷ root_node ∷ []))
readdir_pages_total_example =
    readdir_pages_total (note_node ∷ root_node ∷ []) (λ k. directory) (λ k. verifier) (λ k. 4096)
      (λ k. refl)

-- The owner asks for everything on a file that it may read and write.
abbrev owner : Caller
owner = record { uid = 5; gid = 6; aux_gids = []; admitted = true }

abbrev owned : NfsAttrs
owned = record attrs { uid = 5 }

access_allowed-Shows_example :
    Shows true false true true false false (access_allowed owner false owned 63)
unfolding absnfs.Nfs.Attributes.perm_bits
access_allowed-Shows_example = access_allowed-Shows owner false owned 63

good_name : absnfs.Paths.validate_filename (b'n' ∷ []) ≡ absnfs.Paths.nfs_ok
unfolding absnfs.Paths.validate_filename
good_name = refl

abbrev found_node : NfsNode
found_node = record {
  path = note_path;
  attrs = record {
    mode = 420;
    size = pos 3;
    file_id = 2;
    mtime = pos 7;
    atime = pos 7;
    uid = 0;
    gid = 0;
    valid_until = pos 2000000103;
  };
}

note_found :
    (Nodes.lookup simple steady_clock (absnfs.Paths.join root (b'n' ∷ [])) (server false)).0
    ≡ inr found_node
unfolding Nodes.lookup absnfs.Paths.join absnfs.Ops.◌>>=◌ absnfs.Ops.guard
    absnfs.Ops.Caches.check_context absnfs.Ops.Caches.is_done absnfs.Ops.Caches.find_attrs
    Nodes.by_answer absnfs.Cache.Attr.get new_attr_cache absnfs.Cache.Lru.empty Nodes.stat_new
    absnfs.Ops.look absnfs.Ops.recover Nodes.cache_info absnfs.Ops.Caches.now
    absnfs.Ops.Caches.put_attrs absnfs.Ops.pure refresh absnfs.Prelude.Int.◌+ℤ◌
note_found = refl

root_live : node_of (Handles.get 1 rooted) ≡ some (record { path = root; attrs = directory })
unfolding Handles.get
root_live = refl

handle_lookup-found_example :
    (k : ℕ) × (x' : Exchange Files) × (handle_lookup simple steady_clock (exchange false named)
      ≡ (going (replied (write_lookup3resok k found_node.attrs directory)), x'))
    × (node_of (Handles.get k x'.file_map) ≡ some found_node)
    × (k < 2 ^ 64)
handle_lookup-found_example =
    handle_lookup-found simple steady_clock 1 (b'n' ∷ []) []
      (record { path = root; attrs = directory }) found_node (exchange false named) rooted-IsAmple
      (omega arith) (omega arith) refl good_name root_live refl note_found

abbrev note_attrs : NfsAttrs
note_attrs = record {
  mode = 420;
  size = pos 3;
  file_id = 2;
  mtime = pos 7;
  atime = pos 7;
  uid = 0;
  gid = 0;
  valid_until = pos 2000000103;
}

note_asked :
    (Nodes.get_attr simple steady_clock
      (some note_node)
      (Content.read simple steady_clock (some note_node) (pos 1) (pos 9) (server false)).1).0
    ≡ inr note_attrs
unfolding Nodes.get_attr Content.read absnfs.Ops.non_nil absnfs.Ops.◌>>=◌ absnfs.Ops.guard
    absnfs.Ops.Caches.check_context absnfs.Ops.Caches.is_done absnfs.Ops.Caches.find_attrs
    Nodes.by_fresh absnfs.Cache.Attr.get new_attr_cache absnfs.Cache.Lru.empty Nodes.stat_again
    absnfs.Ops.look Nodes.cache_info absnfs.Ops.Caches.now absnfs.Ops.Caches.put_attrs
    absnfs.Ops.pure refresh absnfs.Prelude.Int.◌+ℤ◌ Content.transfer_size Content.read_open
    absnfs.Prelude.Int.◌-ℤ◌
note_asked = refl

-- The handle 1 stands for the file.
abbrev reading : Exchange Files
reading = record {
  server = server false;
  file_map = record rooted {
    handles = (1, Handles.node note_path attrs) ∷ [];
    path_handles = (note_path, 1) ∷ [];
  };
  body = encode_file_handle 1 ++ (encode_uint64 1 ++ (encode_uint32 9 ++ []));
}

note_live : node_of (Handles.get 1 reading.file_map) ≡ some note_node
unfolding Handles.get
note_live = refl

handle_read-content_example :
    (handle_read simple steady_clock owner reading).0
    ≡ going (replied (write_read3resok note_attrs (2 ∷ 3 ∷ []) true))
handle_read-content_example =
    handle_read-content simple steady_clock owner 1 1 9 2 [] (1 ∷ 2 ∷ 3 ∷ []) note_node note_attrs
      reading note-HasContent refl refl note_asked refl (omega arith) (omega arith) (omega arith)
      refl refl note_live
