-- ===== src/Ops/Tests/Changes.antt =====
-- Changes of that file system, with the theorems on them.
use absnfs.Prelude.{
  ℕ, ◌+◌, ◌≡◌, ◌≢◌, refl, ap, ◌∙◌, ◌⊎◌, inl, inr, Bool, true, false, Option, none, some, List, [],
  ◌∷◌, take, drop, length, min, ◌==◌, bytes_eq, list_beq_iff, if◌then◌else◌, Bool-cases, arith,
}
use absnfs.Prelude.Int.{ℤ, pos, pos_part, ◌≤ℤ◌}
use absnfs.Prelude.Assoc.{lookup, insert, delete}
use absnfs.Attrs.{NfsAttrs, seconds, zero_time}
use absnfs.Cache.Lru.{FilePath, peek}
use absnfs.Cache.Attr.{new_attr_cache}
use absnfs.Ops.{Failure, not_exist, invalid, FileInfo, FileSystem, Outside, Server, NfsNode}
use absnfs.Ops.Nodes
use absnfs.Ops.Entries
use absnfs.Ops.Coherent.{IsCoherentBut, IsCoherent}
use absnfs.Ops.Coherent.Changes.{create-IsCoherentBut, remove-IsCoherentBut, symlink-IsCoherentBut}
use absnfs.Ops.Coherent.Renames.{IsBelow, IsLocalRename, rename-IsCoherentBut}
use absnfs.Ops.Coherent.Settings.{IsConfinedAt, set_attr-IsCoherentBut}
use absnfs.Ops.Tests.{
  note_node, StoredFile, Files, info_of, move, simple, steady_clock, note_path, server, attrs,
  root_node, other_inserted, other_deleted, other_moded, other_timed, fresh-IsCoherent,
}

abbrev made_path : FilePath
made_path = b'/' ∷ b'm' ∷ []

abbrev made_node : NfsNode
made_node = record {
  path = made_path;
  attrs = record {
    mode = 420;
    size = pos 0;
    file_id = 2;
    mtime = pos 5;
    atime = pos 5;
    uid = 0;
    gid = 0;
    valid_until = pos 2000000104;
  };
}

abbrev linked_node : NfsNode
linked_node = record {
  path = made_path;
  attrs = record made_node.attrs { valid_until = pos 2000000103 };
}

created :
    (Entries.create simple steady_clock (some root_node) (b'm' ∷ []) (some attrs) (server false)).0
    ≡ inr made_node
unfolding Entries.create Entries.create_file absnfs.Ops.◌>>=◌ absnfs.Ops.non_nil absnfs.Ops.guard
    Entries.writable absnfs.Ops.Caches.check_context absnfs.Ops.Caches.is_done Entries.path_in
    absnfs.Paths.sanitize_path absnfs.Paths.clean absnfs.Paths.join absnfs.Paths.has_dot_dot
    absnfs.Ops.call absnfs.Ops.recover absnfs.Ops.Caches.drop_attrs absnfs.Attrs.new_nfs_attrs
    absnfs.Attrs.refresh absnfs.Cache.Attr.copy_attrs absnfs.Cache.Attr.expire absnfs.Cache.Attr.get
    absnfs.Cache.Attr.invalidate absnfs.Cache.Attr.invalidate_negative_in_dir
    absnfs.Cache.Attr.negative_children absnfs.Cache.Attr.put absnfs.Cache.Attr.remove_all
    absnfs.Cache.Attr.touch absnfs.Cache.Lru.make_room absnfs.Cache.Lru.remove
    absnfs.Cache.Lru.remove_from_access_log absnfs.Cache.Lru.store
    absnfs.Cache.Lru.update_access_log absnfs.Ops.Caches.drop_listing
    absnfs.Ops.Caches.drop_missing_in absnfs.Ops.Caches.find_attrs absnfs.Ops.Caches.now
    absnfs.Ops.Caches.put_attrs Entries.drop_new Nodes.by_answer Nodes.cache_info Nodes.lookup
    Nodes.stat_new absnfs.Ops.look absnfs.Ops.pure absnfs.Paths.clean_elements
    absnfs.Paths.join_slash absnfs.Paths.split_slash delete insert absnfs.Prelude.Int.◌+ℤ◌
    new_attr_cache absnfs.Cache.Lru.empty
created = refl

create-IsCoherentBut_example :
    IsCoherent simple
      (Entries.create simple steady_clock
        (some root_node)
        (b'm' ∷ [])
        (some attrs)
        (server false)).1
unfolding absnfs.Paths.join_slash
create-IsCoherentBut_example =
    create-IsCoherentBut simple (λ q. ⊥) steady_clock (λ f. Unit) root_node [] (b'm' ∷ [])
      (some attrs) (server false) made_node refl tt
      (
        λ f k. (tt, λ q out. other_inserted _ q _ f (λ e. out (inr (inl e)))),
        λ file f k. (tt, λ q out. refl),
        λ mode f k. (tt, λ q out. other_moded _ q mode _ f (λ e. out (inr (inl e)))),
      )
      tt fresh-IsCoherent created

removed :
    (Entries.remove simple steady_clock (some root_node) (b'n' ∷ []) (server false)).0 ≡ inr tt
unfolding Entries.remove absnfs.Ops.◌>>=◌ absnfs.Ops.non_nil absnfs.Ops.guard Entries.writable
    absnfs.Ops.Caches.check_context absnfs.Ops.Caches.is_done Entries.path_in
    absnfs.Paths.sanitize_path absnfs.Paths.clean absnfs.Paths.join absnfs.Paths.has_dot_dot
    absnfs.Ops.call absnfs.Ops.recover absnfs.Ops.Caches.drop_attrs absnfs.Attrs.new_nfs_attrs
    absnfs.Attrs.refresh absnfs.Cache.Attr.copy_attrs absnfs.Cache.Attr.expire absnfs.Cache.Attr.get
    absnfs.Cache.Attr.invalidate absnfs.Cache.Attr.invalidate_negative_in_dir
    absnfs.Cache.Attr.negative_children absnfs.Cache.Attr.put absnfs.Cache.Attr.remove_all
    absnfs.Cache.Attr.touch absnfs.Cache.Lru.make_room absnfs.Cache.Lru.remove
    absnfs.Cache.Lru.remove_from_access_log absnfs.Cache.Lru.store
    absnfs.Cache.Lru.update_access_log absnfs.Ops.Caches.drop_listing
    absnfs.Ops.Caches.drop_missing_in absnfs.Ops.Caches.find_attrs absnfs.Ops.Caches.now
    absnfs.Ops.Caches.put_attrs Entries.drop_new Nodes.by_answer Nodes.cache_info Nodes.lookup
    Nodes.stat_new absnfs.Ops.look absnfs.Ops.pure absnfs.Paths.clean_elements
    absnfs.Paths.join_slash absnfs.Paths.split_slash delete insert absnfs.Prelude.Int.◌+ℤ◌
    new_attr_cache absnfs.Cache.Lru.empty
removed = refl

remove-IsCoherentBut_example :
    IsCoherent simple
      (Entries.remove simple steady_clock (some root_node) (b'n' ∷ []) (server false)).1
unfolding absnfs.Paths.join_slash
remove-IsCoherentBut_example =
    remove-IsCoherentBut simple (λ q. ⊥) steady_clock (λ f. Unit) root_node [] (b'n' ∷ [])
      (server false) refl tt (λ f k. (tt, λ q out. other_deleted _ q f (λ e. out (inr (inl e))))) tt
      fresh-IsCoherent removed

linked :
    (Entries.symlink simple steady_clock
      (some root_node)
      (b'm' ∷ [])
      (b'n' ∷ [])
      (some attrs)
      (server false)).0
    ≡ inr linked_node
unfolding Entries.symlink absnfs.Ops.◌>>=◌ absnfs.Ops.non_nil absnfs.Ops.guard Entries.writable
    absnfs.Ops.Caches.check_context absnfs.Ops.Caches.is_done Entries.path_in
    absnfs.Paths.sanitize_path absnfs.Paths.clean absnfs.Paths.join absnfs.Paths.has_dot_dot
    absnfs.Ops.call absnfs.Ops.recover absnfs.Ops.Caches.drop_attrs absnfs.Attrs.new_nfs_attrs
    absnfs.Attrs.refresh absnfs.Cache.Attr.copy_attrs absnfs.Cache.Attr.expire absnfs.Cache.Attr.get
    absnfs.Cache.Attr.invalidate absnfs.Cache.Attr.invalidate_negative_in_dir
    absnfs.Cache.Attr.negative_children absnfs.Cache.Attr.put absnfs.Cache.Attr.remove_all
    absnfs.Cache.Attr.touch absnfs.Cache.Lru.make_room absnfs.Cache.Lru.remove
    absnfs.Cache.Lru.remove_from_access_log absnfs.Cache.Lru.store
    absnfs.Cache.Lru.update_access_log absnfs.Ops.Caches.drop_listing
    absnfs.Ops.Caches.drop_missing_in absnfs.Ops.Caches.find_attrs absnfs.Ops.Caches.now
    absnfs.Ops.Caches.put_attrs Entries.drop_new Nodes.by_answer Nodes.cache_info Nodes.lookup
    Nodes.stat_new absnfs.Ops.look absnfs.Ops.pure absnfs.Paths.clean_elements
    absnfs.Paths.join_slash absnfs.Paths.split_slash delete insert absnfs.Prelude.Int.◌+ℤ◌
    new_attr_cache absnfs.Cache.Lru.empty
linked = refl

symlink-IsCoherentBut_example :
    IsCoherentBut simple
      (λ q. ⊥)
      (Entries.symlink simple steady_clock
        (some root_node)
        (b'm' ∷ [])
        (b'n' ∷ [])
        (some attrs)
        (server false)).1
unfolding absnfs.Paths.join_slash
symlink-IsCoherentBut_example =
    symlink-IsCoherentBut simple (λ q. ⊥) steady_clock (λ f. Unit) root_node [] (b'm' ∷ [])
      (b'n' ∷ []) (some attrs) (server false) linked_node refl tt
      (λ f k. (tt, λ q out. other_inserted _ q _ f (λ e. out (inr (inl e))))) tt fresh-IsCoherent
      linked

moved_elsewhere :
    (p r q : FilePath) (x : Option StoredFile) (f : Files)
    → q ≢ p
    → q ≢ r
    → info_of (lookup q (move p r x f).1) ≡ info_of (lookup q f)
moved_elsewhere p r q none f not_p not_r = refl
moved_elsewhere p r q (some x) f not_p not_r =
    other_inserted r q x (delete p f) not_r ∙ other_deleted p q f not_p

simple-IsLocalRename : IsLocalRename simple
simple-IsLocalRename = record {
  rename_local = λ cs name ds new_name h k i l f q out.
      moved_elsewhere _ _ q (lookup _ f) f (λ e. out (inr (inl e)))
        (λ e. out (inr (inr (inr (inl e)))));
}

renamed :
    (Entries.rename simple steady_clock
      (some root_node)
      (b'n' ∷ [])
      (some root_node)
      (b'm' ∷ [])
      (server false)).0
    ≡ inr tt
unfolding Entries.rename Entries.drop_renamed absnfs.Ops.◌>>=◌ absnfs.Ops.non_nil absnfs.Ops.guard
    Entries.writable absnfs.Ops.Caches.check_context absnfs.Ops.Caches.is_done Entries.path_in
    absnfs.Paths.sanitize_path absnfs.Paths.clean absnfs.Paths.join absnfs.Paths.has_dot_dot
    absnfs.Ops.call absnfs.Ops.recover absnfs.Ops.Caches.drop_attrs absnfs.Attrs.new_nfs_attrs
    absnfs.Attrs.refresh absnfs.Cache.Attr.copy_attrs absnfs.Cache.Attr.expire absnfs.Cache.Attr.get
    absnfs.Cache.Attr.invalidate absnfs.Cache.Attr.invalidate_negative_in_dir
    absnfs.Cache.Attr.negative_children absnfs.Cache.Attr.put absnfs.Cache.Attr.remove_all
    absnfs.Cache.Attr.touch absnfs.Cache.Lru.make_room absnfs.Cache.Lru.remove
    absnfs.Cache.Lru.remove_from_access_log absnfs.Cache.Lru.store
    absnfs.Cache.Lru.update_access_log absnfs.Ops.Caches.drop_listing
    absnfs.Ops.Caches.drop_missing_in absnfs.Ops.Caches.find_attrs absnfs.Ops.Caches.now
    absnfs.Ops.Caches.put_attrs Entries.drop_new Nodes.by_answer Nodes.cache_info Nodes.lookup
    Nodes.stat_new absnfs.Ops.look absnfs.Ops.pure absnfs.Paths.clean_elements
    absnfs.Paths.join_slash absnfs.Paths.split_slash delete insert absnfs.Prelude.Int.◌+ℤ◌
    new_attr_cache absnfs.Cache.Lru.empty
renamed = refl

rename-IsCoherentBut_example :
    IsCoherentBut simple
      (λ q. IsBelow note_path q ⊎ IsBelow made_path q)
      (Entries.rename simple steady_clock
        (some root_node)
        (b'n' ∷ [])
        (some root_node)
        (b'm' ∷ [])
        (server false)).1
unfolding absnfs.Paths.join_slash
rename-IsCoherentBut_example =
    rename-IsCoherentBut simple steady_clock root_node root_node [] [] (b'n' ∷ []) (b'm' ∷ [])
      (server false) simple-IsLocalRename refl refl tt tt fresh-IsCoherent renamed

simple-IsConfinedAt : IsConfinedAt simple (λ f. Unit) (λ q. ⊥) note_path
simple-IsConfinedAt = record {
  sets_mode = λ mode f k. (tt, λ q out. other_moded _ q mode _ f (λ e. out (inl e)));
  sets_owner = λ uid gid f k. (tt, λ q out. refl);
  sets_times = λ atime mtime f k. (tt, λ q out. other_timed _ q mtime _ f (λ e. out (inl e)));
}

abbrev wanted : NfsAttrs
wanted = record attrs { mode = 384; uid = 7; mtime = pos 3 }

set :
    (Nodes.set_attr simple steady_clock (some note_node) (some wanted) (server false)).0
    ≡ inr (record { path = note_path; attrs = record wanted { valid_until = pos 2000000100 } })
unfolding Nodes.set_attr absnfs.Ops.◌>>=◌ absnfs.Ops.non_nil absnfs.Ops.look absnfs.Ops.call
    absnfs.Ops.pure absnfs.Ops.Caches.now absnfs.Ops.Caches.drop_attrs absnfs.Attrs.refresh
    absnfs.Prelude.Int.◌+ℤ◌
set = refl

set_attr-IsCoherentBut_example :
    IsCoherent simple
      (Nodes.set_attr simple steady_clock (some note_node) (some wanted) (server false)).1
set_attr-IsCoherentBut_example =
    set_attr-IsCoherentBut simple steady_clock (λ f. Unit) (λ q. ⊥) note_node (some wanted)
      (server false)
      (record { path = note_path; attrs = record wanted { valid_until = pos 2000000100 } })
      simple-IsConfinedAt tt fresh-IsCoherent set
