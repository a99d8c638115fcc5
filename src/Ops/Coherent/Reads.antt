-- ===== src/Ops/Coherent/Reads.antt =====
-- Reading keeps the attribute cache coherent, and Lookup answers as Lstat does.
use absnfs.Prelude.{
  suc, true, false, ◌≡◌, ◌≢◌, refl, ◌∙◌, ◌⊎◌, inl, inr, Option, none, some, ◌==◌, [], bytes_eq,
  list_beq_iff, Bool-cases, arith,
}
use absnfs.Prelude.Int.{ℤ, ltb_ℤ}
use absnfs.Attrs.{NfsAttrs, refresh, new_nfs_attrs}
use absnfs.Cache.Lru.{FilePath, peek}
use absnfs.Cache.Attr.{CachedAttrs, copy_attrs}
use absnfs.Cache.Attr.Laws.{get-reply, reply}
use absnfs.Ops.{
  Failure, not_exist, FileInfo, FileSystem, Outside, Server, NfsNode, guard, look, recover, fail,
  pure, ◌>>=◌,
}
use absnfs.Ops.Caches.{now, is_done, check_context, find_attrs, put_attrs, put_missing}
use absnfs.Ops.Nodes.{
  is_not_exist, cache_info, note_missing, stat_new, stat_again, by_answer, lookup,
}
use absnfs.Ops.Keeps.{Keeps}
use absnfs.Ops.Steady.{IsSteady}
use absnfs.Ops.Coherent.{
  IsCurrent, IsCoherentBut, IsCoherent, now-coherent, check_context-coherent, find_attrs-coherent,
  find_listing-coherent, put_listing-coherent, put_attrs-coherent, put_missing-coherent,
  same_coherent,
}

is_not_exist-ok : (e : Failure) → is_not_exist e ≡ true → e ≡ not_exist
is_not_exist-ok e h = ground arith

module _ {F H : Type 0} (fs : FileSystem F H) (o : Outside) where
  -- Which answers of Lookup are those of Lstat: the same error, or a node of that path with its
  -- mode, size and time.
  abbrev pub Matches : FilePath → Failure ⊎ FileInfo → Failure ⊎ NfsNode → Type 0
  Matches p (inl e) r = r ≡ inl e
  Matches p (inr info) r =
      (a : NfsAttrs) × (r ≡ inr (record { path = p; attrs = a }))
      × (a.mode ≡ info.mode)
      × (a.size ≡ info.size)
      × (a.mtime ≡ info.mod_time)

  module _ {P : FilePath → Type 0} where
    stat_again-coherent : (node : NfsNode) → Keeps (IsCoherentBut fs P) (stat_again fs o node)
    unfolding stat_again look cache_info now refresh pure put_attrs ◌>>=◌
    stat_again-coherent node = record { keep = λ s h. go s h (fs.lstat s.files node.path) refl }
      where
        go :
            (s : Server F)
            → IsCoherentBut fs P s
            → (r : Failure ⊎ FileInfo) → fs.lstat s.files node.path ≡ r
            → IsCoherentBut fs P (stat_again fs o node s).1
        go s h (inl e) k = rw k h
        go s h (inr info) k = rw k (
            put_attrs-coherent fs o node.path _ info _ k refl refl refl
              (same_coherent fs refl refl h))

    stat_new-coherent : (p : FilePath) → Keeps (IsCoherentBut fs P) (stat_new fs o p)
    unfolding stat_new look recover note_missing fail cache_info now refresh pure put_attrs
        put_missing ◌>>=◌
    stat_new-coherent p = record { keep = λ s h. go s h (fs.lstat s.files p) refl }
      where
        go :
            (s : Server F)
            → IsCoherentBut fs P s
            → (r : Failure ⊎ FileInfo) → fs.lstat s.files p ≡ r
            → IsCoherentBut fs P (stat_new fs o p s).1
        go s h (inl e) k = elim (Bool-cases (is_not_exist e)) [
          | inl gone ↦
              rw (k, gone)
                (put_missing-coherent fs o p s (k ∙ ground (arith, is_not_exist-ok e gone)) h)
          | inr other ↦ rw (k, other) h
        ]
        go s h (inr info) k =
            rw k
              (put_attrs-coherent fs o p _ info _ k refl refl refl (same_coherent fs refl refl h))

    pub coherent-IsSteady : IsSteady fs o (IsCoherentBut fs P)
    coherent-IsSteady = record {
      now_keeps = now-coherent fs o;
      context_keeps = check_context-coherent fs o;
      find_keeps = find_attrs-coherent fs o;
      found_keeps = find_listing-coherent fs o;
      listed_keeps = put_listing-coherent fs o;
      stat_new_keeps = stat_new-coherent;
      stat_again_keeps = stat_again-coherent;
    }

  stat_new-Matches :
      (p : FilePath) (s : Server F) → Matches p (fs.lstat s.files p) (stat_new fs o p s).0
  unfolding stat_new look recover note_missing fail cache_info now put_attrs put_missing refresh
      pure ◌>>=◌
  stat_new-Matches p s = go (fs.lstat s.files p) refl
    where
      go : (r : Failure ⊎ FileInfo) → fs.lstat s.files p ≡ r → Matches p r (stat_new fs o p s).0
      go (inl e) k = elim (Bool-cases (is_not_exist e)) [
        | inl gone ↦ rw (k, gone) refl
        | inr other ↦ rw (k, other) refl
      ]
      go (inr info) k = rw k (_, refl, refl, refl, refl)

  by_reply-Matches :
      (p : FilePath) (t : Server F) (n : ℤ) (r : Option CachedAttrs)
      → ((v : CachedAttrs) → r ≡ some v → IsCurrent fs t.files p v)
      → Matches p (fs.lstat t.files p) (by_answer fs o p (reply n r) t).0
  unfolding by_answer fail pure copy_attrs new_nfs_attrs
  by_reply-Matches p t n none k = stat_new-Matches p t
  by_reply-Matches p t n (some v) k = elim (Bool-cases (ltb_ℤ n v.expire_at)) [
    | inr late ↦ rw late (stat_new-Matches p t)
    | inl fresh ↦ elim (k v refl) [
      | inl (is_negative, there) ↦ rw (fresh, is_negative, there) refl
      | inr (a, info, is_positive, e, there, m, z, at) ↦
          rw (fresh, is_positive, e, there) (copy_attrs a, refl, m, z, at)
    ]
  ]

-- With a coherent attribute cache, a path that is not empty and a context that is not done, Lookup
-- answers as Lstat does at that time: with the same error, or with a node of that path that has the
-- mode, the size and the modification time that Lstat answers with. It does so from the cache too.
pub lookup-lstat :
    {F H : Type 0} (fs : FileSystem F H) (o : Outside) (p : FilePath) (s : Server F)
    → IsCoherent fs s
    → p ≢ []
    → o.context_done s.asked ≡ false
    → Matches fs o p (fs.lstat s.files p) (lookup fs o p s).0
unfolding lookup guard check_context is_done find_attrs ◌>>=◌
lookup-lstat fs o p s h path in_time =
    let a : (p == []) ≡ false = ground (arith, list_beq_iff p [], path) in
    rw (a, in_time, get-reply)
      (by_reply-Matches fs o p (find_attrs o p (record s { asked = suc s.asked })).1
        (o.clock (suc s.asked)) (peek p s.attr_cache.lru) (λ v k. h.current p v (λ no. no) k))
