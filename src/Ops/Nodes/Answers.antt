-- ===== src/Ops/Nodes/Answers.antt =====
-- What GetAttr answers.
use absnfs.Prelude.{ℕ, suc, false, ◌≡◌, ◌≢◌, refl, ◌⊎◌, inl, inr, some}
use absnfs.Prelude.Int.{ℤ, pos, ◌≤ℤ◌}
use absnfs.Attrs.{NfsAttrs, refresh, is_valid}
use absnfs.Cache.Attr
use absnfs.Cache.Attr.{Found, miss, negative, hit, nil_panic}
use absnfs.Cache.Attr.Laws.{get-hit_stale, get-ne-nil_panic}
use absnfs.Cache.Attr.Valid.{IsValid}
use absnfs.Ops.{Failure, FileInfo, FileSystem, Outside, Server, NfsNode, pure, look, non_nil, ◌>>=◌}
use absnfs.Ops.Caches.{now, find_attrs, put_attrs}
use absnfs.Ops.Nodes.{attrs_of, cache_info, stat_again, by_fresh, get_attr}

-- An answer without its freshness mark.
abbrev pub AgreesWith : NfsNode → ℕ → Failure ⊎ FileInfo → Failure ⊎ NfsAttrs → Type 0
AgreesWith node hash (inl e) r = r ≡ inl e
AgreesWith node hash (inr info) r =
    (t : ℤ) × (r
      ≡ inr (record (attrs_of hash node.attrs.uid node.attrs.gid info) { valid_until = t }))

module _ {F H : Type 0} (fs : FileSystem F H) (o : Outside) (node : NfsNode) where
  abbrev Agrees : Server F → Failure ⊎ NfsAttrs → Type 0
  Agrees s r = AgreesWith node (o.path_hash node.path) (fs.lstat s.files node.path) r

  stat_again-Agrees : (s : Server F) → Agrees s (stat_again fs o node s).0
  unfolding stat_again look cache_info now put_attrs pure refresh ◌>>=◌
  stat_again-Agrees s = go (fs.lstat s.files node.path) refl
    where
      go :
          (r : Failure ⊎ FileInfo)
          → fs.lstat s.files node.path ≡ r
          → AgreesWith node (o.path_hash node.path) r (stat_again fs o node s).0
      go (inl e) k = rw k refl
      go (inr info) k = rw k (_, refl)

  by_fresh-Agrees :
      (t : Server F) (a : Found)
      → a ≢ nil_panic
      → ((b : NfsAttrs) → a ≡ hit b → is_valid (o.clock t.asked) b ≡ false)
      → Agrees t (by_fresh fs o node a t).0
  unfolding by_fresh now ◌>>=◌
  by_fresh-Agrees t miss ok stale = stat_again-Agrees t
  by_fresh-Agrees t negative ok stale = stat_again-Agrees t
  by_fresh-Agrees t nil_panic ok stale = absurd (ok refl)
  by_fresh-Agrees t (hit b) ok stale =
      rw (stale b refl) (stat_again-Agrees (record t { asked = suc t.asked }))

-- GetAttr never answers from the attribute cache, although it looks there first and means to: the
-- copies that the cache hands out have no instant until which they are valid, so they are never
-- fresh. With a valid attribute cache, and a clock that is never before the zero time, GetAttr of a
-- node answers with what Lstat says of its path at that time, with the owner and group that the
-- node has, and fails exactly as Lstat does, whatever the cache holds.
pub get_attr-lstat :
    {F H : Type 0} (fs : FileSystem F H) (o : Outside) (node : NfsNode) (s : Server F)
    → IsValid s.attr_cache
    → ((n : ℕ) → pos 0 ≤ℤ o.clock n)
    → AgreesWith node
        (o.path_hash node.path)
        (fs.lstat s.files node.path)
        (get_attr fs o (some node) s).0
unfolding get_attr non_nil find_attrs ◌>>=◌
get_attr-lstat fs o node s w after =
    by_fresh-Agrees fs o node (find_attrs o node.path s).1
      (Attr.get node.path (o.clock s.asked) (o.clock (suc s.asked)) s.attr_cache).0
      (get-ne-nil_panic node.path _ _ w)
      (λ b e. get-hit_stale node.path _ _ (o.clock (suc (suc s.asked))) s.attr_cache b e (after _))
