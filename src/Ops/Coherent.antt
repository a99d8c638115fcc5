-- ===== src/Ops/Coherent.antt =====
-- The attribute cache says what the files say.
pub mod Reads
pub mod Calls
pub mod Confined
pub mod Changes
pub mod Renames
pub mod Settings
use absnfs.Prelude.{
  ℕ, suc, Bool, true, false, not, ◌≡◌, ◌≢◌, refl, sym, ap, ◌∙◌, ◌⊎◌, inl, inr, Option, none, some,
  List, if◌then◌else◌, ◌==◌, bytes_eq, list_beq_iff, Bool-cases, arith,
}
use mathlib.Core.Path.{subst}
use absnfs.Prelude.Int.{ℤ, ◌+ℤ◌}
use absnfs.Attrs.{NfsAttrs, refresh, new_nfs_attrs}
use absnfs.Cache.Lru.{FilePath, peek}
use absnfs.Cache.Attr
use absnfs.Cache.Attr.{CachedAttrs, AttrCache, copy_attrs}
use absnfs.Cache.Attr.Valid as AttrValid
use absnfs.Cache.Attr.Within.{IsWithin, get-IsWithin, put_within, put_negative_within}
use absnfs.Ops.{
  Failure, not_exist, FileInfo, FileSystem, Outside, Server, NfsNode, Op, guard, look, recover,
  fail, pure, ◌>>=◌, continue,
}
use absnfs.Ops.Caches.{
  now, is_done, check_context, find_attrs, put_attrs, put_missing, find_listing, put_listing,
}
use absnfs.Ops.Nodes.{attrs_of, is_not_exist, cache_info, note_missing, stat_new, stat_again}
use absnfs.Ops.Keeps.{Keeps, reading_laws, >>=-Keeps}
use absnfs.Ops.Steady.{IsSteady}

module _ {F H : Type 0} (fs : FileSystem F H) where
  -- A negative entry is of a path that Lstat does not find. Another has the mode, the size and the
  -- time that Lstat answers with.
  abbrev pub IsCurrent : F → FilePath → CachedAttrs → Type 0
  IsCurrent f q v =
      ((v.is_negative ≡ true) × (fs.lstat f q ≡ inl not_exist))
      ⊎ ((a : NfsAttrs) × (info : FileInfo) × (v.is_negative ≡ false)
          × (v.attrs ≡ some a)
          × (fs.lstat f q ≡ inr info)
          × (a.mode ≡ info.mode)
          × (a.size ≡ info.size)
          × (a.mtime ≡ info.mod_time))

  -- The attribute cache is valid, and its entries are current but for the paths of which `P` holds.
  pub record IsCoherentBut (P : FilePath → Type 0) (s : Server F) : Type 0 where
    pub valid : AttrValid.IsValid s.attr_cache
    pub current :
        (q : FilePath) (v : CachedAttrs)
        → ¬ P q
        → peek q s.attr_cache.lru ≡ some v
        → IsCurrent s.files q v

  abbrev pub IsCoherent : Server F → Type 0
  IsCoherent s = IsCoherentBut (λ q. ⊥) s

  module _ {P : FilePath → Type 0} where
    -- A cache within the one before.
    pub within_coherent :
        {s t : Server F}
        → t.files ≡ s.files
        → AttrValid.IsValid t.attr_cache
        → IsWithin s.attr_cache t.attr_cache
        → IsCoherentBut P s
        → IsCoherentBut P t
    within_coherent {s} {t} same w within h = record {
      valid = w;
      current =
          λ q v p k. subst (λ f. IsCurrent f q v) (sym same) (h.current q v p (within.there q v k));
    }

    pub same_coherent :
        {s t : Server F}
        → t.files ≡ s.files
        → t.attr_cache ≡ s.attr_cache
        → IsCoherentBut P s
        → IsCoherentBut P t
    same_coherent {s} {t} same same_cache h = record {
      valid = subst AttrValid.IsValid (sym same_cache) h.valid;
      current = λ q v p k.
          subst (λ f. IsCurrent f q v) (sym same)
            (h.current q v p (subst (λ c. peek q c.lru ≡ some v) same_cache k));
    }

    module _ (o : Outside) where
      pub now-coherent : Keeps (IsCoherentBut P) (now o)
      unfolding now
      now-coherent = record { keep = λ s h. same_coherent refl refl h }

      pub check_context-coherent : Keeps (IsCoherentBut P) (check_context o)
      unfolding check_context is_done
      check_context-coherent =
          >>=-Keeps (record { keep = λ s h. same_coherent refl refl h })
            (λ late. search (reading_laws))

      pub find_attrs-coherent : (p : FilePath) → Keeps (IsCoherentBut P) (find_attrs o p)
      unfolding find_attrs
      find_attrs-coherent p = record {
        keep = λ s h.
            within_coherent refl (AttrValid.get-IsValid p _ _ h.valid) (get-IsWithin p _ _ h.valid)
              h;
      }

      pub find_listing-coherent : (p : FilePath) → Keeps (IsCoherentBut P) (find_listing o p)
      unfolding find_listing
      find_listing-coherent p = record {
        keep = λ s h. same_coherent (ground arith) (ground arith) h;
      }

      pub put_listing-coherent :
          (p : FilePath) (l : List FileInfo) → Keeps (IsCoherentBut P) (put_listing o p l)
      unfolding put_listing
      put_listing-coherent p l = record {
        keep = λ s h. same_coherent (ground arith) (ground arith) h;
      }

      -- What Lstat answered is put.
      pub put_attrs-coherent :
          (p : FilePath) (a : NfsAttrs) (info : FileInfo) (s : Server F)
          → fs.lstat s.files p ≡ inr info
          → a.mode ≡ info.mode
          → a.size ≡ info.size
          → a.mtime ≡ info.mod_time
          → IsCoherentBut P s
          → IsCoherentBut P (put_attrs o p a s).1
      unfolding put_attrs copy_attrs new_nfs_attrs
      put_attrs-coherent p a info s there m z t h = record {
        valid = AttrValid.put-IsValid p a _ h.valid;
        current = λ q v out k. elim (put_within p q a _ v h.valid k) [
          | inr before ↦ h.current q v out before
          | inl (same, e) ↦
              subst (λ r. IsCurrent s.files r v) same
                (subst (λ u. IsCurrent s.files p u) (sym e)
                  (inr (copy_attrs a, info, refl, refl, there, m, z, t)))
        ];
      }

      pub put_missing-coherent :
          (p : FilePath) (s : Server F)
          → fs.lstat s.files p ≡ inl not_exist
          → IsCoherentBut P s
          → IsCoherentBut P (put_missing o p s).1
      unfolding put_missing
      put_missing-coherent p s there h = record {
        valid = AttrValid.put_negative-IsValid p _ h.valid;
        current = λ q v out k. elim (put_negative_within p q _ v h.valid k) [
          | inr before ↦ h.current q v out before
          | inl (same, e) ↦
              subst (λ r. IsCurrent s.files r v) same
                (subst (λ u. IsCurrent s.files p u) (sym e) (inl (refl, there)))
        ];
      }
