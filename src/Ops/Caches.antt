-- ===== src/Ops/Caches.antt =====
-- operations.go: the calls of the caches that its operations make, on the server's state, and the
-- check of the context.
use absnfs.Prelude.{suc, Bool, not, inr, Option, none, some, List}
use absnfs.Prelude.Int.{ℤ}
use absnfs.Attrs.{NfsAttrs}
use absnfs.Cache.Lru.{FilePath}
use absnfs.Cache.Attr
use absnfs.Cache.Attr.{AttrCache, Found}
use absnfs.Cache.Dir
use absnfs.Cache.Dir.{DirCache}
use absnfs.Ops.{timed_out, FileInfo, Outside, Op, guard, ◌>>=◌}

abbrev pub without_listing : FilePath → Option (DirCache FileInfo) → Option (DirCache FileInfo)
without_listing path none = none
without_listing path (some d) = some (Dir.invalidate path d)

module _ {F : Type 0} (o : Outside) where
  -- `time.Now()`.
  unfoldable pub now : Op F ℤ
  now s = (inr (o.clock s.asked), record s { asked = suc s.asked })

  unfoldable pub is_done : Op F Bool
  is_done s = (inr (o.context_done s.asked), record s { asked = suc s.asked })

  -- The `select` at the start of an operation.
  unfoldable pub check_context : Op F (Unit {0})
  check_context = is_done >>= λ late. guard (not late) timed_out

  unfoldable pub find_attrs : FilePath → Op F Found
  find_attrs path s =
      let r = Attr.get path (o.clock s.asked) (o.clock (suc s.asked)) s.attr_cache in
      (inr r.0, record s { attr_cache = r.1; asked = suc (suc s.asked) })

  unfoldable pub put_attrs : FilePath → NfsAttrs → Op F (Unit {0})
  put_attrs path a s = (
    inr tt,
    record s { attr_cache = Attr.put path a (o.clock s.asked) s.attr_cache; asked = suc s.asked },
  )

  unfoldable pub put_missing : FilePath → Op F (Unit {0})
  put_missing path s = (
    inr tt,
    record s {
      attr_cache = Attr.put_negative path (o.clock s.asked) s.attr_cache;
      asked = suc s.asked;
    },
  )

  -- The listing of a directory, if the server has a directory cache that holds it.
  unfoldable pub find_listing : FilePath → Op F (Option (List FileInfo))
  find_listing path s = elim s.dir_cache [
    | none ↦ (inr none, s)
    | some d ↦
        let r = Dir.get path (o.clock s.asked) (o.clock (suc s.asked)) d in
        (inr r.0, record s { dir_cache = some r.1; asked = suc (suc s.asked) })
  ]

  unfoldable pub put_listing : FilePath → List FileInfo → Op F (Unit {0})
  put_listing path l s = elim s.dir_cache [
    | none ↦ (inr tt, s)
    | some d ↦ (
      inr tt,
      record s { dir_cache = some (Dir.put path l (o.clock s.asked) d); asked = suc s.asked },
    )
  ]

module _ {F : Type 0} where
  unfoldable pub drop_attrs : FilePath → Op F (Unit {0})
  drop_attrs path s = (inr tt, record s { attr_cache = Attr.invalidate path s.attr_cache })

  unfoldable pub drop_missing_in : FilePath → Op F (Unit {0})
  drop_missing_in dir s =
      (inr tt, record s { attr_cache = Attr.invalidate_negative_in_dir dir s.attr_cache })

  unfoldable pub drop_listing : FilePath → Op F (Unit {0})
  drop_listing path s = (inr tt, record s { dir_cache = without_listing path s.dir_cache })
