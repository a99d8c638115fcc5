-- ===== src/Ops/Requests/Valid.antt =====
-- The caches stay valid under every sequence of requests.
use absnfs.Prelude.{suc, Option, none, some, List}
use absnfs.Attrs.{NfsAttrs}
use absnfs.Cache.Lru.{FilePath}
use absnfs.Cache.Attr.Valid as AttrValid
use absnfs.Cache.Dir.{DirCache}
use absnfs.Cache.Dir.Valid as DirValid
use absnfs.Ops.{FileInfo, FileSystem, Outside, Server}
use absnfs.Ops.Caches.{
  now, is_done, check_context, find_attrs, put_attrs, put_missing, find_listing, put_listing,
  drop_attrs, drop_missing_in, drop_listing, without_listing,
}
use absnfs.Ops.Keeps.{Keeps, reading_laws, >>=-Keeps}
use absnfs.Ops.Changes.{IsRobust}
use absnfs.Ops.Requests.{Request, serve_all, serve_all-keeps, serve-Keeps}

abbrev pub HasValidListings : Option (DirCache FileInfo) → Type 0
HasValidListings none = Unit
HasValidListings (some d) = DirValid.IsValid d

-- Both caches are valid, the second where there is one.
pub record HasValidCaches {F : Type 0} (s : Server F) : Type 0 where
  pub attrs_valid : AttrValid.IsValid s.attr_cache
  pub listings_valid : HasValidListings s.dir_cache

without_listing-IsFine :
    (p : FilePath) (d : Option (DirCache FileInfo))
    → HasValidListings d
    → HasValidListings (without_listing p d)
without_listing-IsFine p none h = h
without_listing-IsFine p (some d) h = DirValid.invalidate-IsValid p h

module _ {F : Type 0} (o : Outside) where
  abbrev IsFine : Server F → Type 0
  IsFine s = HasValidCaches s

  now-Keeps : Keeps IsFine (now o)
  unfolding now
  now-Keeps = record {
    keep = λ s h. record { attrs_valid = h.attrs_valid; listings_valid = h.listings_valid };
  }

  check_context-Keeps : Keeps IsFine (check_context o)
  unfolding check_context is_done
  check_context-Keeps =
      >>=-Keeps
        (record {
          keep = λ s h. record { attrs_valid = h.attrs_valid; listings_valid = h.listings_valid };
        })
        (λ late. search (reading_laws))

  find_attrs-Keeps : (p : FilePath) → Keeps IsFine (find_attrs o p)
  unfolding find_attrs
  find_attrs-Keeps p = record {
    keep = λ s h. record {
      attrs_valid = AttrValid.get-IsValid p (o.clock s.asked) (o.clock (suc s.asked)) h.attrs_valid;
      listings_valid = h.listings_valid;
    };
  }

  put_attrs-Keeps : (p : FilePath) (a : NfsAttrs) → Keeps IsFine (put_attrs o p a)
  unfolding put_attrs
  put_attrs-Keeps p a = record {
    keep = λ s h. record {
      attrs_valid = AttrValid.put-IsValid p a (o.clock s.asked) h.attrs_valid;
      listings_valid = h.listings_valid;
    };
  }

  put_missing-Keeps : (p : FilePath) → Keeps IsFine (put_missing o p)
  unfolding put_missing
  put_missing-Keeps p = record {
    keep = λ s h. record {
      attrs_valid = AttrValid.put_negative-IsValid p (o.clock s.asked) h.attrs_valid;
      listings_valid = h.listings_valid;
    };
  }

  find_listing-Keeps : (p : FilePath) → Keeps IsFine (find_listing o p)
  unfolding find_listing
  find_listing-Keeps p = record { keep = λ s h. go s s.dir_cache h.attrs_valid h.listings_valid }
    where
      go :
          (s : Server F) (d : Option (DirCache FileInfo))
          → AttrValid.IsValid s.attr_cache
          → HasValidListings d
          → IsFine (find_listing o p (record s { dir_cache = d })).1
      go s none a l = record { attrs_valid = a; listings_valid = l }
      go s (some d) a l = record {
        attrs_valid = a;
        listings_valid = DirValid.get-IsValid p (o.clock s.asked) (o.clock (suc s.asked)) l;
      }

  put_listing-Keeps : (p : FilePath) (l : List FileInfo) → Keeps IsFine (put_listing o p l)
  unfolding put_listing
  put_listing-Keeps p entries = record {
    keep = λ s h. go s s.dir_cache h.attrs_valid h.listings_valid;
  }
    where
      go :
          (s : Server F) (d : Option (DirCache FileInfo))
          → AttrValid.IsValid s.attr_cache
          → HasValidListings d
          → IsFine (put_listing o p entries (record s { dir_cache = d })).1
      go s none a l = record { attrs_valid = a; listings_valid = l }
      go s (some d) a l = record {
        attrs_valid = a;
        listings_valid = DirValid.put-IsValid p entries (o.clock s.asked) l;
      }

  module _ {H : Type 0} (fs : FileSystem F H) where
    pub caches-IsRobust : IsRobust fs o IsFine
    unfolding drop_attrs drop_missing_in drop_listing
    caches-IsRobust = record {
      free = record {
        now_keeps = now-Keeps;
        context_keeps = check_context-Keeps;
        find_keeps = find_attrs-Keeps;
        found_keeps = find_listing-Keeps;
        listed_keeps = put_listing-Keeps;
        put_keeps = put_attrs-Keeps;
        missing_keeps = put_missing-Keeps;
      };
      files_change =
          λ s f h. record { attrs_valid = h.attrs_valid; listings_valid = h.listings_valid };
      attrs_drop = λ p. record {
        keep = λ s h. record {
          attrs_valid = AttrValid.invalidate-IsValid p h.attrs_valid;
          listings_valid = h.listings_valid;
        };
      };
      missing_drop = λ p. record {
        keep = λ s h. record {
          attrs_valid = AttrValid.invalidate_negative_in_dir-IsValid p h.attrs_valid;
          listings_valid = h.listings_valid;
        };
      };
      listing_drop = λ p. record {
        keep = λ s h. record {
          attrs_valid = h.attrs_valid;
          listings_valid = without_listing-IsFine p s.dir_cache h.listings_valid;
        };
      };
    }

    -- Whatever the file system and the clock answer, a sequence of requests to a server whose
    -- caches are valid leaves both valid: the map and the access list are in bijection, no bound is
    -- exceeded, and no entry that is not negative has nil attributes.
    pub serve_all-HasValidCaches :
        (rs : List Request) (s : Server F) → HasValidCaches s → HasValidCaches (serve_all fs o rs s)
    serve_all-HasValidCaches rs s h =
        serve_all-keeps fs o (serve-Keeps fs o IsFine caches-IsRobust) rs s h
