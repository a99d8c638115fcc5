-- ===== src/Nfs/Keeps.antt =====
-- What a step of a procedure keeps, from what its parts keep.
pub mod Reading
pub mod Changing
pub mod Calls
pub mod Frozen
use absnfs.Prelude.{
  ℕ, Bool, true, false, ◌⊎◌, inl, inr, ◌≡◌, refl, Option, none, some, List, [], ◌∷◌, if◌then◌else◌,
  if_keeps, Option-cases, nat_eq,
}
use absnfs.Prelude.Assoc.{insert}
use absnfs.Attrs.{NfsAttrs}
use absnfs.FileHandle
use absnfs.FileHandle.{File, FileHandleMap, path_of}
use absnfs.FileHandle.Laws.{IsAmple, allocate-IsAmple, replace-IsAmple}
use absnfs.Xdr.{Result, ok, err, Decoder}
use absnfs.Ops.{Failure, nil_dereference, Server, NfsNode, Op}
use absnfs.Ops.Keeps as Ops
use absnfs.Nfs.{
  Answer, Exchange, Outcome, going, answered, stuck, Step, pure, answer, ◌>>=◌, continue, check,
  check_writable, is_read_only, node_or, node_of, lookup_node, store_attrs, with_attrs,
  changed_file, allocated, allocate, decode, decoded, run, unpanicked, or_reply, demand,
}

-- A server of which `J` holds, and handles whose counter is accounted for.
pub record IsGood {F : Type 0} (J : Server F → Type 0) (slack : ℕ) (x : Exchange F) : Type 0 where
  pub served : J x.server
  pub ample : IsAmple slack x.file_map

pub record Keeps {F A : Type 0} (J : Server F → Type 0) (m : Step F A) : Type 0 where
  pub keep : (slack : ℕ) (x : Exchange F) → IsGood J slack x → IsGood J slack (m x).1

changed_file-path : (a : NfsAttrs) (f : File NfsAttrs) → path_of (changed_file a f) ≡ path_of f
changed_file-path a (File.node p old) = path_alone p
  where
    path_alone : (p : List ℕ) → path_of (File.node p a) ≡ path_of (File.node p old)
    path_alone [] = refl
    path_alone (b ∷ p) = refl
changed_file-path a (File.other old) = refl

with_attrs-IsAmple :
    (h : ℕ) (a : NfsAttrs) {slack : ℕ} (fm : FileHandleMap NfsAttrs)
    → IsAmple slack fm
    → IsAmple slack (with_attrs h a fm)
unfolding with_attrs FileHandle.get
with_attrs-IsAmple h a fm k = elim (Option-cases (absnfs.Prelude.Assoc.lookup h fm.handles)) [
  | inl e ↦ rw (e, with_attrs) k
  | inr (f, e) ↦
      rw (e, with_attrs) (replace-IsAmple h (changed_file a f) f k e (changed_file-path a f))
]

module _ {F A : Type 0} where
  unpanicked_same : (r : Failure ⊎ A) (x : Exchange F) → (unpanicked r x).1 ≡ x
  unfolding unpanicked
  unpanicked_same (inl nil_dereference) x = refl
  unpanicked_same (inl e) x = refl
  unpanicked_same (inr a) x = refl

module _ {F : Type 0} {J : Server F → Type 0} where
  module _ {A : Type 0} where
    pub pure-Keeps : (a : A) → Keeps J (pure a)
    unfolding pure
    pure-Keeps a = record { keep = λ n x h. h }

    pub answer-Keeps : (a : Answer) → Keeps J (answer {A = A} a)
    unfolding answer
    answer-Keeps a = record { keep = λ n x h. h }

    pub decode-Keeps : (d : Decoder A) (r : Answer) → Keeps J (decode d r)
    unfolding decode decoded
    decode-Keeps d r = record { keep = λ n x h. go n (d x.body).0 _ (same n x _ h) }
      where
        same :
            (n : ℕ) (x : Exchange F) (b : List ℕ)
            → IsGood J n x
            → IsGood J n (record x { body = b })
        same n x b h = record { served = h.served; ample = h.ample }

        go : (n : ℕ) (v : Result A) (x : Exchange F) → IsGood J n x → IsGood J n (decoded r v x).1
        go n (ok a) x h = h
        go n (err e) x h = h

    pub run-Keeps : {m : Op F A} → Ops.Keeps J m → Keeps J (run m)
    unfolding run
    run-Keeps {m} k = record {
      keep = λ n x h.
          rw (unpanicked_same (m x.server).0 (record x { server = (m x.server).1 }))
            (record { served = k.keep x.server h.served; ample = h.ample });
    }

    pub or_reply-Keeps : (e : ℕ → List ℕ) (r : Failure ⊎ A) → Keeps J (or_reply e r)
    unfolding or_reply
    or_reply-Keeps e (inl x) = record { keep = λ n x h. h }
    or_reply-Keeps e (inr a) = record { keep = λ n x h. h }

    pub if-Keeps :
        (b : Bool) {m k : Step F A} → Keeps J m → Keeps J k → Keeps J (if b then m else k)
    if-Keeps b l r = if_keeps (λ m. Keeps J m) b l r

  pub >>=-Keeps :
      {A B : Type 0} {m : Step F A} {f : A → Step F B}
      → Keeps J m
      → ((a : A) → Keeps J (f a))
      → Keeps J (m >>= f)
  unfolding ◌>>=◌
  >>=-Keeps {A} {B} {m} {f} k l = record { keep = λ n x h. go n (m x) (k.keep n x h) }
    where
      go : (n : ℕ) (r : Outcome A × Exchange F) → IsGood J n r.1 → IsGood J n (continue r.0 f r.1).1
      go n (going a, y) h = (l a).keep n y h
      go n (answered a, y) h = h
      go n (stuck, y) h = h

  pub demand-Keeps :
      {A : Type 0} {m : Op F A} (e : ℕ → List ℕ) → Ops.Keeps J m → Keeps J (demand e m)
  unfolding demand
  demand-Keeps e k = >>=-Keeps (run-Keeps k) (or_reply-Keeps e)

  pub check-Keeps : (b : Bool) (r : List ℕ) → Keeps J (check b r)
  unfolding check
  check-Keeps true r = record { keep = λ n x h. h }
  check-Keeps false r = record { keep = λ n x h. h }

  pub check_writable-Keeps : (r : List ℕ) → Keeps J (check_writable r)
  unfolding check_writable
  check_writable-Keeps r = record {
    keep = λ n x h.
        if_keeps (λ (y : Outcome (Unit {0}) × Exchange F). IsGood J n y.1) x.server.read_only h h;
  }

  pub is_read_only-Keeps : Keeps J is_read_only
  unfolding is_read_only
  is_read_only-Keeps = record { keep = λ n x h. h }

  pub lookup_node-Keeps : (h : ℕ) (r : List ℕ) → Keeps J (lookup_node h r)
  unfolding lookup_node node_or
  lookup_node-Keeps i r = record {
    keep = λ n x h. go n (node_of (FileHandle.get i x.file_map)) x h;
  }
    where
      go :
          (n : ℕ) (p : Option NfsNode) (x : Exchange F)
          → IsGood J n x
          → IsGood J n (node_or r p x).1
      go n none x h = h
      go n (some p) x h = h

  pub store_attrs-Keeps : (h : ℕ) (a : NfsAttrs) → Keeps J (store_attrs h a)
  unfolding store_attrs
  store_attrs-Keeps i a = record {
    keep = λ n x h. record { served = h.served; ample = with_attrs-IsAmple i a x.file_map h.ample };
  }

  pub allocate-Keeps : (node : NfsNode) → Keeps J (allocate node)
  unfolding allocate allocated
  allocate-Keeps p = record { keep = λ n x h. go n x h }
    where
      go : (n : ℕ) (x : Exchange F) → IsGood J n x → IsGood J n (allocate p x).1
      go n x h =
          let (i, fm, runs, k) = allocate-IsAmple (File.node p.path p.attrs) h.ample in
          rw runs (record { served = h.served; ample = k })

  pub ruleset step_laws = (
    pure-Keeps, answer-Keeps, decode-Keeps, or_reply-Keeps, if-Keeps, check-Keeps,
    check_writable-Keeps, is_read_only-Keeps, lookup_node-Keeps, store_attrs-Keeps, allocate-Keeps,
    run-Keeps, demand-Keeps, >>=-Keeps,
  )
