-- ===== src/Nfs/Goes.antt =====
-- A procedure goes on where a step succeeds.
use absnfs.Prelude.{ℕ, Bool, true, ◌≡◌, refl, ◌⊎◌, inr, some, List}
use absnfs.FileHandle as Handles
use absnfs.FileHandle.{FileHandleMap}
use absnfs.Attrs.{NfsAttrs}
use absnfs.Xdr.{ok, Decoder}
use absnfs.Ops.{Failure, NfsNode, Op}
use absnfs.Nfs.{
  Answer, Exchange, Step, ◌>>=◌, check, node_or, node_of, lookup_node, decode, decoded, run,
  unpanicked, demand, or_reply, allocate, allocated,
}
use absnfs.FileHandle.{File}

module _ {F A B : Type 0} where
  pub decode_goes :
      (d : Decoder A) (r : Answer) (k : A → Step F B) (x : Exchange F) (a : A) (rest : List ℕ)
      → d x.body ≡ (ok a, rest)
      → (decode d r >>= k) x ≡ k a (record x { body = rest })
  unfolding ◌>>=◌ decode decoded
  decode_goes d r k x a rest e = rw e refl

  pub run_goes :
      (m : Op F A) (k : Failure ⊎ A → Step F B) (x : Exchange F) (a : A)
      → (m x.server).0 ≡ inr a
      → (run m >>= k) x ≡ k (inr a) (record x { server = (m x.server).1 })
  unfolding ◌>>=◌ run unpanicked
  run_goes m k x a e = rw e refl

  pub demand_goes :
      (r : ℕ → List ℕ) (m : Op F A) (k : A → Step F B) (x : Exchange F) (a : A)
      → (m x.server).0 ≡ inr a
      → (demand r m >>= k) x ≡ k a (record x { server = (m x.server).1 })
  unfolding ◌>>=◌ demand run unpanicked or_reply
  demand_goes r m k x a e = rw e refl

module _ {F B : Type 0} where
  pub check_goes :
      (b : Bool) (r : List ℕ) (k : Unit {0} → Step F B) (x : Exchange F)
      → b ≡ true
      → (check b r >>= k) x ≡ k tt x
  unfolding ◌>>=◌ check
  check_goes b r k x e = rw e refl

  pub lookup_node_goes :
      (h : ℕ) (r : List ℕ) (k : NfsNode → Step F B) (x : Exchange F) (n : NfsNode)
      → node_of (Handles.get h x.file_map) ≡ some n
      → (lookup_node h r >>= k) x ≡ k n x
  unfolding ◌>>=◌ lookup_node node_or
  lookup_node_goes h r k x n e = rw e refl

  pub allocate_goes :
      (n : NfsNode) (k : ℕ → Step F B) (x : Exchange F) (h : ℕ) (fm : FileHandleMap NfsAttrs)
      → Handles.allocate (File.node n.path n.attrs) x.file_map ≡ some (h, fm)
      → (allocate n >>= k) x ≡ k h (record x { file_map = fm })
  unfolding ◌>>=◌ allocate allocated
  allocate_goes n k x h fm e = rw e refl
