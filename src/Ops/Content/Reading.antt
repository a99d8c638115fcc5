-- ===== src/Ops/Content/Reading.antt =====
-- What Read answers for a file whose content is known.
use absnfs.Prelude.{
  ℕ, ◌-◌, ◌≤◌, ◌≡◌, sym, ap, ◌∙◌, true, false, inl, inr, none, some, List, [], take, drop, length,
  leb, min, Bool-cases, arith, take_of_length-le, length-drop, drop_of_length-le,
}
use absnfs.Prelude.Int.{pos, ltb_ℤ, leb_ℤ, ◌-ℤ◌, -ℤ_parts}
use absnfs.Cache.Lru.{FilePath}
use absnfs.Ops.{
  FileInfo, FileSystem, Outside, Server, NfsNode, read_only_access, non_nil, guard, look, pure,
  ◌>>=◌,
}
use absnfs.Ops.Caches.{check_context, is_done}
use absnfs.Ops.Content.{min_ℤ, transfer_size, read_open, read}

-- The file at a path opens, has the size of its content, and ReadAt answers with what there is of
-- the bytes asked for, with no error but io.EOF.
pub record HasContent {F H : Type 0} (fs : FileSystem F H) (f : F) (path : FilePath)
    (bytes : List ℕ) : Type 0 where
  pub file : H
  pub info : FileInfo
  pub opens : fs.open_file read_only_access f path ≡ inr file
  pub known : fs.file_stat f file ≡ inr info
  pub whole : info.size ≡ pos (length bytes)
  pub reads :
      (offset n : ℕ) → fs.read_at f file (pos offset) (pos n) ≡ (take n (drop offset bytes), none)

take-min_rest : (n : ℕ) (bytes : List ℕ) → take (min n (length bytes)) bytes ≡ take n bytes
take-min_rest n bytes = elim (Bool-cases (leb n (length bytes))) [
  | inl fits ↦ ap (λ k. take k bytes) (ground arith)
  | inr beyond ↦
      take_of_length-le (min n (length bytes)) bytes (ground arith)
      ∙ sym (take_of_length-le n bytes (ground arith))
]

min_ℤ_pos : (n m : ℕ) → min_ℤ (pos n) (pos m) ≡ pos (min n m)
min_ℤ_pos n m = ground arith

sub_within : (a b : ℕ) → b ≤ a → pos a -ℤ pos b ≡ pos (a - b)
unfolding ◌-ℤ◌
sub_within a b h = ground arith

-- Read of an open file.
read_open-content :
    {F H : Type 0} (fs : FileSystem F H) (o : Outside) (path : FilePath) (offset n : ℕ)
    (bytes : List ℕ) (s : Server F)
    → (h : HasContent fs s.files path bytes)
    → (read_open fs o h.file (pos (length bytes)) (pos offset) (pos n) s).0
      ≡ inr (take n (drop offset bytes))
unfolding read_open pure look
read_open-content fs o path offset n bytes s h = elim (Bool-cases (leb (length bytes) offset)) [
  | inl behind ↦
      let over : leb_ℤ (pos (length bytes) -ℤ pos offset) (pos 0) ≡ true =
        ground (arith, -ℤ_parts (pos (length bytes)) (pos offset)) in
      rw (over, drop_of_length-le offset bytes (ground arith))
        (ap inr (sym (take_of_length-le n [] (omega arith))))
  | inr within ↦
      let over : leb_ℤ (pos (length bytes) -ℤ pos offset) (pos 0) ≡ false =
        ground (arith, -ℤ_parts (pos (length bytes)) (pos offset)) in
      let left : pos (length bytes) -ℤ pos offset ≡ pos (length (drop offset bytes)) =
        sub_within (length bytes) offset (ground arith) ∙ ap pos (sym (length-drop offset bytes)) in
      rw (over, left, min_ℤ_pos, h.reads) (ap inr (take-min_rest n (drop offset bytes)))
]

-- In a context that is not done, Read of a file with a known content answers with the bytes from
-- the offset on, as many as were asked for, but no more than the transfer size and than there are.
-- Behind the end it answers with no bytes.
pub read-content :
    {F H : Type 0} (fs : FileSystem F H) (o : Outside) (node : NfsNode) (offset count limit : ℕ)
    (bytes : List ℕ) (s : Server F)
    → HasContent fs s.files node.path bytes
    → s.transfer_size ≡ pos limit
    → o.context_done s.asked ≡ false
    → (read fs o (some node) (pos offset) (pos count) s).0
      ≡ inr (take (min count limit) (drop offset bytes))
unfolding read non_nil guard check_context is_done transfer_size look ◌>>=◌
read-content fs o node offset count limit bytes s h l in_time =
    let a : ltb_ℤ (pos offset) (pos 0) ≡ false = ground arith in
    let b : ltb_ℤ (pos count) (pos 0) ≡ false = ground arith in
    let c : min_ℤ (pos count) s.transfer_size ≡ pos (min count limit) =
      rw l (min_ℤ_pos count limit) in
    rw (a, b, in_time, h.opens, h.known, h.whole, c)
      (read_open-content fs o node.path offset (min count limit) bytes _ h)
