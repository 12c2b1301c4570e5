-- ===== src/Fs/File/Read.antt =====
-- file_read of damnfs.c: the loop returns the bytes of the file at the offset.
use native.Mathlib.Decide.{dec_lt, ℕ_discrete}
use damn_os_damn_fs.Prelude.{
  ℕ, zero, suc, ◌+◌, ◌-◌, ◌*◌, ◌/◌, ◌%◌, ◌≤◌, ◌<◌, ◌≡◌, refl, ◌∙◌, ap, sym, ◌≢◌, List, [], ◌∷◌,
  ◌++◌, get_or, length, arith, ◌⊎◌, inl, inr, length-append, leb, min, true, false,
}
use damn_os_damn_fs.Fs.State.{
  Fs, Res, ok, err, panic, pure, and_then, inode_of, blksize, ndirect, e_inval, e_no_disk,
}
use damn_os_damn_fs.Fs.Block.{slot, file_get_block, EntryPtr, in_ind}
use damn_os_damn_fs.Fs.Block.Slots.{IsFile, GotBlock, GetBlock, file_get_block-GetBlock}
use damn_os_damn_fs.Fs.Dir.{bytes_at}
use damn_os_damn_fs.Fs.File.{chunk, read_loop, file_read}
use damn_os_damn_fs.Fs.File.Content.{
  content, Extends, Extends-trans, Extends-refl, GotBlock-Extends, chunk_bounds, length-bytes_at,
  get_or-bytes_at,
}

-- `l` are the `n` bytes at offset `pos` of file `ino`, and `s'` is `s` but for filled slots.
pub record Took (s : Fs) (ino pos n : ℕ) (l : List ℕ) (s' : Fs) : Type 0 where
  pub extends : Extends s ino s'
  pub bytes : s'.mem.blocks ≡ s.mem.blocks
  pub count : length l ≡ n
  pub filled : (j : ℕ) → j < n → slot s' ino ((pos + j) / blksize) ≢ 0
  pub holds : (j : ℕ) → j < n → get_or l j 0 ≡ content s' ino (pos + j)

-- what a read of `n` bytes at `pos` may do from `s` on
abbrev pub ReadRes : Fs → ℕ → ℕ → ℕ → Res (List ℕ) → Type 0
ReadRes s ino pos n (ok l s') = Took s ino pos n l s'
ReadRes s ino pos n (err e s') =
    Extends s ino s'
    × (((e ≡ e_inval) × (ndirect * blksize < pos + n))
        ⊎ ((e ≡ e_no_disk) × ((j : ℕ) × (j < n) × (slot s ino ((pos + j) / blksize) ≡ 0))))
ReadRes s ino pos n panic = ⊥

pub Took-nil : (s : Fs) (ino pos : ℕ) → IsFile s ino → Took s ino pos 0 [] s
Took-nil s ino pos f = record {
  extends = Extends-refl s ino f;
  bytes = refl;
  count = refl;
  filled = λ j h. absurd (omega arith);
  holds = λ j h. absurd (omega arith);
}

get_or-append_left :
    (xs ys : List ℕ) (i : ℕ) → i < length xs → get_or (xs ++ ys) i 0 ≡ get_or xs i 0
get_or-append_left [] ys i h = absurd (omega arith)
get_or-append_left (x ∷ xs) ys zero h = refl
get_or-append_left (x ∷ xs) ys (suc i) h = get_or-append_left xs ys i (omega arith)

get_or-append_right :
    (xs ys : List ℕ) (i : ℕ) → length xs ≤ i → get_or (xs ++ ys) i 0 ≡ get_or ys (i - length xs) 0
get_or-append_right [] ys i h = ap (λ k. get_or ys k 0) (omega arith)
get_or-append_right (x ∷ xs) ys zero h = absurd (omega arith)
get_or-append_right (x ∷ xs) ys (suc i) h =
    get_or-append_right xs ys i (omega arith) ∙ ap (λ k. get_or ys k 0) (omega arith)

-- One round takes `n` bytes from block `b`, and the later rounds the rest.
module _ (s t u : Fs) (ino pos b n left : ℕ) (l : List ℕ) (g : GotBlock s ino (pos / blksize) b t)
    (fits : pos % blksize + n ≤ blksize) (part : n ≤ left)
    (a : Took t ino (pos + n) (left - n) l u) where
  abbrev first : List ℕ
  first = bytes_at (t.mem.blocks b) (pos % blksize) n

  first_slot : (j : ℕ) → j < n → slot u ino ((pos + j) / blksize) ≡ b
  first_slot j h =
      let same : (pos + j) / blksize ≡ pos / blksize = omega arith in
      let full : slot t ino (pos / blksize) ≢ 0 = λ z. g.block_ne_zero (sym g.in_slot ∙ z) in
      ap (slot u ino) same ∙ a.extends.kept (pos / blksize) full ∙ g.in_slot

  first_holds : (j : ℕ) → j < n → get_or (first ++ l) j 0 ≡ content u ino (pos + j)
  first_holds j h =
      let off : (pos + j) % blksize ≡ pos % blksize + j = omega arith in
      rw (first_slot j h, off)
        (get_or-append_left first l j
            (omega (arith, length-bytes_at (t.mem.blocks b) (pos % blksize) n))
          ∙ get_or-bytes_at (t.mem.blocks b) (pos % blksize) n j h
          ∙ ap (λ (m : ℕ → ℕ → ℕ). m b (pos % blksize + j)) (sym a.bytes))

  later : (j : ℕ) → n ≤ j → pos + n + (j - n) ≡ pos + j
  later j h = omega arith

  later_holds : (j : ℕ) → n ≤ j → j < left → get_or (first ++ l) j 0 ≡ content u ino (pos + j)
  later_holds j h lt =
      let len = length-bytes_at (t.mem.blocks b) (pos % blksize) n in
      get_or-append_right first l j (omega (arith, len))
      ∙ ap (λ k. get_or l (j - k) 0) len
      ∙ a.holds (j - n) (omega arith)
      ∙ ap (content u ino) (later j h)

  Took-append : Took s ino pos left (first ++ l) u
  Took-append = record {
    extends = Extends-trans (GotBlock-Extends g) a.extends;
    bytes = a.bytes ∙ g.bytes;
    count =
        omega (
          arith,
          length-append first l,
          length-bytes_at (t.mem.blocks b) (pos % blksize) n,
          a.count,
        );
    filled = λ j h. elim (dec_lt j n) [
      | yes q ↦ λ z. g.block_ne_zero (sym (first_slot j q) ∙ z)
      | no q ↦ λ z.
          a.filled (j - n) (omega arith)
            (ap (λ k. slot u ino (k / blksize)) (later j (omega arith)) ∙ z)
    ];
    holds =
        λ j h. elim (dec_lt j n) [ yes q ↦ first_holds j q | no q ↦ later_holds j (omega arith) h ];
  }

-- A slot that is empty later was empty before.
still_empty : {s t : Fs} {ino : ℕ} → Extends s ino t → (i : ℕ) → slot t ino i ≡ 0 → slot s ino i ≡ 0
still_empty {s} {t} {ino} e i z = elim (ℕ_discrete (slot s ino i) 0) [
  | yes h ↦ h
  | no h ↦ absurd (h (sym (e.kept i h) ∙ z))
]

then_ReadRes :
    (s t : Fs) (ino pos b n left : ℕ) (r : Res (List ℕ))
    → GotBlock s ino (pos / blksize) b t
    → pos % blksize + n ≤ blksize
    → n ≤ left
    → ReadRes t ino (pos + n) (left - n) r
    → ReadRes s ino pos left
        (and_then r (λ l. pure (bytes_at (t.mem.blocks b) (pos % blksize) n ++ l)))
then_ReadRes s t ino pos b n left (ok l u) g fits part a =
    Took-append s t u ino pos b n left l g fits part a
then_ReadRes s t ino pos b n left (err e u) g fits part (ext, inl (code, far)) =
    (Extends-trans (GotBlock-Extends g) ext, inl (code, omega arith))
then_ReadRes s t ino pos b n left (err e u) g fits part (ext, inr (code, (j, lt, z))) =
    let first = GotBlock-Extends g in
    let at : slot t ino ((pos + (n + j)) / blksize) ≡ 0 =
      ap (λ k. slot t ino (k / blksize)) (omega arith) ∙ z in
    (
      Extends-trans first ext,
      inr (code, (n + j, omega arith, still_empty first ((pos + (n + j)) / blksize) at)),
    )
then_ReadRes s t ino pos b n left panic g fits part none_left = absurd none_left

read_loop-round :
    (k : ℕ) (s t : Fs) (ino pos left b : ℕ)
    → 0 < left
    → file_get_block ino (pos / blksize) s ≡ ok b t
    → read_loop (suc k) ino pos left s
      ≡ and_then
          (read_loop k ino (pos + chunk pos left) (left - chunk pos left) t)
          (λ l. pure (bytes_at (t.mem.blocks b) (pos % blksize) (chunk pos left) ++ l))
unfolding read_loop
read_loop-round k s t ino pos left b h run = ground arith

read_loop-fails :
    (k : ℕ) (s t : Fs) (ino pos left e : ℕ)
    → 0 < left
    → file_get_block ino (pos / blksize) s ≡ err e t
    → read_loop (suc k) ino pos left s ≡ err e t
unfolding read_loop
read_loop-fails k s t ino pos left e h run = ground arith

read_loop-done : (k : ℕ) (s : Fs) (ino pos : ℕ) → read_loop k ino pos 0 s ≡ ok [] s
unfolding read_loop
read_loop-done zero s ino pos = refl
read_loop-done (suc k) s ino pos = refl

step-ReadRes :
    (k : ℕ) (s : Fs) (ino pos left : ℕ) (r : Res ℕ)
    → IsFile s ino
    → 0 < left
    → left ≤ suc k
    → file_get_block ino (pos / blksize) s ≡ r
    → GetBlock s ino (pos / blksize) r
    → ((u : Fs) (pos' rest : ℕ)
        → IsFile u ino
        → rest ≤ k
        → ReadRes u ino pos' rest (read_loop k ino pos' rest u))
    → ReadRes s ino pos left (read_loop (suc k) ino pos left s)
step-ReadRes k s ino pos left (ok b t) f some_left fuel run (small, g) ih =
    let n = chunk pos left in
    let bounds = chunk_bounds pos left in
    rw (read_loop-round k s t ino pos left b some_left run) (
      then_ReadRes s t ino pos b n left (read_loop k ino (pos + n) (left - n) t) g bounds.1 bounds.0
        (ih t (pos + n) (left - n) g.file (omega (arith, bounds.2 some_left))))
step-ReadRes k s ino pos left (err e t) f some_left fuel run (same, inl (code, far)) ih =
    rw (read_loop-fails k s t ino pos left e some_left run, same)
      (Extends-refl s ino f, inl (code, omega arith))
step-ReadRes k s ino pos left (err e t) f some_left fuel run (same, inr (code, z, full)) ih =
    rw (read_loop-fails k s t ino pos left e some_left run, same)
      (
        Extends-refl s ino f,
        inr (code, (0, omega arith, ap (λ k. slot s ino (k / blksize)) (omega arith) ∙ z)),
      )
step-ReadRes k s ino pos left panic f some_left fuel run none_left ih = absurd none_left

pub read_loop-ReadRes :
    (k : ℕ) (s : Fs) (ino pos left : ℕ)
    → IsFile s ino
    → left ≤ k
    → ReadRes s ino pos left (read_loop k ino pos left s)
read_loop-ReadRes k s ino pos zero f fuel = rw (read_loop-done k s ino pos) (Took-nil s ino pos f)
read_loop-ReadRes zero s ino pos (suc left) f fuel = absurd (omega arith)
read_loop-ReadRes (suc k) s ino pos (suc left) f fuel =
    step-ReadRes k s ino pos (suc left) (file_get_block ino (pos / blksize) s) f (omega arith) fuel
      refl (file_get_block-GetBlock s ino (pos / blksize) f)
      (λ u pos' rest g h. read_loop-ReadRes k u ino pos' rest g h)

-- the number of bytes that `file_read` asks for
abbrev pub readable : Fs → ℕ → ℕ → ℕ → ℕ
readable s ino count offset = min count ((inode_of s ino).size - offset)

-- `file_read` on a well-formed file never panics. It returns the bytes of the file from `offset` on,
-- as many as were asked for and stand before the end of the file; empty slots on the way are filled,
-- and no byte changes. It fails only with -E_INVAL, where the size exceeds what the slots can hold,
-- or with -E_NO_DISK, where a slot on the way is empty.
pub file_read-ReadRes :
    (s : Fs) (f : EntryPtr) (count offset : ℕ)
    → IsFile s (in_ind s f)
    → ReadRes s
        (in_ind s f)
        offset
        (readable s (in_ind s f) count offset)
        (file_read f count offset s)
unfolding file_read
file_read-ReadRes s f count offset file = elim (dec_lt offset ((inode_of s (in_ind s f)).size)) [
  | yes h ↦
      let n = readable s (in_ind s f) count offset in
      let test : leb ((inode_of s (in_ind s f)).size) offset ≡ false = ground arith in
      rw test (read_loop-ReadRes n s (in_ind s f) offset n file (omega arith))
  | no h ↦
      let test : leb ((inode_of s (in_ind s f)).size) offset ≡ true = ground arith in
      let nothing : readable s (in_ind s f) count offset ≡ 0 = omega arith in
      rw (test, nothing) (Took-nil s (in_ind s f) offset file)
]
