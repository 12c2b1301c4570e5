-- ===== src/Fs/File/Content.antt =====
-- The bytes of a file, by their offset in it, and one round of the loops of file_read and
-- file_write.
use mathlib.Core.Bool.{false≢true}
use native.Mathlib.Decide.{ℕ_discrete, dec_lt}
use damn_os_damn_fs.Prelude.{
  ℕ, zero, suc, ◌+◌, ◌-◌, ◌/◌, ◌%◌, ◌≤◌, ◌<◌, ◌≡◌, refl, ◌∙◌, ap, ◌≢◌, true, false, ◌&&◌, List, [],
  ◌∷◌, leb, ltb, if◌then◌else◌, get_or, length, arith, inl, inr, Bool-cases, sym, take, drop, subst,
}
use damn_os_damn_fs.Fs.State.{Fs, inode_of, byte, blksize}
use damn_os_damn_fs.Fs.Bitmap.{block_is_free}
use damn_os_damn_fs.Fs.Block.{slot}
use damn_os_damn_fs.Fs.Block.Slots.{IsFile, GotBlock}
use damn_os_damn_fs.Fs.Dir.{bytes_at, write_bytes}
use damn_os_damn_fs.Fs.File.{chunk}

-- the byte at offset `o` of file `ino`
abbrev pub content : Fs → ℕ → ℕ → ℕ
content s ino o = byte s (slot s ino (o / blksize)) (o % blksize)

-- `s'` is `s` but that some empty slots of `ino` may have been filled with free blocks.
pub record Extends (s : Fs) (ino : ℕ) (s' : Fs) : Type 0 where
  pub file : IsFile s' ino
  pub kept : (i : ℕ) → slot s ino i ≢ 0 → slot s' ino i ≡ slot s ino i
  pub fresh :
      (i : ℕ) → slot s ino i ≡ 0 → slot s' ino i ≢ 0 → block_is_free s (slot s' ino i) ≡ true
  pub less_free : (b : ℕ) → block_is_free s' b ≡ true → block_is_free s b ≡ true
  pub size : (inode_of s' ino).size ≡ (inode_of s ino).size
  pub other_inodes : (k : ℕ) → ino ≢ k → inode_of s' k ≡ inode_of s k

pub get_or-drop : (l : List ℕ) (n i : ℕ) → get_or (drop n l) i 0 ≡ get_or l (n + i) 0
get_or-drop l zero i = ap (λ k. get_or l k 0) (omega arith)
get_or-drop [] (suc n) i = refl
get_or-drop (x ∷ l) (suc n) i =
    let e : suc n + i ≡ suc (n + i) = omega arith in rw e (get_or-drop l n i)

pub get_or-take : (l : List ℕ) (n i : ℕ) → i < n → get_or (take n l) i 0 ≡ get_or l i 0
get_or-take l zero i h = absurd (omega arith)
get_or-take [] (suc n) i h = refl
get_or-take (x ∷ l) (suc n) zero h = refl
get_or-take (x ∷ l) (suc n) (suc i) h = get_or-take l n i (omega arith)

pub length-bytes_at : (f : ℕ → ℕ) (o n : ℕ) → length (bytes_at f o n) ≡ n
unfolding bytes_at
length-bytes_at f o zero = refl
length-bytes_at f o (suc n) = ap suc (length-bytes_at f (o + 1) n)

pub get_or-bytes_at : (f : ℕ → ℕ) (o n i : ℕ) → i < n → get_or (bytes_at f o n) i 0 ≡ f (o + i)
unfolding bytes_at
get_or-bytes_at f o zero i h = absurd (omega arith)
get_or-bytes_at f o (suc n) zero h = ap f (omega arith)
get_or-bytes_at f o (suc n) (suc i) h =
    get_or-bytes_at f (o + 1) n i (omega arith) ∙ ap f (omega arith)

pub write_bytes-get :
    (f : ℕ → ℕ) (o : ℕ) (l : List ℕ) (x : ℕ)
    → write_bytes f o l x ≡ (if leb o x && ltb x (o + length l) then get_or l (x - o) 0 else f x)
unfolding write_bytes
write_bytes-get f o [] x = ground arith
write_bytes-get f o (c ∷ l) x = elim (ℕ_discrete x o) [
  | yes e ↦ let z : x - o ≡ 0 = omega arith in rw z (ground arith)
  | no ne ↦ elim (dec_lt x o) [
    | yes h ↦ ground (arith, write_bytes-get f (o + 1) l x)
    | no h ↦
        let z : x - o ≡ suc (x - (o + 1)) = omega arith in
        rw z (ground (arith, write_bytes-get f (o + 1) l x))
  ]
]

-- A round ends at the block's end at most, and takes a byte if there is one.
pub chunk_bounds :
    (pos left : ℕ)
    → (chunk pos left ≤ left)
      × (pos % blksize + chunk pos left ≤ blksize)
      × (0 < left → 0 < chunk pos left)
unfolding chunk
chunk_bounds pos left = omega arith

pub Extends-refl : (s : Fs) (ino : ℕ) → IsFile s ino → Extends s ino s
Extends-refl s ino f = record {
  file = f;
  kept = λ i ne. refl;
  fresh = λ i e ne. absurd (ne e);
  less_free = λ b h. h;
  size = refl;
  other_inodes = λ k ne. refl;
}

pub Extends-trans : {s t u : Fs} {ino : ℕ} → Extends s ino t → Extends t ino u → Extends s ino u
Extends-trans {s} {t} {u} {ino} a b = record {
  file = b.file;
  kept = λ i ne. ground (arith, a.kept i, b.kept i);
  fresh = λ i e ne. elim (ℕ_discrete (slot t ino i) 0) [
    | yes z ↦ a.less_free (slot u ino i) (b.fresh i z ne)
    | no nz ↦ rw (b.kept i nz) (a.fresh i e nz)
  ];
  less_free = λ m h. a.less_free m (b.less_free m h);
  size = b.size ∙ a.size;
  other_inodes = λ k ne. b.other_inodes k ne ∙ a.other_inodes k ne;
}

pub GotBlock-Extends : {s t : Fs} {ino i b : ℕ} → GotBlock s ino i b t → Extends s ino t
GotBlock-Extends {s} {t} {ino} {i} {b} g = record {
  file = g.file;
  kept = λ j ne. elim (ℕ_discrete i j) [
    | yes e ↦
        subst (λ k. slot t ino k ≡ slot s ino k) e
          (g.in_slot ∙ sym (g.kept (λ z. ne (sym (ap (slot s ino) e) ∙ z))))
    | no d ↦ g.other_slots j d
  ];
  fresh = λ j z ne. elim (ℕ_discrete i j) [
    | yes e ↦
        subst (λ k. block_is_free s (slot t ino k) ≡ true) e
          (rw (g.in_slot) (g.fresh (ap (slot s ino) e ∙ z)))
    | no d ↦ absurd (ne (g.other_slots j d ∙ z))
  ];
  less_free = g.less_free;
  size = g.size;
  other_inodes = g.other_inodes;
}

module _ {s t : Fs} {ino : ℕ} (e : Extends s ino t) (c : ℕ) (used : block_is_free s c ≡ false) where
  -- A block in use stays in use, and becomes no block of the file.
  pub Extends-used : block_is_free t c ≡ false
  Extends-used = elim (Bool-cases (block_is_free t c)) [
    | inl h ↦ absurd (false≢true (sym used ∙ e.less_free c h))
    | inr h ↦ h
  ]

  pub Extends-apart : ((i : ℕ) → slot s ino i ≢ c) → (i : ℕ) → slot t ino i ≢ c
  Extends-apart apart i same = elim (ℕ_discrete (slot s ino i) 0) [
    | yes z ↦
        let ne : slot t ino i ≢ 0 = λ w. apart i (z ∙ sym w ∙ same) in
        absurd (false≢true (sym used ∙ ap (block_is_free s) (sym same) ∙ e.fresh i z ne))
    | no nz ↦ apart i (sym (e.kept i nz) ∙ same)
  ]
