-- ===== src/Fs/File/RoundTrip.antt =====
-- What file_write of damnfs.c has written, file_read reads back.
use damn_os_damn_fs.Prelude.{
  ℕ, suc, ◌+◌, ◌*◌, ◌/◌, ◌%◌, ◌≤◌, ◌<◌, ◌≡◌, refl, ◌∙◌, ap, ap₂, sym, List, [], ◌∷◌, get_or, length,
  arith, inl, inr, subst,
}
use damn_os_damn_fs.Fs.State.{Fs, Res, ok, err, panic, blksize, ndirect}
use damn_os_damn_fs.Fs.Block.{in_block}
use damn_os_damn_fs.Fs.Block.Slots.{IsFile}
use damn_os_damn_fs.Fs.File.{file_read, file_write}
use damn_os_damn_fs.Fs.File.Read.{ReadRes, readable, file_read-ReadRes}
use damn_os_damn_fs.Fs.File.Write.Whole.{HasEntry, FileWritten, WriteFile}
use damn_os_damn_fs.Fs.File.Write.Total.{file_write-WriteFile}

-- Lists of one length with the same elements are equal.
list_ext :
    (xs ys : List ℕ)
    → length xs ≡ length ys
    → ((i : ℕ) → i < length ys → get_or xs i 0 ≡ get_or ys i 0)
    → xs ≡ ys
list_ext [] [] n h = refl
list_ext [] (y ∷ ys) n h = absurd (omega arith)
list_ext (x ∷ xs) [] n h = absurd (omega arith)
list_ext (x ∷ xs) (y ∷ ys) n h =
    ap₂ ◌∷◌ (h 0 (omega arith)) (list_ext xs ys (omega arith) (λ i lt. h (suc i) (omega arith)))

module _ (s t : Fs) (b j ino offset : ℕ) (buf : List ℕ) (w : FileWritten s b j ino offset buf t)
    (fits : offset + length buf ≤ ndirect * blksize) where
  size_covers : readable t ino (length buf) offset ≡ length buf
  size_covers = ground (arith, w.size)

  read_back : (r : Res (List ℕ)) → ReadRes t ino offset (length buf) r → (u : Fs) × (r ≡ ok buf u)
  read_back (ok l u) k = (u, ap (λ (m : List ℕ). ok m u) (list_ext l buf k.count same))
    where
      same : (i : ℕ) → i < length buf → get_or l i 0 ≡ get_or buf i 0
      same i h =
          k.holds i h
          ∙ ap₂ (λ (m : ℕ → ℕ → ℕ) c. m c ((offset + i) % blksize)) k.bytes
              (k.extends.kept ((offset + i) / blksize) (w.filled i h))
          ∙ w.inside i h
  read_back (err e u) (ext, inl (code, far)) = absurd (omega arith)
  read_back (err e u) (ext, inr (code, (i, lt, z))) = absurd (w.filled i lt z)
  read_back panic none_left = absurd none_left

read_written :
    (s t : Fs) (b j ino offset n : ℕ) (buf : List ℕ)
    → FileWritten s b j ino offset buf t
    → offset + length buf ≤ ndirect * blksize
    → (u : Fs) × (file_read (in_block b j) (length buf) offset t ≡ ok buf u)
read_written s t b j ino offset n buf w fits =
    read_back s t b j ino offset buf w fits (file_read (in_block b j) (length buf) offset t) (
      subst (λ k. ReadRes t ino offset k (file_read (in_block b j) (length buf) offset t))
        (size_covers s t b j ino offset buf w fits)
        (subst
          (λ i.
            ReadRes t i offset (readable t i (length buf) offset)
              (file_read (in_block b j) (length buf) offset t))
          w.entry.leads
          (file_read-ReadRes t (in_block b j) (length buf) offset
            (subst (λ i. IsFile t i) (sym w.entry.leads) w.file))))

-- After a successful `file_write` of a buffer that ends inside the last slot, `file_read` of as many
-- bytes at the same offset returns exactly that buffer.
pub file_read-file_write :
    (s t : Fs) (b j ino offset n : ℕ) (buf : List ℕ)
    → IsFile s ino
    → HasEntry s b j ino
    → offset + length buf ≤ ndirect * blksize
    → file_write (in_block b j) buf offset s ≡ ok n t
    → (u : Fs) × (file_read (in_block b j) (length buf) offset t ≡ ok buf u)
file_read-file_write s t b j ino offset n buf f e fits run =
    let done =
      subst (λ r. WriteFile s b j ino offset buf r) run
        (file_write-WriteFile s b j ino offset buf f e (omega arith)) in
    read_written s t b j ino offset n buf done.1 fits
