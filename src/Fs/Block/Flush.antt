-- ===== src/Fs/Block/Flush.antt =====
-- The write-back loop of file_flush of damnfs.c.
use damn_os_damn_fs.Prelude.{
  ℕ, zero, suc, ◌+◌, ◌≡◌, refl, ◌∙◌, ◌≢◌, arith, inl, inr, ◌==◌, leb, Bool-cases, ◌||◌,
}
use damn_os_damn_fs.Fs.State.{Image, Fs, ok, ndirect}
use damn_os_damn_fs.Fs.Bitmap.{flush_block, copy_block}
use damn_os_damn_fs.Fs.Block.{slot, flush_from, diskaddr}
use damn_os_damn_fs.Fs.Block.Slots.{IsFile, IsFile-disk}

flush_from-step :
    (k : ℕ) (s : Fs) (ino i : ℕ)
    → IsFile s ino
    → (d : Image) × (flush_from (suc k) ino i s ≡ flush_from k ino (i + 1) (record s { disk = d }))
unfolding flush_from diskaddr flush_block
flush_from-step k s ino i f = elim (Bool-cases (leb ndirect i || slot s ino i == 0)) [
  | inl e ↦ (s.disk, rw e refl)
  | inr e ↦
      let ne : slot s ino i ≢ 0 = ground arith in
      let small = f.in_range i ne in
      (copy_block s.mem s.disk (slot s ino i), ground (arith, small, f.small))
]

-- The write-back changes nothing but the disk.
pub flush_from-ok :
    (k : ℕ) (s : Fs) (ino i : ℕ)
    → IsFile s ino
    → (d : Image) × (flush_from k ino i s ≡ ok tt (record s { disk = d }))
unfolding flush_from
flush_from-ok zero s ino i f = (s.disk, refl)
flush_from-ok (suc k) s ino i f =
    let (d, step) = flush_from-step k s ino i f in
    let (d', run) = flush_from-ok k (record s { disk = d }) ino (i + 1) (IsFile-disk s ino d f) in
    (d', step ∙ run)
