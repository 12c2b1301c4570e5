-- ===== src/Cache.antt =====
-- The block cache of damnfs.c: a page for each block of the disk, with the bits of its page table
-- entry. The calls of the kernel and of the disk driver (ide.c is port I/O) succeed or fail.
pub mod Refine
mod Tests
use damn_os_damn_fs.Prelude.{
  ℕ, zero, suc, ◌+◌, ◌-◌, ◌*◌, ◌/◌, ◌%◌, ◌^◌, ◌≤◌, ◌<◌, min, ◌≡◌, refl, sym, ap, ap₂, subst, ◌∙◌,
  ◌≢◌, ◌↔◌, ◌⊎◌, inl, inr, Bool, true, false, ◌&&◌, ◌||◌, not, Option, none, some, List, [], ◌∷◌,
  ◌++◌, append_assoc, append-nil, arith, ltb, leb, ◌==◌, if◌then◌else◌, Bool-cases, ==_iff, length,
  get_or, set, take, drop, replicate, length-append, length-set, length-replicate, get_or-set_self,
  get_or-set_ne, codes, fun_ext,
}
use damn_os_damn_fs.Fs.State.{disk_blocks}
use damn_os_damn_fs.Fs.Bitmap.{is_free}

-- what sys_page_alloc, ide_read, sys_page_map and ide_write answer, for each block
pub record Device : Type 0 where
  pub page_ok : ℕ → Bool
  pub read_ok : ℕ → Bool
  pub map_ok : ℕ → Bool
  pub write_ok : ℕ → Bool

-- `PTE_P` and `PTE_D` of the page of each block, the pages, and the blocks on disk; and the number
-- of blocks and the bitmap of the super block, once `super` is set.
pub record Cache : Type 0 where
  pub mapped : ℕ → Bool
  pub dirty : ℕ → Bool
  pub page : ℕ → ℕ → ℕ
  pub disk : ℕ → ℕ → ℕ
  pub super : Option (ℕ × List ℕ)

-- a function changed at one argument
abbrev pub at : {A : Type 0} → (ℕ → A) → ℕ → A → ℕ → A
at f b v n = if n == b then v else f n

unfoldable pub va_is_mapped : Cache → ℕ → Bool
va_is_mapped c b = c.mapped b

unfoldable pub va_is_dirty : Cache → ℕ → Bool
va_is_dirty c b = c.dirty b

-- `super && blockno >= super->blk_num`
unfoldable pub beyond : Option (ℕ × List ℕ) → ℕ → Bool
beyond none b = false
beyond (some (n, ocp)) b = leb n b

-- `super && block_is_free (blockno)`
unfoldable pub marked_free : Option (ℕ × List ℕ) → ℕ → Bool
unfolding is_free
marked_free none b = false
marked_free (some (n, ocp)) b = if leb n b then false else is_free ocp b

-- A page fault at block `b`; `none` is a panic.
unfoldable pub bc_pgfault : Device → ℕ → Cache → Option Cache
unfolding beyond marked_free
bc_pgfault dev b c =
    if leb disk_blocks b || beyond c.super b
    then none
    else if not (dev.page_ok b) || (not (dev.read_ok b) || not (dev.map_ok b))
    then none
    else if marked_free c.super b
    then none
    else some (record c {
      mapped = at c.mapped b true;
      dirty = at c.dirty b false;
      page = at c.page b (c.disk b);
    })

-- An access: the page is there, or is brought in first.
unfoldable pub touch : Device → ℕ → Cache → Option Cache
unfolding bc_pgfault va_is_mapped
touch dev b c = if va_is_mapped c b then some c else bc_pgfault dev b c

-- A byte is stored, and the processor marks the page dirty.
unfoldable pub write_byte : Device → ℕ → ℕ → ℕ → Cache → Option Cache
unfolding touch
write_byte dev b o v c = elim (touch dev b c) [
  | none ↦ none
  | some t ↦ some (record t { dirty = at t.dirty b true; page = at t.page b (at (t.page b) o v) })
]

unfoldable pub flush_block : Device → ℕ → Cache → Option Cache
unfolding va_is_mapped va_is_dirty
flush_block dev b c =
    if leb disk_blocks b
    then none
    else if not (va_is_mapped c b) || not (va_is_dirty c b)
    then some c
    else if not (dev.write_ok b) || not (dev.map_ok b)
    then none
    else some (record c { disk = at c.disk b (c.page b); dirty = at c.dirty b false })
