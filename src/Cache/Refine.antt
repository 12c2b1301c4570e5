-- ===== src/Cache/Refine.antt =====
-- The block cache implements the memory and the disk of Fs: which pages are in, and which are dirty,
-- does not show.
use damn_os_damn_fs.Prelude.{
  ℕ, ◌≤◌, ◌<◌, ◌≡◌, refl, sym, ap, subst, ◌∙◌, inl, inr, Bool, true, false, ◌||◌, not, some, arith,
  leb, ◌==◌, if◌then◌else◌, Bool-cases,
}
use damn_os_damn_fs.Fs.State.{Fs, Image, ok, disk_blocks}
use damn_os_damn_fs.Fs.Bitmap.{copy_block}
use damn_os_damn_fs.Fs.Bitmap
use damn_os_damn_fs.Cache.{Device, Cache, at, va_is_mapped, va_is_dirty, flush_block}

-- a block as the server sees it: its page, or the block on disk until it is brought in
abbrev pub content : Cache → ℕ → ℕ → ℕ
content c b o = if c.mapped b then c.page b o else c.disk b o

-- The cache stands for the state of the file system, on the blocks behind those of the super block
-- and the inodes; a page that is clean equals its block.
pub record Shows (c : Cache) (s : Fs) : Type 0 where
  pub mem : (b o : ℕ) → 2 ≤ b → content c b o ≡ s.mem.blocks b o
  pub disk : (b o : ℕ) → 2 ≤ b → c.disk b o ≡ s.disk.blocks b o
  pub clean : (b o : ℕ) → c.mapped b ≡ true → c.dirty b ≡ false → c.page b o ≡ c.disk b o

copied :
    (m d : Image) (b n : ℕ)
    → 2 ≤ b
    → (copy_block m d b).blocks n ≡ (if n == b then m.blocks n else d.blocks n)
unfolding copy_block
copied m d b n two =
    let zero_no : b == 0 ≡ false = ground arith in
    let one_no : b == 1 ≡ false = ground arith in rw (zero_no, one_no) refl

-- A block that need not be written stands on disk.
unwritten :
    (c : Cache) (s : Fs) (b o : ℕ)
    → Shows c s
    → 2 ≤ b
    → (not (c.mapped b) || not (c.dirty b)) ≡ true
    → c.disk b o ≡ s.mem.blocks b o
unwritten c s b o h two skip = elim (Bool-cases (c.mapped b)) [
  | inr n ↦ ap (λ (m : Bool). if m then c.page b o else c.disk b o) (sym n) ∙ h.mem b o two
  | inl y ↦
      sym (h.clean b o y (ground (arith, y, skip)))
      ∙ ap (λ (m : Bool). if m then c.page b o else c.disk b o) (sym y)
      ∙ h.mem b o two
]

skipped-Shows :
    (c : Cache) (s : Fs) (b : ℕ)
    → Shows c s
    → 2 ≤ b
    → (not (c.mapped b) || not (c.dirty b)) ≡ true
    → Shows c (record s { disk = copy_block s.mem s.disk b })
skipped-Shows c s b h two skip = record { mem = h.mem; disk = disk; clean = h.clean }
  where
    disk : (n o : ℕ) → 2 ≤ n → c.disk n o ≡ (copy_block s.mem s.disk b).blocks n o
    disk n o k = elim (Bool-cases (n == b)) [
      | inl y ↦
          let same : n ≡ b = ground arith in
          subst (λ m. c.disk m o ≡ s.mem.blocks m o) (sym same) (unwritten c s b o h two skip)
          ∙ ap (λ (t : Bool). (if t then s.mem.blocks n else s.disk.blocks n) o) (sym y)
          ∙ ap (λ f. f o) (sym (copied s.mem s.disk b n two))
      | inr e ↦
          h.disk n o k
          ∙ ap (λ (t : Bool). (if t then s.mem.blocks n else s.disk.blocks n) o) (sym e)
          ∙ ap (λ f. f o) (sym (copied s.mem s.disk b n two))
    ]

abbrev cleaned : Cache → ℕ → Cache
cleaned c b = record c { disk = at c.disk b (c.page b); dirty = at c.dirty b false }

written-Shows :
    (c : Cache) (s : Fs) (b : ℕ)
    → Shows c s
    → 2 ≤ b
    → c.mapped b ≡ true
    → Shows (cleaned c b) (record s { disk = copy_block s.mem s.disk b })
written-Shows c s b h two in_cache = record { mem = mem; disk = disk; clean = clean }
  where
    page_mem : (n o : ℕ) → n ≡ b → c.page n o ≡ s.mem.blocks n o
    page_mem n o e =
        let yes_in : c.mapped n ≡ true = ap c.mapped e ∙ in_cache in
        ap (λ (m : Bool). if m then c.page n o else c.disk n o) (sym yes_in)
        ∙ h.mem n o (omega arith)

    mem : (n o : ℕ) → 2 ≤ n → content (cleaned c b) n o ≡ s.mem.blocks n o
    mem n o k = elim (Bool-cases (n == b)) [
      | inl y ↦
          let same : n ≡ b = ground arith in
          let yes_in : c.mapped n ≡ true = ap c.mapped same ∙ in_cache in
          ap (λ (t : Bool). if t then c.page n o else at c.disk b (c.page b) n o) yes_in
          ∙ page_mem n o same
      | inr e ↦
          ap (λ (t : Bool). if c.mapped n then c.page n o else (if t then c.page b else c.disk n) o)
            e
          ∙ h.mem n o k
    ]

    disk : (n o : ℕ) → 2 ≤ n → (cleaned c b).disk n o ≡ (copy_block s.mem s.disk b).blocks n o
    disk n o k = elim (Bool-cases (n == b)) [
      | inl y ↦
          let same : n ≡ b = ground arith in
          ap (λ (t : Bool). (if t then c.page b else c.disk n) o) y
          ∙ ap (λ m. c.page m o) (sym same)
          ∙ page_mem n o same
          ∙ ap (λ (t : Bool). (if t then s.mem.blocks n else s.disk.blocks n) o) (sym y)
          ∙ ap (λ f. f o) (sym (copied s.mem s.disk b n two))
      | inr e ↦
          ap (λ (t : Bool). (if t then c.page b else c.disk n) o) e
          ∙ h.disk n o k
          ∙ ap (λ (t : Bool). (if t then s.mem.blocks n else s.disk.blocks n) o) (sym e)
          ∙ ap (λ f. f o) (sym (copied s.mem s.disk b n two))
    ]

    clean :
        (n o : ℕ)
        → c.mapped n ≡ true
        → at c.dirty b false n ≡ false
        → c.page n o ≡ at c.disk b (c.page b) n o
    clean n o y z = elim (Bool-cases (n == b)) [
      | inl e ↦ let same : n ≡ b = ground arith in rw e (ap (λ m. c.page m o) same)
      | inr e ↦ rw e (h.clean n o y (ground (arith, e, z)))
    ]

-- Let a cache stand for the memory and the disk of the file system. For a block of the disk that is
-- not one of the first two, when `ide_write` and `sys_page_map` succeed, `flush_block` of the cache
-- returns, though it writes nothing when the block has no page or a clean one, and the cache it
-- leaves stands for what the `flush_block` of the file system leaves, the block copied to the disk.
pub flush_block-Shows :
    (dev : Device) (c : Cache) (s : Fs) (b : ℕ)
    → Shows c s
    → 2 ≤ b
    → b < disk_blocks
    → dev.write_ok b ≡ true
    → dev.map_ok b ≡ true
    → (d : Cache) × (t : Fs) × (flush_block dev b c ≡ some d)
      × (Bitmap.flush_block b s ≡ ok tt t)
      × Shows d t
unfolding flush_block va_is_mapped va_is_dirty Bitmap.flush_block
flush_block-Shows dev c s b h two small w m =
    let inside : leb disk_blocks b ≡ false = ground arith in
    let t = record s { disk = copy_block s.mem s.disk b } in
    elim (Bool-cases (not (c.mapped b) || not (c.dirty b))) [
      | inl skip ↦ (c, t, rw (inside, skip) refl, rw inside refl, skipped-Shows c s b h two skip)
      | inr go ↦ (
        cleaned c b,
        t,
        rw (inside, go, w, m) refl,
        rw inside refl,
        written-Shows c s b h two (ground (arith, go)),
      )
    ]
