-- ===== src/Kernel/Boot.antt =====
-- The set-up of memory in pmap.c: boot_alloc, page_init, and the mappings above UTOP. What the
-- machine has (nvram_read is port I/O) and where the linker puts the kernel are arguments.
use damn_os_damn_fs.Prelude.{
  ℕ, zero, suc, ◌+◌, ◌-◌, ◌*◌, ◌/◌, ◌%◌, ◌^◌, ◌<◌, ◌≡◌, Bool, true, false, ◌&&◌, ◌||◌, not, Option,
  none, some, List, [], ◌∷◌, arith, ltb, leb, ◌==◌, if◌then◌else◌,
}
use damn_os_damn_fs.Prelude.{bit_or}
use damn_os_damn_fs.Kernel.State.{
  Kernel, K, ret, panic, pure, ◌>>=◌, ◌>>◌, get, at, pgsize, pte_p, pte_u, uvpt, utop,
}
use damn_os_damn_fs.Kernel.Pages.{pgdir_walk, put_word, pte_addr, page2pa, pdx}
use damn_os_damn_fs.Kernel.Pages.Free.{
  at_self, Chain-at, Unused-at, Chain, Without, Distinct, Unused, IsFree, freed-IsFree,
}

-- `ROUNDUP (a, PGSIZE)`
unfoldable pub roundup : ℕ → ℕ
roundup a = (a + pgsize - 1) / pgsize * pgsize

-- `boot_alloc (n)`: the address of the memory, and `nextfree` afterwards. `last` is the symbol `end`,
-- and `nextfree` is null before the first call.
unfoldable pub boot_alloc : ℕ → Option ℕ → ℕ → ℕ × ℕ
unfolding roundup
boot_alloc last nextfree n =
    let result : ℕ = elim nextfree [ none ↦ roundup last | some a ↦ a ] in
    (result, if n == 0 then result else roundup (result + n))

-- `npages` and `npages_basemem` of i386_detect_memory, from the two sizes in kilobytes
unfoldable pub detect_memory : ℕ → ℕ → ℕ × ℕ
detect_memory base ext =
    let basemem = base * 1024 / pgsize in
    let extmem = ext * 1024 / pgsize in
    (if extmem == 0 then basemem else 0x100000 / pgsize + extmem, basemem)

-- A page of the kernel, with `n` references, and one that goes to the front of the free list.
abbrev pub kept_page : ℕ → ℕ → Kernel → Kernel
kept_page n i s = record s { pp_ref = at s.pp_ref i n; pp_link = at s.pp_link i none }

abbrev pub spare_page : ℕ → Kernel → Kernel
spare_page i s = record s {
  pp_ref = at s.pp_ref i 0;
  pp_link = at s.pp_link i s.page_free_list;
  page_free_list = some i;
}

-- What page_init does with page `i`. `used` is the number of the first page behind the kernel.
-- (`PGNUM (npages_basemem)` shifts a number of pages, as the code does.)
unfoldable pub init_page : ℕ → ℕ → ℕ → Kernel → Kernel
init_page basemem used i s =
    if i == 0 || i == basemem / 2 ^ 12
    then kept_page 1 i s
    else if ltb i basemem
    then spare_page i s
    else if leb i 256 || ltb i used
    then kept_page ((s.pp_ref i + 1) % 2 ^ 16) i s
    else spare_page i s

-- `for (i = npages-1; i > 0; i--)`, from page `k` down
unfoldable pub page_init_from : ℕ → ℕ → ℕ → Kernel → Kernel
unfolding init_page
page_init_from basemem used zero s = s
page_init_from basemem used (suc i) s =
    page_init_from basemem used i (init_page basemem used (suc i) s)

unfoldable pub page_init : ℕ → ℕ → ℕ → Kernel → Kernel
unfolding page_init_from
page_init npages basemem used s = page_init_from basemem used (npages - 1) s

-- One page of a static mapping. Where there is no memory for a page table, the kernel writes through
-- a null pointer.
unfoldable pub boot_map_page : ℕ → ℕ → ℕ → ℕ → K (Unit {0})
unfolding pgdir_walk put_word pte_addr
boot_map_page pgdir va pa perm = do
  r ← pgdir_walk pgdir va true
  elim r [
    | none ↦ (λ s. panic)
    | some e ↦ put_word (e.0) (e.1) (bit_or (bit_or (pte_addr pa) perm) pte_p)
  ]

-- `for (i = 0; i < size; i += PGSIZE)`, for `k` more pages
unfoldable pub boot_map_pages : ℕ → ℕ → ℕ → ℕ → ℕ → K (Unit {0})
unfolding boot_map_page
boot_map_pages zero pgdir va pa perm = pure tt
boot_map_pages (suc k) pgdir va pa perm = do
  boot_map_page pgdir va pa perm
  boot_map_pages k pgdir (va + pgsize) (pa + pgsize) perm

unfoldable pub boot_map_region : ℕ → ℕ → ℕ → ℕ → ℕ → K (Unit {0})
unfolding boot_map_pages roundup
boot_map_region pgdir va size pa perm = boot_map_pages (roundup size / pgsize) pgdir va pa perm

abbrev pub mmiolim : ℕ
mmiolim = 0xefc00000

-- `mmio_map_region`, with its static `base`; `PTE_PCD | PTE_PWT | PTE_W`
unfoldable pub mmio_map_region : ℕ → ℕ → ℕ → K (ℕ × ℕ)
unfolding boot_map_region roundup
mmio_map_region base pa size = if ltb mmiolim (base + roundup size) then (λ s. panic) else do
  s ← get
  boot_map_region (s.kern_pgdir) base (roundup size) pa 0x1a
  pure (base, base + roundup size)

-- `mem_init`, behind the detection of the memory and up to the switch to the new page directory:
-- the directory maps itself, then the pages, the environments, the kernel's stack and all of
-- memory. The physical addresses of the tables and of the stack are arguments.
unfoldable pub mem_init : ℕ → ℕ → ℕ → ℕ → ℕ → ℕ → K (Unit {0})
unfolding put_word pdx page2pa page_init boot_map_region roundup
mem_init npages basemem used pages envs bootstack = do
  s ← get
  (λ t. ret tt (record t { words = at (t.words) (t.kern_pgdir) (λ i. 0) }))
  put_word (s.kern_pgdir) (pdx uvpt) (bit_or (bit_or (page2pa (s.kern_pgdir)) pte_u) pte_p)
  (λ t. ret tt (page_init npages basemem used (record t { pp_ref = λ p. 0; pp_link = λ p. none })))
  boot_map_region (s.kern_pgdir) 0xef000000 (roundup (npages * 8)) pages 5
  boot_map_region (s.kern_pgdir) utop (2 ^ 22) envs 5
  boot_map_region (s.kern_pgdir) (0xf0000000 - 8 * pgsize) (8 * pgsize) bootstack 3
  boot_map_region (s.kern_pgdir) 0xf0000000 (2 ^ 28 - 1) 0 3

-- the pages that page_init leaves free, from `i` on
unfoldable pub is_spare : ℕ → ℕ → ℕ → Bool
is_spare basemem used i =
    not (i == 0 || i == basemem / 2 ^ 12) && (ltb i basemem || not (leb i 256 || ltb i used))

-- the spare pages from 1 to `k`, in their order, before `l`
unfoldable pub spare : ℕ → ℕ → ℕ → List ℕ → List ℕ
unfolding is_spare
spare basemem used zero l = l
spare basemem used (suc i) l =
    spare basemem used i (if is_spare basemem used (suc i) then suc i ∷ l else l)

-- Every page of the list has a number above `i`.
unfoldable pub Above : ℕ → List ℕ → Type 0
Above i [] = Unit
Above i (p ∷ l) = (i < p) × Above i l

Above-Without : (i : ℕ) (l : List ℕ) → Above i l → Without i l
unfolding Above Without
Above-Without i [] h = tt
Above-Without i (p ∷ l) h = (omega (arith, h.0), Above-Without i l h.1)

Above-weaken : (i : ℕ) (l : List ℕ) → Above (suc i) l → Above i l
unfolding Above
Above-weaken i [] h = tt
Above-weaken i (p ∷ l) h = (omega (arith, h.0), Above-weaken i l h.1)

spare_page-IsFree :
    (i : ℕ) (s : Kernel) (l : List ℕ) → IsFree s l → Without i l → IsFree (spare_page i s) (i ∷ l)
spare_page-IsFree i s l f w =
    let t = record s { pp_ref = at s.pp_ref i 0 } in
    let g : IsFree t l = record {
      chain = f.chain;
      distinct = f.distinct;
      unused = Unused-at s.pp_ref l i 0 w f.unused;
    } in
    freed-IsFree t l i g w (at_self s.pp_ref i 0)

kept_page-IsFree :
    (n i : ℕ) (s : Kernel) (l : List ℕ) → IsFree s l → Without i l → IsFree (kept_page n i s) l
kept_page-IsFree n i s l f w = record {
  chain = Chain-at s.pp_link s.page_free_list l i none w f.chain;
  distinct = f.distinct;
  unused = Unused-at s.pp_ref l i n w f.unused;
}

-- by the three tests of the loop
choose-IsFree :
    (a b c : Bool) (n i : ℕ) (s : Kernel) (l : List ℕ)
    → IsFree s l
    → Without i l
    → IsFree
        (if a
          then kept_page 1 i s
          else if b
          then spare_page i s
          else if c
          then kept_page n i s
          else spare_page i s)
        (if not a && (b || not c) then i ∷ l else l)
choose-IsFree true b c n i s l f w = kept_page-IsFree 1 i s l f w
choose-IsFree false true c n i s l f w = spare_page-IsFree i s l f w
choose-IsFree false false true n i s l f w = kept_page-IsFree n i s l f w
choose-IsFree false false false n i s l f w = spare_page-IsFree i s l f w

Above-step :
    (b : Bool) (i : ℕ) (l : List ℕ) → Above (suc i) l → Above i (if b then suc i ∷ l else l)
unfolding Above
Above-step true i l a = (omega arith, Above-weaken i l a)
Above-step false i l a = Above-weaken i l a

page_init_from-IsFree :
    (basemem used k : ℕ) (s : Kernel) (l : List ℕ)
    → IsFree s l
    → Above k l
    → IsFree (page_init_from basemem used k s) (spare basemem used k l)
unfolding page_init_from spare init_page is_spare
page_init_from-IsFree basemem used zero s l f a = f
page_init_from-IsFree basemem used (suc i) s l f a =
    page_init_from-IsFree basemem used i (init_page basemem used (suc i) s)
      (if is_spare basemem used (suc i) then suc i ∷ l else l)
      (choose-IsFree (suc i == 0 || suc i == basemem / 2 ^ 12) (ltb (suc i) basemem)
        (leb (suc i) 256 || ltb (suc i) used) ((s.pp_ref (suc i) + 1) % 2 ^ 16) (suc i) s l f
        (Above-Without (suc i) l a))
      (Above-step (is_spare basemem used (suc i)) i l a)

-- While no page is on the free list, page_init puts there, in their order and each once, the pages
-- from 1 on that are below the base memory's end, or behind both the first megabyte and the kernel,
-- but not the one whose number is the base memory's number of pages shifted by 12; none of them has
-- a reference.
pub page_init-IsFree :
    (npages basemem used : ℕ) (s : Kernel)
    → s.page_free_list ≡ none
    → IsFree (page_init npages basemem used s) (spare basemem used (npages - 1) [])
unfolding page_init Chain Distinct Unused Above
page_init-IsFree npages basemem used s e =
    page_init_from-IsFree basemem used (npages - 1) s []
      (record { chain = e; distinct = tt; unused = tt }) tt
