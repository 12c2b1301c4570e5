-- ===== src/Kernel/Pages.antt =====
-- Physical pages and page tables: pmap.c.
pub mod Free
pub mod Remove
use damn_os_damn_fs.Prelude.{
  ℕ, zero, suc, ◌+◌, ◌-◌, ◌*◌, ◌/◌, ◌%◌, ◌^◌, bit_or, Bool, true, false, Option, none, some, not,
  ◌==◌, if◌then◌else◌,
}
use damn_os_damn_fs.Kernel.State.{
  Kernel, K, Out, ret, err, panic, user, halted, monitor, pure, fail, and_then, ◌>>=◌, ◌>>◌, get,
  at, pgsize, pte_p, pte_w, pte_u, e_no_mem,
}

-- `PDX`, `PTX` and `PTE_ADDR`
unfoldable pub pdx : ℕ → ℕ
pdx va = va / 2 ^ 22 % 1024

unfoldable pub ptx : ℕ → ℕ
ptx va = va / 2 ^ 12 % 1024

unfoldable pub pte_addr : ℕ → ℕ
pte_addr w = w / 4096 * 4096

-- `page2pa` and `pa2page`
unfoldable pub page2pa : ℕ → ℕ
page2pa p = p * 4096

unfoldable pub pa2page : ℕ → ℕ
pa2page pa = pa / 4096

unfoldable pub put_word : ℕ → ℕ → ℕ → K (Unit {0})
put_word p i w s = ret tt (record s { words = at (s.words) p (at (s.words p) i w) })

unfoldable pub page_alloc : Bool → K (Option ℕ)
page_alloc zeroed s = elim (s.page_free_list) [
  | none ↦ ret none s
  | some p ↦ ret (some p) (record s {
    page_free_list = s.pp_link p;
    pp_link = at (s.pp_link) p none;
    words = if zeroed then at (s.words) p (λ i. 0) else s.words;
  })
]

abbrev pub is_none : Option ℕ → Bool
is_none none = true
is_none (some p) = false

unfoldable pub page_free : ℕ → K (Unit {0})
page_free p s =
    if not (s.pp_ref p == 0)
    then panic
    else if not (is_none (s.pp_link p))
    then panic
    else ret tt
        (record s { pp_link = at (s.pp_link) p (s.page_free_list); page_free_list = some p })

-- `pp_ref` is a `uint16_t`.
unfoldable pub page_decref : ℕ → K (Unit {0})
unfolding page_free
page_decref p s =
    let n = (s.pp_ref p + (2 ^ 16 - 1)) % 2 ^ 16 in
    let t = record s { pp_ref = at (s.pp_ref) p n } in if n == 0 then page_free p t else ret tt t

unfoldable pub page_incref : ℕ → K (Unit {0})
page_incref p s = ret tt (record s { pp_ref = at (s.pp_ref) p ((s.pp_ref p + 1) % 2 ^ 16) })

-- A new page table, entered into the directory.
unfoldable pub new_page_table : ℕ → ℕ → K (Option (ℕ × ℕ))
unfolding page_alloc page_incref put_word pte_addr page2pa pa2page pdx ptx
new_page_table pgdir va = do
  r ← page_alloc true
  elim r [
    | none ↦ pure none
    | some p ↦ do
      page_incref p
      s ← get
      put_word pgdir (pdx va) (bit_or (s.words pgdir (pdx va)) (pte_addr (page2pa p)))
      s ← get
      put_word pgdir (pdx va) (bit_or (bit_or (bit_or (s.words pgdir (pdx va)) pte_p) pte_w) pte_u)
      s ← get
      pure (some (pa2page (pte_addr (s.words pgdir (pdx va))), ptx va))
  ]

-- The entry of `va`, by the page of its page table and the index in it.
unfoldable pub pgdir_walk : ℕ → ℕ → Bool → K (Option (ℕ × ℕ))
unfolding new_page_table pdx ptx pte_addr pa2page
pgdir_walk pgdir va create s =
    if s.words pgdir (pdx va) == 0
    then (if create then new_page_table pgdir va s else ret none s)
    else ret (some (pa2page (pte_addr (s.words pgdir (pdx va))), ptx va)) s

-- The page mapped at `va`, and where its entry stands.
unfoldable pub page_lookup : ℕ → ℕ → K (Option (ℕ × (ℕ × ℕ)))
unfolding pgdir_walk pte_addr pa2page
page_lookup pgdir va = do
  r ← pgdir_walk pgdir va false
  s ← get
  elim r [ none ↦ pure none | some e ↦ pure (some (pa2page (pte_addr (s.words (e.0) (e.1))), e)) ]

-- (`tlb_invalidate` only tells the processor.)
unfoldable pub page_remove : ℕ → ℕ → K (Unit {0})
unfolding page_lookup page_decref put_word
page_remove pgdir va = do
  r ← page_lookup pgdir va
  elim r [ none ↦ pure tt | some l ↦ page_decref (l.0) >> put_word (l.1.0) (l.1.1) 0 ]

unfoldable pub page_insert : ℕ → ℕ → ℕ → ℕ → K (Unit {0})
unfolding pgdir_walk page_incref page_remove put_word pte_addr page2pa
page_insert pgdir p va perm = do
  r ← pgdir_walk pgdir va true
  elim r [
    | none ↦ fail e_no_mem
    | some e ↦ do
      page_incref p
      s ← get
      if pte_addr (s.words (e.0) (e.1)) == 0 then pure tt else page_remove pgdir va
      put_word (e.0) (e.1) (bit_or (bit_or (page2pa p) perm) pte_p)
  ]
