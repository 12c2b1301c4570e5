-- ===== src/Kernel/Pages/Remove.antt =====
-- What page_remove of pmap.c does to a page that is mapped.
use damn_os_damn_fs.Prelude.{
  ℕ, ◌+◌, ◌*◌, ◌/◌, ◌%◌, ◌^◌, ◌<◌, ◌≡◌, refl, ap, ◌∙◌, ◌≢◌, ◌⊎◌, false, List, none, some, ◌∷◌, ◌==◌,
  if◌then◌else◌, arith,
}
use damn_os_damn_fs.Kernel.State.{Kernel, ret, at, pte_p}
use damn_os_damn_fs.Kernel.Pages.{
  pdx, ptx, pte_addr, pa2page, pgdir_walk, page_lookup, page_decref, page_remove, put_word,
}
use damn_os_damn_fs.Kernel.Pages.Free.{IsFree, Without, Decref, page_decref-Decref, at_self}

-- The directory `pgdir` has the page table `table` for `va`, whose entry for it is present and leads
-- to page `p`.
pub record IsMapped (s : Kernel) (pgdir va table p : ℕ) : Type 0 where
  pub has_table : s.words pgdir (pdx va) ≢ 0
  pub at_table : s.words pgdir (pdx va) / 4096 ≡ table
  pub present : s.words table (ptx va) % 2 ≡ pte_p
  pub at_page : s.words table (ptx va) / 4096 ≡ p

-- `t` is `s` without the entry `i` of `table`, and with one reference to page `p` less.
pub record Removed (s t : Kernel) (l : List ℕ) (table i p : ℕ) : Type 0 where
  pub entry : t.words table i ≡ 0
  pub words : (q j : ℕ) → (q ≢ table) ⊎ (j ≢ i) → t.words q j ≡ s.words q j
  pub count : t.pp_ref p + 1 ≡ s.pp_ref p
  pub others : (q : ℕ) → q ≢ p → t.pp_ref q ≡ s.pp_ref q
  pub list : IsFree t (if s.pp_ref p == 1 then p ∷ l else l)

lookup-mapped :
    (s : Kernel) (pgdir va table p : ℕ)
    → IsMapped s pgdir va table p
    → page_lookup pgdir va s ≡ ret (some (p, (table, ptx va))) s
unfolding page_lookup pgdir_walk pte_addr pa2page
lookup-mapped s pgdir va table p m =
    let there : (s.words pgdir (pdx va) == 0) ≡ false = ground (arith, m.has_table) in
    let found : s.words pgdir (pdx va) / 4096 * 4096 / 4096 ≡ table = omega (arith, m.at_table) in
    let leads : s.words table (ptx va) / 4096 * 4096 / 4096 ≡ p = omega (arith, m.at_page) in
    rw (there, found, leads) refl

-- an entry of a page set to 0
abbrev cleared : Kernel → ℕ → ℕ → Kernel
cleared u p i = record u { words = at u.words p (at (u.words p) i 0) }

remove-run :
    (s u : Kernel) (pgdir va table p : ℕ)
    → page_lookup pgdir va s ≡ ret (some (p, (table, ptx va))) s
    → page_decref p s ≡ ret tt u
    → page_remove pgdir va s ≡ ret tt (cleared u table (ptx va))
unfolding page_remove put_word
remove-run s u pgdir va table p found dropped = rw (found, dropped) refl

cleared_words :
    (u : Kernel) (p i q j : ℕ) → (q ≢ p) ⊎ (j ≢ i) → (cleared u p i).words q j ≡ u.words q j
cleared_words u p i q j h = ground (arith, h)

cleared-Removed :
    (s u : Kernel) (l : List ℕ) (table i p : ℕ)
    → Decref s u l p
    → Removed s (cleared u table i) l table i p
cleared-Removed s u l table i p d = record {
  entry =
      ap (λ (f : ℕ → ℕ). f i) (at_self u.words table (at (u.words table) i 0))
      ∙ at_self (u.words table) i 0;
  words = λ q j h. cleared_words u table i q j h ∙ ap (λ (f : ℕ → ℕ → ℕ). f q j) d.words;
  count = d.count;
  others = d.others;
  list = record { chain = d.list.chain; distinct = d.list.distinct; unused = d.list.unused };
}

-- Let the free list hold the pages `l`, and let `p` be another page, with references and no link,
-- that is mapped at `va`. Then page_remove does not panic: it clears the entry of `va`, takes one
-- reference to `p` away, and with the last one puts `p` at the front of the list; no other word of
-- memory changes and no other count.
pub page_remove-Removed :
    (s : Kernel) (l : List ℕ) (pgdir va table p : ℕ)
    → IsFree s l
    → Without p l
    → s.pp_link p ≡ none
    → 0 < s.pp_ref p
    → s.pp_ref p < 2 ^ 16
    → IsMapped s pgdir va table p
    → (t : Kernel) × (page_remove pgdir va s ≡ ret tt t) × Removed s t l table (ptx va) p
page_remove-Removed s l pgdir va table p f w k lo hi m =
    let (u, run, d) = page_decref-Decref s l p f w k lo hi in
    (
      cleared u table (ptx va),
      remove-run s u pgdir va table p (lookup-mapped s pgdir va table p m) run,
      cleared-Removed s u l table (ptx va) p d,
    )
