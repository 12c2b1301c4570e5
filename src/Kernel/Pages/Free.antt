-- ===== src/Kernel/Pages/Free.antt =====
-- The free list of pages of pmap.c: what page_alloc, page_free and page_decref do to it.
use damn_os_damn_fs.Prelude.{
  ℕ, ◌+◌, ◌-◌, ◌%◌, ◌^◌, ◌<◌, ◌≡◌, refl, sym, ap, subst, ◌∙◌, ◌≢◌, inl, inr, Bool, true, false,
  ◌&&◌, Option, none, some, List, [], ◌∷◌, arith, ◌==◌, if◌then◌else◌, Bool-cases,
}
use damn_os_damn_fs.Kernel.State.{Kernel, Out, ret, at}
use damn_os_damn_fs.Kernel.Pages.{page_alloc, page_free, page_decref}

-- From `head` on, the links lead through the pages of `l`.
unfoldable pub Chain : (ℕ → Option ℕ) → Option ℕ → List ℕ → Type 0
Chain link head [] = head ≡ none
Chain link head (p ∷ l) = (head ≡ some p) × Chain link (link p) l

unfoldable pub Without : ℕ → List ℕ → Type 0
Without p [] = Unit
Without p (q ∷ l) = (p ≢ q) × Without p l

unfoldable pub Distinct : List ℕ → Type 0
unfolding Without
Distinct [] = Unit
Distinct (p ∷ l) = Without p l × Distinct l

unfoldable pub Unused : (ℕ → ℕ) → List ℕ → Type 0
Unused count [] = Unit
Unused count (p ∷ l) = (count p ≡ 0) × Unused count l

-- The free list holds the pages `l`, each once, and nobody refers to them.
pub record IsFree (s : Kernel) (l : List ℕ) : Type 0 where
  pub chain : Chain s.pp_link s.page_free_list l
  pub distinct : Distinct l
  pub unused : Unused s.pp_ref l

pub at_self : {A : Type 0} (f : ℕ → A) (k : ℕ) (v : A) → at f k v k ≡ v
at_self f k v = let same : (k == k) ≡ true = ground arith in rw same refl

at-ne : {A : Type 0} (f : ℕ → A) (k j : ℕ) (v : A) → k ≢ j → at f k v j ≡ f j
at-ne f k j v h = let other : (j == k) ≡ false = ground arith in rw other refl

-- A page that is not on a list may get any link or count.
pub Chain-at :
    (link : ℕ → Option ℕ) (head : Option ℕ) (l : List ℕ) (p : ℕ) (v : Option ℕ)
    → Without p l
    → Chain link head l
    → Chain (at link p v) head l
unfolding Chain Without
Chain-at link head [] p v w c = c
Chain-at link head (q ∷ l) p v w c = (
  c.0,
  subst (λ h. Chain (at link p v) h l) (sym (at-ne link p q v w.0))
      (Chain-at link (link q) l p v w.1 c.1),
)

pub Unused-at :
    (count : ℕ → ℕ) (l : List ℕ) (p n : ℕ) → Without p l → Unused count l → Unused (at count p n) l
unfolding Unused Without
Unused-at count [] p n w u = tt
Unused-at count (q ∷ l) p n w u = (at-ne count p q n w.0 ∙ u.0, Unused-at count l p n w.1 u.1)

-- What page_alloc does while the free list holds `l`.
unfoldable pub Alloc : Bool → Kernel → List ℕ → Out (Option ℕ) → Type 0
Alloc zeroed s [] r = r ≡ ret none s
Alloc zeroed s (p ∷ l) r =
    (t : Kernel) × (r ≡ ret (some p) t)
    × IsFree t l
    × (t.pp_link p ≡ none)
    × (t.pp_ref ≡ s.pp_ref)
    × ((q i : ℕ) → t.words q i ≡ (if zeroed && q == p then 0 else s.words q i))

zeroed_words :
    (zeroed : Bool) (s : Kernel) (p q i : ℕ)
    → (if zeroed then at s.words p (λ j. 0) else s.words) q i
      ≡ (if zeroed && q == p then 0 else s.words q i)
zeroed_words false s p q i = refl
zeroed_words true s p q i = elim (Bool-cases (q == p)) [ inl y ↦ rw y refl | inr n ↦ rw n refl ]

-- Let the free list hold the pages `l`. If there is none, page_alloc returns no page and changes
-- nothing. Otherwise it returns the first page, which is linked nowhere afterwards, and is filled
-- with zeros if that was asked for; the others stay on the list, no count changes, and no other
-- word of memory.
pub page_alloc-Alloc :
    (zeroed : Bool) (s : Kernel) (l : List ℕ) → IsFree s l → Alloc zeroed s l (page_alloc zeroed s)
unfolding Alloc page_alloc Chain Distinct Unused
page_alloc-Alloc zeroed s [] f = rw (f.chain) refl
page_alloc-Alloc zeroed s (p ∷ l) f =
    let t = record s {
      page_free_list = s.pp_link p;
      pp_link = at s.pp_link p none;
      words = if zeroed then at s.words p (λ j. 0) else s.words;
    } in
    (
      t,
      ap
          (λ (o : Option ℕ). elim o as (λ x. Out (Option ℕ)) [
            | none ↦ ret none s
            | some q ↦ ret (some q) (record s {
              page_free_list = s.pp_link q;
              pp_link = at s.pp_link q none;
              words = if zeroed then at s.words q (λ j. 0) else s.words;
            })
          ])
          (f.chain.0),
      record {
        chain = Chain-at s.pp_link (s.pp_link p) l p none f.distinct.0 f.chain.1;
        distinct = f.distinct.1;
        unused = f.unused.1;
      },
      at_self s.pp_link p none,
      refl,
      λ q i. zeroed_words zeroed s p q i,
    )

-- What page_decref does to a page with `n` references.
pub record Decref (s t : Kernel) (l : List ℕ) (p : ℕ) : Type 0 where
  pub count : t.pp_ref p + 1 ≡ s.pp_ref p
  pub others : (q : ℕ) → q ≢ p → t.pp_ref q ≡ s.pp_ref q
  pub words : t.words ≡ s.words
  pub list : IsFree t (if s.pp_ref p == 1 then p ∷ l else l)

-- the state with one reference to `p` less
abbrev taken : ℕ → Kernel → Kernel
taken p s = record s { pp_ref = at s.pp_ref p ((s.pp_ref p + (2 ^ 16 - 1)) % 2 ^ 16) }

-- and with the page at the front of the list
abbrev pub freed : ℕ → Kernel → Kernel
freed p s = record s { pp_link = at s.pp_link p s.page_free_list; page_free_list = some p }

-- Page_free panics unless the page has no references and no link.
page_free-freed :
    (p : ℕ) (s : Kernel) → s.pp_ref p ≡ 0 → s.pp_link p ≡ none → page_free p s ≡ ret tt (freed p s)
unfolding page_free
page_free-freed p s e k = rw (e, k) refl

pub freed-IsFree :
    (s : Kernel) (l : List ℕ) (p : ℕ)
    → IsFree s l
    → Without p l
    → s.pp_ref p ≡ 0
    → IsFree (freed p s) (p ∷ l)
unfolding Chain Distinct Unused
freed-IsFree s l p f w e =
    let link = at s.pp_link p s.page_free_list in
    record {
      chain = (
        refl,
        subst (λ h. Chain link h l) (sym (at_self s.pp_link p s.page_free_list))
            (Chain-at s.pp_link s.page_free_list l p s.page_free_list w f.chain),
      );
      distinct = (w, f.distinct);
      unused = (e, f.unused);
    }

taken-IsFree : (s : Kernel) (l : List ℕ) (p : ℕ) → IsFree s l → Without p l → IsFree (taken p s) l
taken-IsFree s l p f w = record {
  chain = f.chain;
  distinct = f.distinct;
  unused = Unused-at s.pp_ref l p ((s.pp_ref p + (2 ^ 16 - 1)) % 2 ^ 16) w f.unused;
}

page_decref-last :
    (p : ℕ) (s : Kernel)
    → s.pp_ref p ≡ 1
    → s.pp_link p ≡ none
    → page_decref p s ≡ ret tt (freed p (taken p s))
unfolding page_decref
page_decref-last p s e k =
    let zero_left : (s.pp_ref p + (2 ^ 16 - 1)) % 2 ^ 16 ≡ 0 = omega (arith, e) in
    let count = at_self s.pp_ref p ((s.pp_ref p + (2 ^ 16 - 1)) % 2 ^ 16) ∙ zero_left in
    ap (λ (n : ℕ). if n == 0 then page_free p (taken p s) else ret tt (taken p s)) zero_left
    ∙ page_free-freed p (taken p s) count k

page_decref-more :
    (p : ℕ) (s : Kernel)
    → 1 < s.pp_ref p
    → s.pp_ref p < 2 ^ 16
    → page_decref p s ≡ ret tt (taken p s)
unfolding page_decref
page_decref-more p s h k =
    let some_left : ((s.pp_ref p + (2 ^ 16 - 1)) % 2 ^ 16 == 0) ≡ false = ground arith in
    ap (λ (b : Bool). if b then page_free p (taken p s) else ret tt (taken p s)) some_left

-- Let the free list hold the pages `l`, and `p` be another page, with references and no link. Then
-- page_decref does not panic: it takes one reference away, and with the last one puts the page at
-- the front of the list; no other count and no word of memory changes.
pub page_decref-Decref :
    (s : Kernel) (l : List ℕ) (p : ℕ)
    → IsFree s l
    → Without p l
    → s.pp_link p ≡ none
    → 0 < s.pp_ref p
    → s.pp_ref p < 2 ^ 16
    → (t : Kernel) × (page_decref p s ≡ ret tt t) × Decref s t l p
page_decref-Decref s l p f w k lo hi =
    let n = (s.pp_ref p + (2 ^ 16 - 1)) % 2 ^ 16 in
    let less : n + 1 ≡ s.pp_ref p = omega arith in
    let count = ap (λ (m : ℕ). m + 1) (at_self s.pp_ref p n) ∙ less in
    let others = λ (q : ℕ) (h : q ≢ p). at-ne s.pp_ref p q n (λ e. h (sym e)) in
    elim (Bool-cases (s.pp_ref p == 1)) [
      | inl y ↦
          let one : s.pp_ref p ≡ 1 = ground (arith, y) in
          let zero_left : at s.pp_ref p n p ≡ 0 = at_self s.pp_ref p n ∙ omega (arith, less, one) in
          (
            freed p (taken p s),
            page_decref-last p s one k,
            record {
              count = count;
              others = others;
              words = refl;
              list = rw y (freed-IsFree (taken p s) l p (taken-IsFree s l p f w) w zero_left);
            },
          )
      | inr m ↦ (
        taken p s,
        page_decref-more p s (ground (arith, m)) hi,
        record {
          count = count;
          others = others;
          words = refl;
          list = rw m (taken-IsFree s l p f w);
        },
      )
    ]
