-- ===== src/Descriptor/Dup.antt =====
-- What dup of fd.c does: two descriptors for one open file.
use damn_os_damn_fs.Prelude.{
  ℕ, ◌+◌, ◌<◌, ◌≡◌, refl, sym, ap, ◌∙◌, ◌≢◌, ◌⊎◌, inl, inr, true, false, Option, none, some, List,
  [], ◌∷◌, arith, leb, ◌==◌, Bool-cases,
}
use damn_os_damn_fs.Prelude.{Option-cases}
use damn_os_damn_fs.Prelude.Int.{pos}
use damn_os_damn_fs.Server.{Fd, blank_fd}
use damn_os_damn_fs.Descriptor.{
  maxfd, ok, Process, Call, Dev, at, fd_at, run_close, fd_lookup, dev_lookup, close_device,
  fd_close, close, page_map, dup_fd, dup_pages, dup_found, dup, seek, seek_found, seek_page,
  close_found, fd_close_found,
}

at_self : {A : Type 0} (f : ℕ → A) (k : ℕ) (v : A) → at f k v k ≡ v
at_self f k v = let same : (k == k) ≡ true = ground arith in rw same refl

at-ne : {A : Type 0} (f : ℕ → A) (k j : ℕ) (v : A) → j ≢ k → at f k v j ≡ f j
at-ne f k j v h = let other : (j == k) ≡ false = ground arith in rw other refl

module _ {W : Type 0} where
  -- The device of a closed descriptor takes away the two pages of that descriptor at most.
  pub record Tame (d : Dev W) : Type 0 where
    pub others :
        (f : ℕ → Call W ℕ) (k j : ℕ) (s : Process W)
        → d.dev_close ≡ some f
        → j ≢ k
        → j ≢ maxfd + k
        → (f k s).1.vm j ≡ s.vm j

  unfoldable pub AllTame : List (Dev W) → Type 0
  AllTame [] = Unit
  AllTame (d ∷ tab) = Tame d × AllTame tab

  -- a place that `close` of descriptor `k` leaves alone
  abbrev pub Kept : ℕ → ℕ → Process W → Process W → Type 0
  Kept k j s t = j ≢ k → j ≢ maxfd + k → t.vm j ≡ s.vm j

  run_close-Kept :
      (o : Option (ℕ → Call W ℕ)) (k j : ℕ) (s : Process W)
      → ((f : ℕ → Call W ℕ) → o ≡ some f → Kept k j s (f k s).1)
      → Kept k j s (run_close o k s).1
  unfolding run_close
  run_close-Kept none k j s h a b = at-ne s.vm k j none a
  run_close-Kept (some f) k j s h a b = at-ne (f k s).1.vm k j none a ∙ h f refl a b

  abbrev TameOption : Option (Dev W) → Type 0
  TameOption none = Unit
  TameOption (some d) = Tame d

  close_device-Kept :
      (d : Option (Dev W)) (k j : ℕ) (s : Process W)
      → TameOption d
      → Kept k j s (close_device d k s).1
  unfolding close_device
  close_device-Kept none k j s h a b = at-ne s.vm k j none a
  close_device-Kept (some d) k j s h a b =
      run_close-Kept d.dev_close k j s (λ f e. h.others f k j s e) a b

  dev_lookup-Tame : (tab : List (Dev W)) (id : ℕ) → AllTame tab → TameOption (dev_lookup tab id)
  unfolding dev_lookup AllTame
  dev_lookup-Tame [] id h = tt
  dev_lookup-Tame (x ∷ tab) id h = elim (Bool-cases (x.dev_id == id)) [
    | inl y ↦ rw y h.0
    | inr n ↦ rw n (dev_lookup-Tame tab id h.1)
  ]

  lookup_cases :
      (k : ℕ) (s : Process W) → (fd_lookup (pos k) s ≡ none) ⊎ (fd_lookup (pos k) s ≡ some k)
  unfolding fd_lookup
  lookup_cases k s = elim (Bool-cases (leb maxfd k)) [
    | inl y ↦ inl (rw y refl)
    | inr n ↦ elim (Option-cases (s.vm k)) [
      | inl e ↦ inl (rw (n, e) refl)
      | inr x ↦ inr (rw (n, x.1) refl)
    ]
  ]

  lookup_open :
      (k p : ℕ) (s : Process W) → k < maxfd → s.vm k ≡ some p → fd_lookup (pos k) s ≡ some k
  unfolding fd_lookup
  lookup_open k p s h e = let inside : leb maxfd k ≡ false = ground arith in rw (inside, e) refl

  close-Kept :
      (tab : List (Dev W)) (k j : ℕ) (s : Process W)
      → AllTame tab
      → Kept k j s (close tab (pos k) s).1
  unfolding close close_found fd_close fd_close_found
  close-Kept tab k j s h a b = elim (lookup_cases k s) [
    | inl e ↦ ap (λ o. (close_found tab o s).1.vm j) e
    | inr e ↦
        ap (λ o. (close_found tab o s).1.vm j) e
        ∙ ap (λ o. (fd_close_found tab o k true s).1.vm j) e
        ∙ close_device-Kept (dev_lookup tab (fd_at s k).dev_id) k j s
            (dev_lookup-Tame tab (fd_at s k).dev_id h) a b
  ]

  -- Descriptor `new` of `t` is a second one for what `old` of `s` stands for.
  pub record Dup (s t : Process W) (old new p : ℕ) : Type 0 where
    pub both : (t.vm new ≡ some p) × (t.vm old ≡ some p)
    pub content : (q : ℕ) → s.vm (maxfd + old) ≡ some q → t.vm (maxfd + new) ≡ some q
    pub others : (j : ℕ) → j ≢ new → j ≢ maxfd + new → t.vm j ≡ s.vm j
    pub found : (fd_lookup (pos new) t ≡ some new) × (fd_lookup (pos old) t ≡ some old)
    pub one_offset :
        (off : ℕ) → fd_at (seek (pos new) off t).1 old ≡ record (fd_at t old) { offset = off }

  fd_at-page : (s : Process W) (i p : ℕ) → s.vm i ≡ some p → fd_at s i ≡ s.fd_of p
  fd_at-page s i p e =
      ap (λ (o : Option ℕ). elim o as (λ x. Fd) [ none ↦ blank_fd | some q ↦ s.fd_of q ]) e

  -- `seek` on one of two descriptors with the same page
  seek_shared :
      (t : Process W) (old new p off : ℕ)
      → t.vm new ≡ some p
      → t.vm old ≡ some p
      → fd_lookup (pos new) t ≡ some new
      → fd_at (seek (pos new) off t).1 old ≡ record (fd_at t old) { offset = off }
  unfolding seek seek_found seek_page
  seek_shared t old new p off e f g =
      let u = record t { fd_of = at t.fd_of p (record (t.fd_of p) { offset = off }) } in
      let run : (seek (pos new) off t).1 ≡ u =
        ap (λ o. (seek_found o off t).1) g ∙ ap (λ o. (seek_page o off t).1) e in
      ap (λ v. fd_at v old) run
      ∙ fd_at-page u old p f
      ∙ at_self t.fd_of p (record (t.fd_of p) { offset = off })
      ∙ ap (λ (x : Fd). record x { offset = off }) (sym (fd_at-page t old p f))

  -- the process after the pages are mapped, with the data page or without it
  abbrev one_page : ℕ → ℕ → Process W → Process W
  one_page i new u = record u { vm = at u.vm new (u.vm i) }

  abbrev data_page : ℕ → ℕ → Process W → Process W
  data_page i new u = record u { vm = at u.vm (maxfd + new) (u.vm (maxfd + i)) }

  -- What the mapping of the one page for the descriptor gives.
  one_page-Dup :
      (s u : Process W) (old new p : ℕ)
      → old < maxfd
      → new < maxfd
      → old ≢ new
      → u.vm old ≡ some p
      → ((q : ℕ) → s.vm (maxfd + old) ≡ some q → u.vm (maxfd + new) ≡ some q)
      → ((j : ℕ) → j ≢ new → j ≢ maxfd + new → u.vm j ≡ s.vm j)
      → Dup s (one_page old new u) old new p
  one_page-Dup s u old new p i k ne e c o =
      let t = one_page old new u in
      let at_new : t.vm new ≡ some p = at_self u.vm new (u.vm old) ∙ e in
      let at_old : t.vm old ≡ some p = at-ne u.vm new old (u.vm old) ne ∙ e in
      let found_new = lookup_open new p t k at_new in
      record {
        both = (at_new, at_old);
        content = λ q h. at-ne u.vm new (maxfd + new) (u.vm old) (omega arith) ∙ c q h;
        others = λ j a b. at-ne u.vm new j (u.vm old) a ∙ o j a b;
        found = (found_new, lookup_open old p t i at_old);
        one_offset = λ off. seek_shared t old new p off at_new at_old found_new;
      }

  -- `old` is an open descriptor, and `new` another one, open or not; the devices take away no pages
  -- but those of the descriptor that they close, and `sys_page_map` succeeds. Then `dup` returns
  -- `new`, which has the page of `old`, and its data page if it has one; all other places are as
  -- before, both are found by fd_lookup, and a `seek` on `new` moves the offset of `old`.
  pub dup-Dup :
      (tab : List (Dev W)) (s : Process W) (old new p : ℕ)
      → AllTame tab
      → old < maxfd
      → new < maxfd
      → old ≢ new
      → s.vm old ≡ some p
      → (t : Process W) × (dup (λ a b. none) tab (pos old) new s ≡ (ok new, t)) × Dup s t old new p
  unfolding dup dup_found dup_pages dup_fd page_map
  dup-Dup tab s old new p h i k ne e =
      let u = (close tab (pos new) s).1 in
      let kept = λ (j : ℕ). close-Kept tab new j s h in
      let u_old = kept old ne (omega arith) ∙ e in
      let u_data : u.vm (maxfd + old) ≡ s.vm (maxfd + old) =
        kept (maxfd + old) (omega arith) (omega arith) in
      let run = ap (λ o. dup_found (λ a b. none) tab o new s) (lookup_open old p s i e) in
      elim (Option-cases (u.vm (maxfd + old))) [
        | inl n ↦ (
          one_page old new u,
          run ∙ ap (λ o. dup_pages (λ a b. none) o old new u) n,
          one_page-Dup s u old new p i k ne u_old
              (λ q f. let clash : ◌≡◌ {A = Option ℕ} none (some q) = sym n ∙ (u_data ∙ f) in cc)
              kept,
        )
        | inr (q, f) ↦
            let v = data_page old new u in
            (
              one_page old new v,
              run ∙ ap (λ o. dup_pages (λ a b. none) o old new u) f,
              one_page-Dup s v old new p i k ne
                  (at-ne u.vm (maxfd + new) old (u.vm (maxfd + old)) (omega arith) ∙ u_old)
                  (λ r g. at_self u.vm (maxfd + new) (u.vm (maxfd + old)) ∙ u_data ∙ g)
                  (λ j a b. at-ne u.vm (maxfd + new) j (u.vm (maxfd + old)) b ∙ kept j a b),
            )
      ]
