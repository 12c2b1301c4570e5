-- ===== src/User/Fault.antt =====
-- What pgfault of fork.c makes of a page that is copied on write.
use damn_os_damn_fs.Prelude.{ℕ, ◌≡◌, refl, sym, ap, ◌∙◌, ◌≢◌, true, false, ◌&&◌, not, none, some}
use damn_os_damn_fs.Descriptor.{ok, at}
use damn_os_damn_fs.User.{
  pte_cow, pte_wup, fec_wr, pftemp, Entry, unmapped, self, Spaces, Answers, has, put_entry,
  copy_page, pgfault,
}
use damn_os_damn_fs.User.Entries.{IsWilling, at_here, at_there, mapping, if_false, and_false}

-- What pgfault leaves for page `pn`, when the kernel gives it page `p`.
pub record Copied (s t : Spaces) (pn p : ℕ) : Type 0 where
  pub own : t.uvpt pn ≡ record { page = p; perm = pte_wup }
  pub contents : (i : ℕ) → t.words p i ≡ s.words ((s.uvpt pn).page) i
  pub kept : (q i : ℕ) → q ≢ p → t.words q i ≡ s.words q i
  pub others : (q : ℕ) → q ≢ pn → q ≢ pftemp → t.uvpt q ≡ s.uvpt q
  pub no_temp : t.uvpt pftemp ≡ unmapped
  pub theirs : t.theirs ≡ s.theirs

-- Let every call succeed, let the kernel give the page `p`, which is not the one mapped at `pn`, for
-- PFTEMP, and let page `pn`, which is not PFTEMP, be marked copy-on-write. Then pgfault for a write
-- there does not panic: the process has `p` there, writable and with the words of the old page; no
-- word of another page changes, nor another entry but that at PFTEMP, which is empty again, nor any of the
-- child's.
pub pgfault-Copied :
    (k : Answers) (pn fault p : ℕ) (s : Spaces)
    → IsWilling k
    → k.alloc self pftemp ≡ ok p
    → p ≢ (s.uvpt pn).page
    → pn ≢ pftemp
    → has fault fec_wr ≡ true
    → has ((s.uvpt pn).perm) pte_cow ≡ true
    → (t : Spaces) × (pgfault k pn fault s ≡ some t) × Copied s t pn p
unfolding pgfault
pgfault-Copied k pn fault p s w a ne apart write cow =
    let e : Entry = record { page = p; perm = pte_wup } in
    let t = put_entry self pftemp e (record s { words = at s.words p (λ i. 0) }) in
    let u = put_entry self pn (mapping (t.uvpt pftemp) pte_wup) (copy_page pftemp pn t) in
    let v = put_entry self pftemp unmapped u in
    let there = at_there s.uvpt pftemp pn e apart in
    let zeros : ℕ → ℕ = λ j. 0 in
    let moved = at s.words p zeros ((t.uvpt pn).page) in
    (
      v,
      rw (cow, a, w.maps self pn, w.unmaps pftemp)
          (if_false (not (has fault fec_wr) && false) none (some v) (and_false (has fault fec_wr))),
      record {
        own =
            at_there u.uvpt pftemp pn unmapped apart
            ∙ at_here t.uvpt pn (mapping (t.uvpt pftemp) pte_wup);
        contents = λ i.
            ap (λ (f : ℕ → ℕ). f i) (at_here (at s.words p zeros) p moved)
            ∙ ap (λ (x : Entry). at s.words p zeros (x.page) i) there
            ∙ ap (λ (f : ℕ → ℕ). f i)
                (at_there s.words p ((s.uvpt pn).page) zeros (λ q. ne (sym q)));
        kept = λ q i n.
            ap (λ (f : ℕ → ℕ). f i)
              (at_there (at s.words p zeros) p q moved n ∙ at_there s.words p q zeros n);
        others = λ q n m.
            at_there u.uvpt pftemp q unmapped m
            ∙ at_there t.uvpt pn q (mapping (t.uvpt pftemp) pte_wup) n
            ∙ at_there s.uvpt pftemp q e m;
        no_temp = at_here u.uvpt pftemp unmapped;
        theirs = refl;
      },
    )
