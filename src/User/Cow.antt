-- ===== src/User/Cow.antt =====
-- What fork of fork.c leaves to the two processes.
use damn_os_damn_fs.Prelude.{
  ℕ, zero, suc, ◌+◌, ◌/◌, ◌≤◌, ◌<◌, ◌≡◌, refl, sym, ap, ap₂, subst, ◌∙◌, ◌≢◌, inl, inr, Bool, true,
  false, ◌&&◌, Option, some, arith, ◌==◌, if◌then◌else◌, Bool-cases,
}
use damn_os_damn_fs.Prelude.Int.{ℤ, pos}
use damn_os_damn_fs.Kernel.State.{pte_p, pte_u}
use damn_os_damn_fs.Descriptor.{ok, at}
use damn_os_damn_fs.User.{
  pte_wup, uxstack, ustack_pages, Entry, self, child, Spaces, Answers, has, put_entry, after,
  checked, page_alloc_at, duppage, is_user, dup_pages_from, set_pgfault_handler, is_zero,
  make_child, fork,
}
use damn_os_damn_fs.User.Entries.{
  IsWilling, Shares, at_here, at_there, duppage-Dup, if_true, if_false,
}

-- The entries of page `q` before (`e`, and `f` of the child) and after (`o`, `c`), when the page is
-- one to hand on, or not.
pub record Handed (user : Bool) (e f o c : Entry) : Type 0 where
  pub shares : user ≡ true → Shares e o c
  pub keeps : user ≡ false → (o ≡ e) × (c ≡ f)

abbrev HandedAt : Spaces → Spaces → ℕ → Type 0
HandedAt s t q = Handed (is_user q s) (s.uvpt q) (s.theirs q) (t.uvpt q) (t.theirs q)

abbrev AgreeAt : Spaces → Spaces → ℕ → Type 0
AgreeAt s t q = (t.uvpt q ≡ s.uvpt q) × (t.theirs q ≡ s.theirs q)

is_user-same :
    (s t : Spaces) (q : ℕ) → t.uvpt q ≡ s.uvpt q → t.uvpd ≡ s.uvpd → is_user q t ≡ is_user q s
unfolding is_user
is_user-same s t q e d =
    ap₂
      (λ (x : Entry) (y : ℕ → ℕ).
        has (y (q / 1024)) pte_p && (has (x.perm) pte_p && has (x.perm) pte_u))
      e d

handed_before :
    (s t u : Spaces) (q : ℕ) → AgreeAt s t q → t.uvpd ≡ s.uvpd → HandedAt t u q → HandedAt s u q
handed_before s t u q a d h =
    let h1 =
      subst (λ b. Handed b (t.uvpt q) (t.theirs q) (u.uvpt q) (u.theirs q))
        (is_user-same s t q a.0 d) h in
    let h2 = subst (λ e. Handed (is_user q s) e (t.theirs q) (u.uvpt q) (u.theirs q)) a.0 h1 in
    subst (λ f. Handed (is_user q s) (s.uvpt q) f (u.uvpt q) (u.theirs q)) a.1 h2

handed_after : (s t u : Spaces) (q : ℕ) → AgreeAt t u q → HandedAt s t q → HandedAt s u q
handed_after s t u q a h =
    let h1 = subst (λ o. Handed (is_user q s) (s.uvpt q) (s.theirs q) o (t.theirs q)) (sym a.0) h in
    subst (λ c. Handed (is_user q s) (s.uvpt q) (s.theirs q) (u.uvpt q) c) (sym a.1) h1

-- one round of the loop
record Round (s t : Spaces) (pn : ℕ) : Type 0 where
  here : HandedAt s t pn
  others : (q : ℕ) → q ≢ pn → AgreeAt s t q
  same : (t.uvpd ≡ s.uvpd) × (t.words ≡ s.words)

round :
    (k : Answers) (pn : ℕ) (s : Spaces)
    → IsWilling k
    → (t : Spaces) × ((if is_user pn s then duppage k pn s else some s) ≡ some t) × Round s t pn
round k pn s w = elim (Bool-cases (is_user pn s)) [
  | inl y ↦
      let r = duppage-Dup k pn s w in
      (
        r.0,
        rw (y) (r.1),
        record {
          here = record { shares = λ _. r.2.shares; keeps = λ n. absurd (cc) };
          others = r.2.others;
          same = r.2.same;
        },
      )
  | inr n ↦ (
    s,
    rw (n) refl,
    record {
      here = record { shares = λ y. absurd (cc); keeps = λ _. (refl, refl) };
      others = λ q _. (refl, refl);
      same = (refl, refl);
    },
  )
]

-- the `n` pages from `pn` on
record Rounds (s t : Spaces) (pn n : ℕ) : Type 0 where
  inside : (q : ℕ) → pn ≤ q → q < pn + n → HandedAt s t q
  below : (q : ℕ) → q < pn → AgreeAt s t q
  above : (q : ℕ) → pn + n ≤ q → AgreeAt s t q
  same : (t.uvpd ≡ s.uvpd) × (t.words ≡ s.words)

agree_trans : (s t u : Spaces) (q : ℕ) → AgreeAt s t q → AgreeAt t u q → AgreeAt s u q
agree_trans s t u q a b = (b.0 ∙ a.0, b.1 ∙ a.1)

Rounds-step :
    (s t u : Spaces) (pn n : ℕ) → Round s t pn → Rounds t u (suc pn) n → Rounds s u pn (suc n)
Rounds-step s t u pn n r l = record {
  inside = λ q lo hi. elim (Bool-cases (q == pn)) [
    | inl y ↦
        let e : pn ≡ q = ground (arith, y) in
        subst (HandedAt s u) e (handed_after s t u pn (l.below pn (omega arith)) r.here)
    | inr m ↦
        let ne : q ≢ pn = ground (arith, m) in
        handed_before s t u q (r.others q ne) r.same.0
          (l.inside q (ground (arith, m, lo)) (omega (arith, hi)))
  ];
  below = λ q h.
      agree_trans s t u q (r.others q (λ e. omega (arith, h, e))) (l.below q (omega (arith, h)));
  above = λ q h.
      agree_trans s t u q (r.others q (λ e. omega (arith, h, e))) (l.above q (omega (arith, h)));
  same = (l.same.0 ∙ r.same.0, l.same.1 ∙ r.same.1);
}

dup_pages_from-Rounds :
    (k : Answers) (n pn : ℕ) (s : Spaces)
    → IsWilling k
    → (t : Spaces) × (dup_pages_from k n pn s ≡ some t) × Rounds s t pn n
unfolding dup_pages_from
dup_pages_from-Rounds k zero pn s w = (
  s,
  refl,
  record {
    inside = λ q lo hi. absurd (omega (arith, lo, hi));
    below = λ q h. (refl, refl);
    above = λ q h. (refl, refl);
    same = (refl, refl);
  },
)
dup_pages_from-Rounds k (suc n) pn s w =
    let r = round k pn s w in
    let l = dup_pages_from-Rounds k n (suc pn) r.0 w in
    (
      l.0,
      ap (λ (o : Option Spaces). after o (dup_pages_from k n (suc pn))) (r.1) ∙ l.1,
      Rounds-step s r.0 l.0 pn n r.2 l.2,
    )

-- What fork leaves, when the child's exception stack is page `p`: each page below the user stack's
-- top is handed on or stays as it was, and the child has a writable exception stack of its own.
pub record Forked (s t : Spaces) (p : ℕ) : Type 0 where
  pub handed : (q : ℕ) → q < ustack_pages → HandedAt s t q
  pub stack : t.theirs uxstack ≡ record { page = p; perm = pte_wup }

-- the steps behind the loop
finished :
    (k : Answers) (d : Option Spaces) (x : Spaces) (p : ℕ)
    → IsWilling k
    → k.alloc child uxstack ≡ ok p
    → d ≡ some x
    → after d (λ t.
      after
        (page_alloc_at k child uxstack pte_wup t)
        (λ u. after (checked (k.upcall_error child) u) (checked k.status_error)))
      ≡ some (
          put_entry child uxstack
            (record { page = p; perm = pte_wup })
            (record x { words = at x.words p (λ i. 0) }))
finished k d x p w a e = rw (e, a, w.upcalls child, w.status) refl

make_child-Forked :
    (k : Answers) (s : Spaces) (p : ℕ)
    → IsWilling k
    → k.alloc child uxstack ≡ ok p
    → (t : Spaces) × (make_child k s ≡ some t) × Forked s t p
unfolding make_child
make_child-Forked k s p w a =
    let l = dup_pages_from-Rounds k ustack_pages 0 s w in
    let e : Entry = record { page = p; perm = pte_wup } in
    let t = put_entry child uxstack e (record (l.0) { words = at (l.0.words) p (λ i. 0) }) in
    (
      t,
      finished k (dup_pages_from k ustack_pages 0 s) l.0 p w a l.1,
      record {
        handed = λ q i.
            handed_after s l.0 t q
              (refl, at_there (l.0.theirs) uxstack q e (λ x. omega (arith, i, x)))
              (l.2.inside q (omega arith) (omega (arith, i)));
        stack = at_here (l.0.theirs) uxstack e;
      },
    )

handler_set : (k : Answers) (s : Spaces) → s.handler ≡ true → set_pgfault_handler k s ≡ some s
unfolding set_pgfault_handler
handler_set k s h =
    if_true (s.handler) (some s)
      (after (page_alloc_at k self uxstack pte_wup s)
        (λ t. checked (k.upcall_error self) (record t { handler = true })))
      h

-- Let every call succeed, with page `p` for the child's exception stack, let the page fault handler be
-- set already, and let sys_exofork answer the number `c`, not 0. Then fork comes to an end, returns
-- `c`, and hands on every user page below USTACKTOP: the child has the same page, both share it if it
-- is marked so, and otherwise neither can write to it; what is no user page stays as it was.
pub fork-Forked :
    (k : Answers) (s : Spaces) (p : ℕ)
    → IsWilling k
    → k.alloc child uxstack ≡ ok p
    → s.handler ≡ true
    → is_zero k.exofork ≡ false
    → (t : Spaces) × (fork k s ≡ some (k.exofork, t)) × Forked s t p
unfolding fork
fork-Forked k s p w a h c =
    let m = make_child-Forked k s p w a in
    let rest : Spaces → Option (ℤ × Spaces) =
      λ t. after (make_child k t) (λ u. some (k.exofork, u)) in
    let start =
      ap
        (λ (o : Option Spaces).
          after {A = ℤ × Spaces} o (λ t. if is_zero k.exofork then some (pos 0, t) else rest t))
        (handler_set k s h) in
    let parent = if_false (is_zero k.exofork) (some (pos 0, s)) (rest s) c in
    let made =
      ap (λ (o : Option Spaces). after {A = ℤ × Spaces} o (λ u. some (k.exofork, u))) m.1 in
    (m.0, start ∙ parent ∙ made, m.2)
