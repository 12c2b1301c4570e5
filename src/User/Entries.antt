-- ===== src/User/Entries.antt =====
-- What duppage of fork.c leaves for one page.
use damn_os_damn_fs.Prelude.{
  ℕ, ◌+◌, ◌≡◌, refl, sym, subst, ◌≢◌, inl, inr, Bool, true, false, ◌&&◌, ◌||◌, not, none, some,
  arith, ◌==◌, if◌then◌else◌, Bool-cases,
}
use damn_os_damn_fs.Kernel.State.{pte_w}
use damn_os_damn_fs.Descriptor.{at}
use damn_os_damn_fs.User.{
  pte_cow, pte_share, pte_syscall, pte_up, Entry, Target, self, child, Spaces, Answers, has,
  put_entry, page_map_at, duppage,
}

-- No call fails, but for those that give a page.
pub record IsWilling (k : Answers) : Type 0 where
  pub maps : (t : Target) (pn : ℕ) → k.map_error t pn ≡ none
  pub unmaps : (pn : ℕ) → k.unmap_error pn ≡ none
  pub upcalls : (t : Target) → k.upcall_error t ≡ none
  pub status : k.status_error ≡ none

-- What becomes of an entry `e` that is handed on: `o` with the process and `c` with the child. Unless
-- the page is shared, neither of them can write to it.
pub record Shares (e o c : Entry) : Type 0 where
  pub pages : (o.page ≡ e.page) × (c.page ≡ e.page)
  pub shared : has e.perm pte_share ≡ true → (o ≡ e) × (c.perm ≡ pte_syscall)
  pub protected :
      has e.perm pte_share ≡ false → (has o.perm pte_w ≡ false) × (has c.perm pte_w ≡ false)

-- Page `pn` is handed on, and the other entries stay.
pub record Dup (s t : Spaces) (pn : ℕ) : Type 0 where
  pub shares : Shares (s.uvpt pn) (t.uvpt pn) (t.theirs pn)
  pub others : (q : ℕ) → q ≢ pn → (t.uvpt q ≡ s.uvpt q) × (t.theirs q ≡ s.theirs q)
  pub same : (t.uvpd ≡ s.uvpd) × (t.words ≡ s.words)

pub at_here : {A : Type 0} (f : ℕ → A) (i : ℕ) (v : A) → at f i v i ≡ v
at_here f i v = let e : (i == i) ≡ true = ground arith in rw e refl

pub at_there : {A : Type 0} (f : ℕ → A) (i q : ℕ) (v : A) → q ≢ i → at f i v q ≡ f q
at_there f i q v n = let e : (q == i) ≡ false = ground (arith, n) in rw e refl

abbrev pub mapping : Entry → ℕ → Entry
mapping e perm = record { page = e.page; perm = perm }

page_map_at-some :
    (k : Answers) (src : ℕ) (t : Target) (pn perm : ℕ) (s : Spaces)
    → IsWilling k
    → page_map_at k src t pn perm s ≡ some (put_entry t pn (mapping (s.uvpt src) perm) s)
page_map_at-some k src t pn perm s w = rw (w.maps t pn) refl

-- The child gets the page with `perm`, and the process keeps its own entry.
theirs-Dup :
    (s : Spaces) (pn perm : ℕ)
    → Shares (s.uvpt pn) (s.uvpt pn) (mapping (s.uvpt pn) perm)
    → Dup s (put_entry child pn (mapping (s.uvpt pn) perm) s) pn
theirs-Dup s pn perm h = record {
  shares =
      subst (Shares (s.uvpt pn) (s.uvpt pn)) (sym (at_here s.theirs pn (mapping (s.uvpt pn) perm)))
        h;
  others = λ q n. (refl, at_there s.theirs pn q (mapping (s.uvpt pn) perm) n);
  same = (refl, refl);
}

-- Both have the page with `perm`.
both-Dup :
    (s : Spaces) (pn perm : ℕ)
    → Shares (s.uvpt pn) (mapping (s.uvpt pn) perm) (mapping (s.uvpt pn) perm)
    → Dup s
        (put_entry self pn
          (mapping (s.uvpt pn) perm)
          (put_entry child pn (mapping (s.uvpt pn) perm) s))
        pn
both-Dup s pn perm h =
    let e = mapping (s.uvpt pn) perm in
    record {
      shares =
          subst (λ o. Shares (s.uvpt pn) o (at s.theirs pn e pn)) (sym (at_here s.uvpt pn e))
            (subst (Shares (s.uvpt pn) e) (sym (at_here s.theirs pn e)) h);
      others = λ q n. (at_there s.uvpt pn q e n, at_there s.theirs pn q e n);
      same = (refl, refl);
    }

shared-Shares : (e : Entry) → has e.perm pte_share ≡ true → Shares e e (mapping e pte_syscall)
shared-Shares e h = record {
  pages = (refl, refl);
  shared = λ _. (refl, refl);
  protected = λ n. absurd (cc);
}

cow-Shares :
    (e : Entry)
    → has e.perm pte_share ≡ false
    → Shares e (mapping e (pte_cow + pte_up)) (mapping e (pte_cow + pte_up))
cow-Shares e h = record {
  pages = (refl, refl);
  shared = λ n. absurd (cc);
  protected = λ _. (refl, refl);
}

read-Shares :
    (e : Entry)
    → has e.perm pte_share ≡ false
    → has e.perm pte_w ≡ false
    → Shares e e (mapping e pte_up)
read-Shares e h w = record {
  pages = (refl, refl);
  shared = λ n. absurd (cc);
  protected = λ _. (w, refl);
}

or_false : (a b : Bool) → (a || b) ≡ false → a ≡ false
or_false false b h = refl
or_false true b h = h

pub duppage-Dup :
    (k : Answers) (pn : ℕ) (s : Spaces)
    → IsWilling k
    → (t : Spaces) × (duppage k pn s ≡ some t) × Dup s t pn
unfolding duppage
duppage-Dup k pn s w =
    let e = s.uvpt pn in
    elim (Bool-cases (has e.perm pte_share)) [
      | inl y ↦ (
        put_entry child pn (mapping e pte_syscall) s,
        rw (y) (page_map_at-some k pn child pn pte_syscall s w),
        theirs-Dup s pn pte_syscall (shared-Shares e y),
      )
      | inr n ↦ elim (Bool-cases (has e.perm pte_w || has e.perm pte_cow)) [
        | inl c ↦
            let u = put_entry child pn (mapping e (pte_cow + pte_up)) s in
            (
              put_entry self pn (mapping e (pte_cow + pte_up)) u,
              rw (n, c, w.maps child pn) (page_map_at-some k pn self pn (pte_cow + pte_up) u w),
              both-Dup s pn (pte_cow + pte_up) (cow-Shares e n),
            )
        | inr r ↦ (
          put_entry child pn (mapping e pte_up) s,
          rw (n, r) (page_map_at-some k pn child pn pte_up s w),
          theirs-Dup s pn pte_up
              (read-Shares e n (or_false (has e.perm pte_w) (has e.perm pte_cow) r)),
        )
      ]
    ]

pub if_true : {A : Type 0} (b : Bool) (x y : A) → b ≡ true → (if b then x else y) ≡ x
if_true b x y h = rw (h) refl

pub if_false : {A : Type 0} (b : Bool) (x y : A) → b ≡ false → (if b then x else y) ≡ y
if_false b x y h = rw (h) refl

pub and_false : (b : Bool) → (not b && false) ≡ false
and_false true = refl
and_false false = refl
