-- ===== src/Pipe/Made.antt =====
-- What pipe of pipe.c makes, or undoes.
use damn_os_damn_fs.Prelude.{
  ℕ, zero, suc, ◌+◌, ◌<◌, ◌≡◌, refl, sym, subst, ◌∙◌, ◌≢◌, inl, inr, true, false, Option, none,
  some, arith, ◌==◌, Bool-cases,
}
use damn_os_damn_fs.Prelude.{Option-cases}
use damn_os_damn_fs.Server.{Fd}
use damn_os_damn_fs.Descriptor.{
  maxfd, o_rdonly, o_wronly, Answer, ok, err, Process, at, fd_at, unmap, fd_alloc, fd_alloc_from,
}
use damn_os_damn_fs.Pipe.Ends.{
  Pages, pipe_id, mapped, ends, map_second, alloc_data, alloc_second, find_second, alloc_first,
  find_first, pipe,
}

-- A place that an undone step has emptied, and that was empty before.
at_empty : (f : ℕ → Option ℕ) (i j : ℕ) → f i ≡ none → (j == i) ≡ true → f j ≡ none
at_empty f i j e y = let same : i ≡ j = ground (arith, y) in subst (λ x. f x ≡ none) same e

fd_alloc_from-free :
    {W : Type 0} (n i j : ℕ) (s : Process W)
    → fd_alloc_from n i s ≡ some j
    → (s.vm j ≡ none) × (j < i + n)
unfolding fd_alloc_from
fd_alloc_from-free zero i j s e = absurd (cc)
fd_alloc_from-free (suc n) i j s e = elim (Option-cases (s.vm i)) [
  | inl v ↦
      let same : i ≡ j = ground (arith, v, e) in
      (subst (λ x. s.vm x ≡ none) same v, omega (arith, same))
  | inr (p, v) ↦
      let later : fd_alloc_from n (suc i) s ≡ some j = ground (arith, v, e) in
      let r = fd_alloc_from-free n (suc i) j s later in (r.0, omega (arith, r.1))
]

fd_alloc-free :
    {W : Type 0} (s : Process W) (i : ℕ) → fd_alloc s ≡ ok i → (s.vm i ≡ none) × (i < maxfd)
unfolding fd_alloc
fd_alloc-free s i e = elim (Option-cases (fd_alloc_from maxfd 0 s)) [
  | inl n ↦ absurd (cc)
  | inr (j, f) ↦
      let same : j ≡ i = ground (arith, f, e) in
      let r = fd_alloc_from-free maxfd 0 j s f in
      subst (λ x. (s.vm x ≡ none) × (x < maxfd)) same (r.0, omega (arith, r.1))
]

-- What the two ends are, when the pipe could be made.
pub record Joined {W : Type 0} (s t : Process W) (i j : ℕ) : Type 0 where
  pub numbers : (i < maxfd) × (j < maxfd) × (i ≢ j)
  pub unused : (s.vm i ≡ none) × (s.vm j ≡ none)
  pub shared : (d : ℕ) × (t.vm (maxfd + i) ≡ some d) × (t.vm (maxfd + j) ≡ some d)
  pub reads : ((fd_at t i).omode ≡ o_rdonly) × ((fd_at t i).dev_id ≡ pipe_id)
  pub writes : ((fd_at t j).omode ≡ o_wronly) × ((fd_at t j).dev_id ≡ pipe_id)
  pub others :
      (x : ℕ)
      → (x == i) ≡ false
      → (x == j) ≡ false
      → (x == (maxfd + i)) ≡ false
      → (x == (maxfd + j)) ≡ false
      → t.vm x ≡ s.vm x

-- A pipe of two joined ends, or an error that leaves every place as it was.
unfoldable pub Made : {W : Type 0} → Process W → Answer (ℕ × ℕ) × Process W → Type 0
Made s (ok (i, j), t) = Joined s t i j
Made s (err e, t) = (x : ℕ) → t.vm x ≡ s.vm x

at_self : {A : Type 0} (f : ℕ → A) (i x : ℕ) (v : A) → (x == i) ≡ true → at f i v x ≡ v
at_self f i x v h = rw (h) refl

at_other : {A : Type 0} (f : ℕ → A) (i x : ℕ) (v : A) → (x == i) ≡ false → at f i v x ≡ f x
at_other f i x v h = rw (h) refl

-- Emptying a place that was empty undoes what was done there.
undone :
    (f g : ℕ → Option ℕ) (i x : ℕ)
    → f i ≡ none
    → ((x == i) ≡ false → g x ≡ f x)
    → at g i none x ≡ f x
undone f g i x e h = elim (Bool-cases (x == i)) [
  | inl y ↦ at_self g i x none y ∙ sym (at_empty f i x e y)
  | inr m ↦ at_other g i x none m ∙ h m
]

-- A place that holds a page cannot be the empty one that was found.
at-some :
    (f : ℕ → Option ℕ) (i j p : ℕ) → at f i (some p) j ≡ none → ((j == i) ≡ false) × (f j ≡ none)
at-some f i j p e = elim (Bool-cases (j == i)) [
  | inl y ↦ absurd (let q = sym (at_self f i j (some p) y) ∙ e in cc)
  | inr m ↦ (m, sym (at_other f i j (some p) m) ∙ e)
]

==_sym_false : (a b : ℕ) → (a == b) ≡ false → (b == a) ≡ false
==_sym_false a b h = ground (arith, h)

fd_at_page : {W : Type 0} (t : Process W) (i p : ℕ) → t.vm i ≡ some p → fd_at t i ≡ t.fd_of p
fd_at_page t i p e = rw (fd_at, e) refl

abbrev IsReader : Fd → Type 0
IsReader f = (f.omode ≡ o_rdonly) × (f.dev_id ≡ pipe_id)

abbrev IsWriter : Fd → Type 0
IsWriter f = (f.omode ≡ o_wronly) × (f.dev_id ≡ pipe_id)

ends_read : {W : Type 0} (p q : ℕ) (s : Process W) → p ≢ q → IsReader ((ends p q s).fd_of p)
ends_read p q s n =
    let f = at s.fd_of p (record (s.fd_of p) { dev_id = pipe_id; omode = o_rdonly }) in
    let e =
      at_other f q p (record (f q) { dev_id = pipe_id; omode = o_wronly }) (ground (arith, n))
      ∙ at_self s.fd_of p p (record (s.fd_of p) { dev_id = pipe_id; omode = o_rdonly })
          (ground arith) in
    subst IsReader (sym e) (refl, refl)

ends_write : {W : Type 0} (p q : ℕ) (s : Process W) → IsWriter ((ends p q s).fd_of q)
ends_write p q s =
    let f = at s.fd_of p (record (s.fd_of p) { dev_id = pipe_id; omode = o_rdonly }) in
    let e = at_self f q q (record (f q) { dev_id = pipe_id; omode = o_wronly }) (ground arith) in
    subst IsWriter (sym e) (refl, refl)

-- Two places that were found unmapped, and two distinct pages for them.
record Places {W : Type 0} (s : Process W) (i j p q : ℕ) : Type 0 where
  below : (i < maxfd) × (j < maxfd)
  apart : (j == i) ≡ false
  unused : (s.vm i ≡ none) × (s.vm j ≡ none)
  no_data : (s.vm (maxfd + i) ≡ none) × (s.vm (maxfd + j) ≡ none)
  pages : p ≢ q

module _ {W : Type 0} (k : Pages) (s : Process W) (i j p q : ℕ) (h : Places s i j p q) where
  -- both descriptors have their pages
  abbrev both : Process W
  both = mapped j q (mapped i p s)

  both_others : (x : ℕ) → (x == j) ≡ false → (x == i) ≡ false → both.vm x ≡ s.vm x
  both_others x nj ni =
      at_other (at s.vm i (some p)) j x (some q) nj ∙ at_other s.vm i x (some p) ni

  both_undone : (x : ℕ) → (unmap i (unmap j both)).vm x ≡ s.vm x
  both_undone x =
      undone s.vm (at both.vm j none) i x (h.unused.0)
        (λ ni. undone s.vm both.vm j x (h.unused.1) (λ nj. both_others x nj ni))

  -- and a data page for the first
  abbrev with_data : ℕ → Process W
  with_data d = mapped (maxfd + i) d both

  data_undone : (d x : ℕ) → (unmap i (unmap j (unmap (maxfd + i) (with_data d)))).vm x ≡ s.vm x
  data_undone d x =
      let b = at both.vm (maxfd + i) (some d) in
      let c = at b (maxfd + i) none in
      undone s.vm (at c j none) i x (h.unused.0) (λ ni. undone s.vm c j x (h.unused.1) (λ nj.
        undone s.vm b (maxfd + i) x (h.no_data.0)
          (λ nd. at_other both.vm (maxfd + i) x (some d) nd ∙ both_others x nj ni)))

  -- and for the second
  abbrev joined : ℕ → Process W
  joined d =
      let u = with_data d in ends p q (record u { vm = at u.vm (maxfd + j) (u.vm (maxfd + i)) })

  joined-Joined : (d : ℕ) → Joined s (joined d) i j
  joined-Joined d =
      let t = joined d in
      let at_i : t.vm i ≡ some p = ground (arith, h.apart, h.below) in
      let at_j : t.vm j ≡ some q = ground (arith, h.apart, h.below) in
      record {
        numbers = (h.below.0, h.below.1, λ e. ground (arith, h.apart, e));
        unused = h.unused;
        shared = (d, ground (arith, h.apart, h.below), ground (arith, h.apart, h.below));
        reads = subst IsReader (sym (fd_at_page t i p at_i)) (ends_read p q (with_data d) h.pages);
        writes = subst IsWriter (sym (fd_at_page t j q at_j)) (ends_write p q (with_data d));
        others = λ x a b c e. ground (arith, a, b, c, e);
      }

  map_second-Made : (d : ℕ) (a : Option ℕ) → Made s (map_second k i j p q a (with_data d))
  unfolding Made map_second
  map_second-Made d none = joined-Joined d
  map_second-Made d (some e) = data_undone d

  alloc_data-Made : (a : Answer ℕ) → Made s (alloc_data k i j p q a both)
  unfolding Made alloc_data
  alloc_data-Made (err e) = both_undone
  alloc_data-Made (ok d) = map_second-Made d (k.map_fails (maxfd + i) (maxfd + j))

-- A descriptor that is not mapped has no data page either.
abbrev pub IsPaired : {W : Type 0} → Process W → Type 0
IsPaired s = (i : ℕ) → i < maxfd → s.vm i ≡ none → s.vm (maxfd + i) ≡ none

-- Pages given at two places, both still mapped, are distinct.
abbrev pub IsFresh : Pages → Type 0
IsFresh k = (i j p q : ℕ) → i ≢ j → k.alloc i ≡ ok p → k.alloc j ≡ ok q → p ≢ q

module _ {W : Type 0} (k : Pages) (fresh : IsFresh k) (s : Process W) (paired : IsPaired s) where
  alloc_second-Made :
      (i j p : ℕ) (a : Answer ℕ)
      → (i < maxfd) × (s.vm i ≡ none)
      → (j < maxfd) × ((mapped i p s).vm j ≡ none)
      → k.alloc i ≡ ok p
      → k.alloc j ≡ a
      → Made s (alloc_second k i j p a (mapped i p s))
  unfolding Made alloc_second
  alloc_second-Made i j p (err e) f g a b =
      λ x. undone s.vm (at s.vm i (some p)) i x f.1 (at_other s.vm i x (some p))
  alloc_second-Made i j p (ok q) f g a b =
      let u = at-some s.vm i j p g.1 in
      alloc_data-Made k s i j p q
        (record {
          below = (f.0, g.0);
          apart = u.0;
          unused = (f.1, u.1);
          no_data = (paired i f.0 f.1, paired j g.0 u.1);
          pages = fresh i j p q (λ e. ground (arith, u.0, e)) a b;
        })
        (k.alloc (maxfd + i))

  find_second-Made :
      (i p : ℕ) (a : Answer ℕ)
      → (i < maxfd) × (s.vm i ≡ none)
      → k.alloc i ≡ ok p
      → fd_alloc (mapped i p s) ≡ a
      → Made s (find_second k i p a (mapped i p s))
  unfolding Made find_second
  find_second-Made i p (err e) f a b =
      λ x. undone s.vm (at s.vm i (some p)) i x f.1 (at_other s.vm i x (some p))
  find_second-Made i p (ok j) f a b =
      let g = fd_alloc-free (mapped i p s) j b in
      alloc_second-Made i j p (k.alloc j) f (g.1, g.0) a refl

  alloc_first-Made :
      (i : ℕ) (a : Answer ℕ)
      → (i < maxfd) × (s.vm i ≡ none)
      → k.alloc i ≡ a
      → Made s (alloc_first k i a s)
  unfolding Made alloc_first
  alloc_first-Made i (err e) f a = λ x. refl
  alloc_first-Made i (ok p) f a = find_second-Made i p (fd_alloc (mapped i p s)) f a refl

  find_first-Made : (a : Answer ℕ) → fd_alloc s ≡ a → Made s (find_first k a s)
  unfolding Made find_first
  find_first-Made (err e) a = λ x. refl
  find_first-Made (ok i) a =
      let g = fd_alloc-free s i a in alloc_first-Made i (k.alloc i) (g.1, g.0) refl

-- An unmapped descriptor has no data page, and pages given at two places are distinct. Then `pipe`
-- either fails and leaves every place of the descriptor area as it was, at whichever step it fails,
-- or gives two distinct descriptors that were unmapped: the first reads and the second writes, both
-- are the pipe device's, they share one data page, and no other place has changed.
pub pipe-Made :
    {W : Type 0} (k : Pages) (s : Process W) → IsFresh k → IsPaired s → Made s (pipe k s)
unfolding pipe
pipe-Made k s fresh paired = find_first-Made k fresh s paired (fd_alloc s) refl
