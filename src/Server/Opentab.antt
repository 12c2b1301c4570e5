-- ===== src/Server/Opentab.antt =====
-- The table of open files of serv.c: each number leads back to its entry, and a new one is fresh.
use damn_os_damn_fs.Prelude.{
  ℕ, zero, suc, ◌+◌, ◌%◌, ◌^◌, ◌<◌, ◌≡◌, refl, sym, ap, subst, ◌∙◌, ◌≢◌, ◌⊎◌, inl, inr, true, false,
  Option, none, some, List, [], ◌∷◌, arith, ltb, ◌≤◌, ◌==◌, if◌then◌else◌, Bool-cases, length,
  get_or, set, length-set, get_or-set_self, get_or-set_ne,
}
use native.Mathlib.Decide.{ℕ_discrete}
use damn_os_damn_fs.Fs.State.{e_inval}
use damn_os_damn_fs.Server.{
  OpenFile, Server, Reply, sends, fails, dies, openfile_alloc, openfile_alloc_from, openfile_lookup,
  file_at, put_file, no_file, maxopen, e_max_open, reissued, is_spare, issued,
}

-- entry `i` has a number that leads to it
pub record IsTable (tab : List OpenFile) : Type 0 where
  pub size : length tab ≡ maxopen
  pub numbers : (i : ℕ) → i < maxopen → (get_or tab i no_file).fileid % maxopen ≡ i
  pub words : (i : ℕ) → (get_or tab i no_file).fileid < 2 ^ 32

-- entry `i` is the first that no client holds, and `t` is `s` with that entry under a new number
pub record Reissued (s : Server) (i : ℕ) (t : Server) : Type 0 where
  pub inside : i < maxopen
  pub spare : is_spare (file_at s i) ≡ true
  pub least : (j : ℕ) → j < i → is_spare (file_at s j) ≡ false
  pub renewed : (file_at t i).fileid ≡ ((file_at s i).fileid + maxopen) % 2 ^ 32
  pub fresh : (file_at t i).fileid ≢ (file_at s i).fileid
  pub others : (j : ℕ) → i ≢ j → file_at t j ≡ file_at s j
  pub table : IsTable t.opentab
  pub same_fs : t.fs ≡ s.fs

-- what `openfile_alloc` may do
abbrev pub Alloc : Option ℕ → Server → Reply (ℕ × ℕ) → Type 0
Alloc no_mem s (sends (i, n) t) = Reissued s i t × (n ≡ (file_at t i).fileid) × (n < 2 ^ 31)
Alloc no_mem s (fails e t) =
    ((t ≡ s)
      × (((e ≡ e_max_open) × ((j : ℕ) → j < maxopen → is_spare (file_at s j) ≡ false))
          ⊎ (no_mem ≡ some e)))
    ⊎ ((i : ℕ) × Reissued s i t
        × (e + (file_at t i).fileid ≡ 2 ^ 32)
        × (2 ^ 31 ≤ (file_at t i).fileid))
Alloc no_mem s dies = ⊥

-- where the search from entry `i` on ends
abbrev Found : List OpenFile → ℕ → Option ℕ → Type 0
Found tab i none = (j : ℕ) → j < length tab → is_spare (get_or tab j no_file) ≡ false
Found tab i (some k) =
    (j : ℕ) × (k ≡ i + j)
    × (j < length tab)
    × (is_spare (get_or tab j no_file) ≡ true)
    × ((m : ℕ) → m < j → is_spare (get_or tab m no_file) ≡ false)

Found-next :
    (o : OpenFile) (tab : List OpenFile) (i : ℕ) (r : Option ℕ)
    → is_spare o ≡ false
    → Found tab (i + 1) r
    → Found (o ∷ tab) i r
Found-next o tab i none used f = none_left
  where
    none_left : (j : ℕ) → j < suc (length tab) → is_spare (get_or (o ∷ tab) j no_file) ≡ false
    none_left zero h = used
    none_left (suc j) h = f j (omega arith)
Found-next o tab i (some k) used (j, at, inside, spare, low) =
    (suc j, omega arith, omega arith, spare, lower)
  where
    lower : (m : ℕ) → m < suc j → is_spare (get_or (o ∷ tab) m no_file) ≡ false
    lower zero h = used
    lower (suc m) h = low m (omega arith)

openfile_alloc_from-Found : (tab : List OpenFile) (i : ℕ) → Found tab i (openfile_alloc_from tab i)
unfolding openfile_alloc_from
openfile_alloc_from-Found [] i = λ j h. absurd (omega arith)
openfile_alloc_from-Found (o ∷ tab) i = elim (Bool-cases (is_spare o)) [
  | inl y ↦ rw y (0, omega arith, omega arith, y, λ m h. absurd (omega arith))
  | inr n ↦ rw n (
      Found-next o tab i (openfile_alloc_from tab (i + 1)) n
        (openfile_alloc_from-Found tab (i + 1)))
]

module _ (s : Server) (w : IsTable s.opentab) (i : ℕ) (small : i < maxopen) where
  abbrev allocated : List OpenFile
  allocated = set s.opentab i (reissued (file_at s i))

  allocated_here : get_or allocated i no_file ≡ reissued (file_at s i)
  allocated_here =
      get_or-set_self s.opentab i (reissued (file_at s i)) no_file (omega (arith, w.size))

  allocated-IsTable : IsTable allocated
  unfolding reissued
  allocated-IsTable = record {
    size = length-set s.opentab i (reissued (file_at s i)) ∙ w.size;
    numbers = numbers;
    words = words;
  }
    where
      numbers : (j : ℕ) → j < maxopen → (get_or allocated j no_file).fileid % maxopen ≡ j
      numbers j h = elim (ℕ_discrete i j) [
        | yes e ↦
            ap (λ k. (get_or allocated k no_file).fileid % maxopen) (sym e)
            ∙ ap (λ (o : OpenFile). o.fileid % maxopen) allocated_here
            ∙ omega (arith, w.numbers i small, e)
        | no ne ↦
            ap (λ (o : OpenFile). o.fileid % maxopen)
              (get_or-set_ne s.opentab i j (reissued (file_at s i)) no_file ne)
            ∙ w.numbers j h
      ]

      words : (j : ℕ) → (get_or allocated j no_file).fileid < 2 ^ 32
      words j = elim (ℕ_discrete i j) [
        | yes e ↦
            subst (λ k. (get_or allocated k no_file).fileid < 2 ^ 32) e
              (subst (λ (o : OpenFile). o.fileid < 2 ^ 32) (sym allocated_here) (omega arith))
        | no ne ↦
            subst (λ (o : OpenFile). o.fileid < 2 ^ 32)
              (sym (get_or-set_ne s.opentab i j (reissued (file_at s i)) no_file ne)) (w.words j)
      ]

  allocated_fresh : (get_or allocated i no_file).fileid ≢ (file_at s i).fileid
  unfolding reissued
  allocated_fresh e =
      omega (arith, sym (ap (λ (o : OpenFile). o.fileid) allocated_here) ∙ e, w.words i)

  allocated_number : (get_or allocated i no_file).fileid ≡ ((file_at s i).fileid + maxopen) % 2 ^ 32
  unfolding reissued
  allocated_number = ap (λ (o : OpenFile). o.fileid) allocated_here

-- the number of the entry as an `int`
issued-Alloc :
    (no_mem : Option ℕ) (s t : Server) (i : ℕ) → Reissued s i t → Alloc no_mem s (issued i t)
unfolding issued
issued-Alloc no_mem s t i new = elim (Bool-cases (ltb (file_at t i).fileid (2 ^ 31))) [
  | inl y ↦ rw y (new, refl, ground (arith, y))
  | inr n ↦ rw n (inr (i, new, omega (arith, new.table.words i), ground (arith, n)))
]

run-full :
    (s : Server) (no_mem : Option ℕ)
    → openfile_alloc_from s.opentab 0 ≡ none
    → openfile_alloc no_mem s ≡ fails e_max_open s
unfolding openfile_alloc
run-full s no_mem e = rw (e, openfile_alloc) refl

run-shared :
    (s : Server) (no_mem : Option ℕ) (i : ℕ)
    → openfile_alloc_from s.opentab 0 ≡ some i
    → (file_at s i).refs == 0 ≡ false
    → openfile_alloc no_mem s
      ≡ issued i (record s { opentab = set s.opentab i (reissued (file_at s i)) })
unfolding openfile_alloc
run-shared s no_mem i e n = rw (e, openfile_alloc, n) refl

run-unused :
    (s : Server) (no_mem : Option ℕ) (i : ℕ)
    → openfile_alloc_from s.opentab 0 ≡ some i
    → (file_at s i).refs == 0 ≡ true
    → openfile_alloc no_mem s ≡ elim no_mem [
      | none ↦ issued i (record s { opentab = set s.opentab i (reissued (file_at s i)) })
      | some e ↦ fails e s
    ]
unfolding openfile_alloc
run-unused s no_mem i e y = rw (e, openfile_alloc, y) refl

memory-Alloc :
    (s t : Server) (m no_mem : Option ℕ) (i : ℕ)
    → no_mem ≡ m
    → Alloc no_mem s (issued i t)
    → Alloc no_mem s (elim m [ none ↦ issued i t | some k ↦ fails k s ])
memory-Alloc s t none no_mem i e h = h
memory-Alloc s t (some k) no_mem i e h = inl (refl, inr e)

-- the rest of `openfile_alloc`, once the search has ended
finish-Alloc :
    (s : Server) (no_mem : Option ℕ) (r : Option ℕ)
    → IsTable s.opentab
    → openfile_alloc_from s.opentab 0 ≡ r
    → Found s.opentab 0 r
    → Alloc no_mem s (openfile_alloc no_mem s)
finish-Alloc s no_mem none w e f =
    subst (Alloc no_mem s) (sym (run-full s no_mem e))
      (inl (refl, inl (refl, λ j h. f j (omega (arith, h, w.size)))))
finish-Alloc s no_mem (some i) w e (j, at, inside, spare, low) =
    let same : i ≡ j = omega arith in
    let small : i < maxopen = omega (arith, w.size) in
    let t = record s { opentab = set s.opentab i (reissued (file_at s i)) } in
    let new : Reissued s i t = record {
      inside = small;
      spare = subst (λ k. is_spare (file_at s k) ≡ true) (sym same) spare;
      least = λ m h. low m (omega arith);
      renewed = allocated_number s w i small;
      fresh = allocated_fresh s w i small;
      others = λ m ne. get_or-set_ne s.opentab i m (reissued (file_at s i)) no_file ne;
      table = allocated-IsTable s w i small;
      same_fs = refl;
    } in
    let ends = issued-Alloc no_mem s t i new in
    elim (Bool-cases ((file_at s i).refs == 0)) [
      | inr n ↦ subst (Alloc no_mem s) (sym (run-shared s no_mem i e n)) ends
      | inl y ↦
          subst (Alloc no_mem s) (sym (run-unused s no_mem i e y))
            (memory-Alloc s t no_mem no_mem i refl ends)
    ]

-- `openfile_alloc` takes the first entry whose page no client holds, gives it a number that it did
-- not have before and that leads to it, changes no other entry, and returns the number, which is
-- below 2 ^ 31. It fails, and changes nothing, with -E_MAX_OPEN if clients hold all pages, or with
-- the error of `sys_page_alloc`; it also returns a negative number, with the entry changed in the
-- same way, where the new number is 2 ^ 31 or more.
pub openfile_alloc-Alloc :
    (s : Server) (no_mem : Option ℕ) → IsTable s.opentab → Alloc no_mem s (openfile_alloc no_mem s)
openfile_alloc-Alloc s no_mem w =
    finish-Alloc s no_mem (openfile_alloc_from s.opentab 0) w refl
      (openfile_alloc_from-Found s.opentab 0)

-- the file of entry `i`, once a client holds its page too
abbrev pub shared : ℕ → Server → Server
shared i s = put_file i (record (file_at s i) { refs = 2 }) s

-- An entry whose page a client holds is found by its number, and by no other.
pub openfile_lookup-shared :
    (s : Server) (i fileid : ℕ)
    → IsTable s.opentab
    → i < maxopen
    → fileid % maxopen ≡ i
    → openfile_lookup fileid (shared i s) ≡ (
        if (file_at s i).fileid == fileid then sends i (shared i s) else fails e_inval (shared i s))
unfolding openfile_lookup put_file
openfile_lookup-shared s i fileid w small at =
    let o = record (file_at s i) { refs = 2 } in
    let here : get_or (set s.opentab i o) (fileid % maxopen) no_file ≡ o =
      ap (λ k. get_or (set s.opentab i o) k no_file) at
      ∙ get_or-set_self s.opentab i o no_file (omega (arith, w.size)) in
    ground (arith, here, at)
