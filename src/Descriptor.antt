-- ===== src/Descriptor.antt =====
-- File descriptors: fd.c. A page of the descriptor area is named by its place in it: descriptor `i`
-- has its `struct Fd` at place `i` and its data at `MAXFD + i`.
pub mod Dup
pub mod File
mod Tests
use damn_os_damn_fs.Prelude.{
  ℕ, zero, suc, ◌+◌, ◌-◌, ◌*◌, ◌/◌, ◌%◌, ◌^◌, ◌≤◌, ◌<◌, min, ◌≡◌, refl, sym, ap, ap₂, subst, ◌∙◌,
  ◌≢◌, ◌↔◌, ◌⊎◌, inl, inr, Bool, true, false, ◌&&◌, ◌||◌, not, Option, none, some, List, [], ◌∷◌,
  ◌++◌, append_assoc, append-nil, arith, ltb, leb, ◌==◌, if◌then◌else◌, Bool-cases, ==_iff, length,
  get_or, set, take, drop, replicate, length-append, length-set, length-replicate, get_or-set_self,
  get_or-set_ne, codes, fun_ext,
}
use damn_os_damn_fs.Prelude.Int.{ℤ, pos, negsuc}
use damn_os_damn_fs.Fs.State.{e_inval}
use damn_os_damn_fs.Server.{Fd, blank_fd, e_max_open}

abbrev pub maxfd : ℕ
maxfd = 32

-- error.h, and the modes of syslib.h
abbrev pub e_not_supp : ℕ
e_not_supp = 17

abbrev pub o_rdonly : ℕ
o_rdonly = 0

abbrev pub o_wronly : ℕ
o_wronly = 1

-- What a call returns: a value, or `-e`.
pub data Answer (A : Type 0) : Type 0 where
  ok : A → Answer A
  err : ℕ → Answer A

-- A process: the physical page at each place of the descriptor area, the `struct Fd` that a page
-- holds, and all that the devices work on.
pub record Process (W : Type 0) : Type 0 where
  pub vm : ℕ → Option ℕ
  pub fd_of : ℕ → Fd
  pub world : W

abbrev pub Call : Type 0 → Type 0 → Type 0
Call W A = Process W → Answer A × Process W

-- `struct Stat`
pub record Stat : Type 0 where
  pub st_name : List ℕ
  pub st_size : ℕ
  pub st_isdir : ℕ

-- `struct Dev`; a null function pointer is `none`. The descriptor is given by its number.
pub record Dev (W : Type 0) : Type 0 where
  pub dev_id : ℕ
  pub dev_read : Option (ℕ → ℕ → Call W (List ℕ))
  pub dev_write : Option (ℕ → List ℕ → Call W ℕ)
  pub dev_close : Option (ℕ → Call W ℕ)
  pub dev_stat : Option (ℕ → Call W Stat)
  pub dev_trunc : Option (ℕ → ℕ → Call W ℕ)

-- a function changed at one argument
abbrev pub at {ℓ} : {A : Type ℓ} → (ℕ → A) → ℕ → A → ℕ → A
at f b v n = if n == b then v else f n

module _ {W : Type 0} where
  -- the `struct Fd` of a descriptor
  abbrev pub fd_at : Process W → ℕ → Fd
  fd_at s i = elim (s.vm i) [ none ↦ blank_fd | some p ↦ s.fd_of p ]

  abbrev pub unmap : ℕ → Process W → Process W
  unmap i s = record s { vm = at s.vm i none }

  unfoldable pub fd_alloc_from : ℕ → ℕ → Process W → Option ℕ
  fd_alloc_from zero i s = none
  fd_alloc_from (suc k) i s = elim (s.vm i) [ none ↦ some i | some p ↦ fd_alloc_from k (suc i) s ]

  unfoldable pub fd_alloc : Process W → Answer ℕ
  unfolding fd_alloc_from
  fd_alloc s = elim (fd_alloc_from maxfd 0 s) [ none ↦ err e_max_open | some i ↦ ok i ]

  unfoldable pub fd_lookup : ℤ → Process W → Option ℕ
  fd_lookup (negsuc n) s = none
  fd_lookup (pos n) s =
      if leb maxfd n then none else elim (s.vm n) [ none ↦ none | some p ↦ some n ]

  -- `devtab` is an argument: the devices of file.c, pipe.c and uconsole.c.
  unfoldable pub dev_lookup : List (Dev W) → ℕ → Option (Dev W)
  dev_lookup [] id = none
  dev_lookup (d ∷ tab) id = if d.dev_id == id then some d else dev_lookup tab id

  -- The device closes its side; then the page goes.
  unfoldable pub run_close : Option (ℕ → Call W ℕ) → ℕ → Call W ℕ
  run_close none i s = (ok 0, unmap i s)
  run_close (some f) i s = let r = f i s in (r.0, unmap i r.1)

  unfoldable pub close_device : Option (Dev W) → ℕ → Call W ℕ
  unfolding run_close
  close_device none i s = (err e_inval, unmap i s)
  close_device (some d) i s = run_close d.dev_close i s

  -- by what fd_lookup answers in fd_close, and in close
  unfoldable pub fd_close_found : List (Dev W) → Option ℕ → ℕ → Bool → Call W ℕ
  unfolding dev_lookup close_device
  fd_close_found tab none i must_exist s = (if must_exist then err e_inval else ok 0, s)
  fd_close_found tab (some j) i must_exist s = close_device (dev_lookup tab (fd_at s i).dev_id) i s

  unfoldable pub fd_close : List (Dev W) → ℕ → Bool → Call W ℕ
  unfolding fd_lookup fd_close_found
  fd_close tab i must_exist s = fd_close_found tab (fd_lookup (pos i) s) i must_exist s

  unfoldable pub close_found : List (Dev W) → Option ℕ → Call W ℕ
  unfolding fd_close
  close_found tab none s = (err e_inval, s)
  close_found tab (some i) s = fd_close tab i true s

  unfoldable pub close : List (Dev W) → ℤ → Call W ℕ
  unfolding fd_lookup close_found
  close tab fdnum s = close_found tab (fd_lookup fdnum s) s

  unfoldable pub close_from : List (Dev W) → ℕ → ℕ → Process W → Process W
  unfolding close
  close_from tab zero i s = s
  close_from tab (suc k) i s = close_from tab k (suc i) (close tab (pos i) s).1

  unfoldable pub close_all : List (Dev W) → Process W → Process W
  unfolding close_from
  close_all tab s = close_from tab maxfd 0 s

  -- `sys_page_map` within the process; `map_fails` is its answer, none or an error.
  unfoldable pub page_map : (ℕ → ℕ → Option ℕ) → ℕ → ℕ → Call W ℕ
  page_map map_fails from to s = elim (map_fails from to) [
    | none ↦ (ok 0, record s { vm = at s.vm to (s.vm from) })
    | some e ↦ (err e, s)
  ]

  -- `goto err`
  unfoldable pub undo_dup : ℕ → ℕ → Call W ℕ
  undo_dup e new s = (err e, unmap (maxfd + new) (unmap new s))

  unfoldable pub dup_fd : (ℕ → ℕ → Option ℕ) → ℕ → ℕ → Call W ℕ
  unfolding page_map undo_dup
  dup_fd map_fails i new s =
      let r = page_map map_fails i new s in
      elim r.0 [ ok n ↦ (ok new, r.1) | err e ↦ undo_dup e new r.1 ]

  -- The data page first, if there is one.
  unfoldable pub dup_pages : (ℕ → ℕ → Option ℕ) → Option ℕ → ℕ → ℕ → Call W ℕ
  unfolding page_map undo_dup dup_fd
  dup_pages map_fails none i new s = dup_fd map_fails i new s
  dup_pages map_fails (some q) i new s =
      let r = page_map map_fails (maxfd + i) (maxfd + new) s in
      elim r.0 [ ok n ↦ dup_fd map_fails i new r.1 | err e ↦ undo_dup e new r.1 ]

  unfoldable pub dup_found : (ℕ → ℕ → Option ℕ) → List (Dev W) → Option ℕ → ℕ → Call W ℕ
  unfolding close dup_pages
  dup_found map_fails tab none new s = (err e_inval, s)
  dup_found map_fails tab (some i) new s =
      let u = (close tab (pos new) s).1 in dup_pages map_fails (u.vm (maxfd + i)) i new u

  -- (`newfdnum` is not checked; a negative one would name a page before the area.)
  unfoldable pub dup : (ℕ → ℕ → Option ℕ) → List (Dev W) → ℤ → ℕ → Call W ℕ
  unfolding fd_lookup dup_found
  dup map_fails tab old new s = dup_found map_fails tab (fd_lookup old s) new s

  -- The descriptor and its device, or `-E_INVAL` for either.
  unfoldable pub with_device : {A : Type 0} → List (Dev W) → ℤ → (ℕ → Dev W → Call W A) → Call W A
  unfolding fd_lookup dev_lookup
  with_device tab fdnum k s = elim (fd_lookup fdnum s) [
    | none ↦ (err e_inval, s)
    | some i ↦ elim (dev_lookup tab (fd_at s i).dev_id) [
      | none ↦ (err e_inval, s)
      | some d ↦ k i d s
    ]
  ]

  -- a function of the device, or `-E_NOT_SUPP`
  abbrev supported : {A B : Type 0} → Option B → (B → Call W A) → Call W A
  supported none k s = (err e_not_supp, s)
  supported (some f) k s = k f s

  -- `fd_omode & O_ACCMODE`
  unfoldable pub accmode : ℕ → Process W → ℕ
  accmode i s = (fd_at s i).omode % 4

  unfoldable pub read : List (Dev W) → ℤ → ℕ → Call W (List ℕ)
  unfolding with_device accmode
  read tab fdnum n = with_device tab fdnum λ i d s.
      if accmode i s == o_wronly then (err e_inval, s) else supported d.dev_read (λ f. f i n) s

  unfoldable pub write : List (Dev W) → ℤ → List ℕ → Call W ℕ
  unfolding with_device accmode
  write tab fdnum buf = with_device tab fdnum λ i d s.
      if accmode i s == o_rdonly then (err e_inval, s) else supported d.dev_write (λ f. f i buf) s

  unfoldable pub ftruncate : List (Dev W) → ℤ → ℕ → Call W ℕ
  unfolding with_device accmode
  ftruncate tab fdnum size = with_device tab fdnum λ i d s.
      if accmode i s == o_rdonly then (err e_inval, s) else supported d.dev_trunc (λ f. f i size) s

  unfoldable pub fstat : List (Dev W) → ℤ → Call W Stat
  unfolding with_device
  fstat tab fdnum = with_device tab fdnum λ i d s. supported d.dev_stat (λ f. f i) s

  -- the bytes read before those of the further calls
  abbrev pub then_read :
      List ℕ → Option (Answer (List ℕ) × Process W) → Option (Answer (List ℕ) × Process W)
  then_read l none = none
  then_read l (some (err e, t)) = some (err e, t)
  then_read l (some (ok m, t)) = some (ok (l ++ m), t)

  -- what `readn` does with the answer of `read`
  unfoldable pub after_read :
      Answer (List ℕ) × Process W
      → (ℕ → Process W → Option (Answer (List ℕ) × Process W))
      → Option (Answer (List ℕ) × Process W)
  after_read (err e, t) more = some (err e, t)
  after_read (ok [], t) more = some (ok [], t)
  after_read (ok (c ∷ l), t) more = then_read (c ∷ l) (more (length (c ∷ l)) t)

  -- `readn` for at most `fuel` calls of `read`; `none` if they do not suffice.
  unfoldable pub readn : ℕ → List (Dev W) → ℤ → ℕ → Process W → Option (Answer (List ℕ) × Process W)
  unfolding read after_read
  readn zero tab fdnum n s = none
  readn (suc fuel) tab fdnum n s =
      let rest = after_read (read tab fdnum n s) (λ m t. readn fuel tab fdnum (n - m) t) in
      if n == 0 then some (ok [], s) else rest

  unfoldable pub seek_page : Option ℕ → ℕ → Call W ℕ
  seek_page none off s = (ok 0, s)
  seek_page (some p) off s =
      (ok 0, record s { fd_of = at s.fd_of p (record (s.fd_of p) { offset = off }) })

  unfoldable pub seek_found : Option ℕ → ℕ → Call W ℕ
  unfolding seek_page
  seek_found none off s = (err e_inval, s)
  seek_found (some i) off s = seek_page (s.vm i) off s

  unfoldable pub seek : ℤ → ℕ → Call W ℕ
  unfolding fd_lookup seek_found
  seek fdnum off s = seek_found (fd_lookup fdnum s) off s
