-- ===== src/Pipe/Fifo.antt =====
-- A pipe of pipe.c is a queue of at most 32 bytes.
use damn_os_damn_fs.Prelude.{
  ℕ, zero, suc, ◌+◌, ◌-◌, ◌%◌, ◌≤◌, ◌<◌, ◌≡◌, refl, sym, ap, ap₂, ◌∙◌, Bool, true, false, List, [],
  ◌∷◌, ◌++◌, get_or, set, length, length-set, get_or-set_self, get_or-set_ne, arith, ◌⊎◌, inl, inr,
  Bool-cases, ◌≢◌,
}
use damn_os_damn_fs.Pipe.{
  Pipe, Step, returns, yields, front, taken, stored, is_empty, is_full, read_from, devpipe_read,
  write_from, devpipe_write, pipebufsiz,
}

pub record IsPipe (p : Pipe) : Type 0 where
  pub order : p.p_rpos ≤ p.p_wpos
  pub bound : p.p_wpos ≤ p.p_rpos + pipebufsiz
  pub size : length p.p_buf ≡ pipebufsiz

-- the `k` bytes of a buffer from position `r` on
unfoldable pub queued : List ℕ → ℕ → ℕ → List ℕ
queued buf zero r = []
queued buf (suc k) r = get_or buf (r % pipebufsiz) 0 ∷ queued buf k (r + 1)

-- the bytes in the pipe, oldest first
unfoldable pub queue : Pipe → List ℕ
unfolding queued
queue p = queued p.p_buf (p.p_wpos - p.p_rpos) p.p_rpos

-- A byte stored at a later position does not show.
queued-keep :
    (buf : List ℕ) (k r q c : ℕ)
    → r + k ≤ q
    → q < r + pipebufsiz
    → queued (set buf (q % pipebufsiz) c) k r ≡ queued buf k r
unfolding queued
queued-keep buf zero r q c h n = refl
queued-keep buf (suc k) r q c h n =
    ap₂ ◌∷◌ (get_or-set_ne buf (q % pipebufsiz) (r % pipebufsiz) c 0 (λ e. omega arith))
      (queued-keep buf k (r + 1) q c (omega arith) (omega arith))

queued-suc :
    (buf : List ℕ) (k r : ℕ)
    → queued buf (suc k) r ≡ queued buf k r ++ (get_or buf ((r + k) % pipebufsiz) 0 ∷ [])
unfolding queued
queued-suc buf zero r = ap (λ i. get_or buf (i % pipebufsiz) 0 ∷ []) (omega arith)
queued-suc buf (suc k) r =
    ap (λ l. get_or buf (r % pipebufsiz) 0 ∷ l)
      (queued-suc buf k (r + 1)
        ∙ ap (λ i. queued buf k (r + 1) ++ (get_or buf (i % pipebufsiz) 0 ∷ [])) (omega arith))

module _ (p : Pipe) (v : IsPipe p) where
  pub queue-stored : (c : ℕ) → is_full p ≡ false → queue (stored c p) ≡ queue p ++ (c ∷ [])
  unfolding queue stored
  queue-stored c h =
      let k = p.p_wpos - p.p_rpos in
      let q = p.p_wpos % pipebufsiz in
      let more : p.p_wpos + 1 - p.p_rpos ≡ suc k = omega (arith, v.order) in
      let at_end : (p.p_rpos + k) % pipebufsiz ≡ q =
        ap (λ i. i % pipebufsiz) (omega (arith, v.order)) in
      ap (λ n. queued (set p.p_buf q c) n p.p_rpos) more
      ∙ queued-suc (set p.p_buf q c) k p.p_rpos
      ∙ ap₂ (λ l x. l ++ (x ∷ []))
          (queued-keep p.p_buf k p.p_rpos p.p_wpos c (omega (arith, v.order)) (ground (arith, h)))
          (ap (λ i. get_or (set p.p_buf q c) i 0) at_end
            ∙ get_or-set_self p.p_buf q c 0 (omega (arith, v.size)))

  pub stored-IsPipe : (c : ℕ) → is_full p ≡ false → IsPipe (stored c p)
  unfolding stored
  stored-IsPipe c h = record {
    order = omega (arith, v.order);
    bound = ground (arith, v.bound, h);
    size = length-set p.p_buf (p.p_wpos % pipebufsiz) c ∙ v.size;
  }

  pub queue-taken : is_empty p ≡ false → queue p ≡ front p ∷ queue (taken p)
  unfolding queue taken front queued
  queue-taken h =
      let more : p.p_wpos - p.p_rpos ≡ suc (p.p_wpos - (p.p_rpos + 1)) =
        ground (arith, h, v.order) in
      ap (λ n. queued p.p_buf n p.p_rpos) more

  pub taken-IsPipe : is_empty p ≡ false → IsPipe (taken p)
  unfolding taken
  taken-IsPipe h = record {
    order = ground (arith, v.order, h);
    bound = omega (arith, v.bound);
    size = v.size;
  }

  pub queue-empty : is_empty p ≡ true → queue p ≡ []
  unfolding queue queued
  queue-empty h =
      let none_left : p.p_wpos - p.p_rpos ≡ 0 = ground (arith, h) in
      ap (λ n. queued p.p_buf n p.p_rpos) none_left

-- What a read may come to: what it returns came from the front of the queue, behind what it had.
abbrev pub ReadStep : Pipe → Bool → ℕ → List ℕ → Step (List ℕ) → Type 0
ReadStep p closed n got (returns l q) =
    IsPipe q
    × (got ++ queue p ≡ l ++ queue q)
    × (length got ≤ length l)
    × (length l ≤ length got + n)
    × ((length l ≡ length got + n) ⊎ (queue q ≡ []))
    × ((0 < length l) ⊎ ((n ≡ 0) ⊎ (closed ≡ true)))
ReadStep p closed n got (yields rest q) =
    (q ≡ p) × (rest ≡ []) × (got ≡ []) × (queue p ≡ []) × (closed ≡ false)

append-cons : (l r : List ℕ) (c : ℕ) → (l ++ (c ∷ [])) ++ r ≡ l ++ c ∷ r
append-cons [] r c = refl
append-cons (x ∷ l) r c = ap (λ m. x ∷ m) (append-cons l r c)

length-snoc : (l : List ℕ) (c : ℕ) → length (l ++ (c ∷ [])) ≡ length l + 1
length-snoc [] c = refl
length-snoc (x ∷ l) c = omega (arith, length-snoc l c)

-- the bytes that a write has yet to place, at most those it was given, all at the end of the queue
abbrev pub WriteStep : Pipe → Bool → ℕ → List ℕ → Step ℕ → Type 0
WriteStep p closed i buf (returns n q) =
    IsPipe q
    × (((n ≡ i + length buf) × (queue q ≡ queue p ++ buf))
        ⊎ ((n ≡ 0)
            × (closed ≡ true)
            × (is_full q ≡ true)
            × ((rest : List ℕ) × (queue q ++ rest ≡ queue p ++ buf))))
WriteStep p closed i buf (yields rest q) =
    IsPipe q
    × (queue q ++ rest ≡ queue p ++ buf)
    × (is_full q ≡ true)
    × (closed ≡ false)
    × (rest ≢ [])

write-next :
    (p : Pipe) (closed : Bool) (i c : ℕ) (buf : List ℕ) (r : Step ℕ)
    → queue (stored c p) ≡ queue p ++ (c ∷ [])
    → WriteStep (stored c p) closed (i + 1) buf r
    → WriteStep p closed i (c ∷ buf) r
write-next p closed i c buf (returns n q) e (v, inl (count, all)) =
    (v, inl (omega arith, all ∙ ap (λ l. l ++ buf) e ∙ append-cons (queue p) buf c))
write-next p closed i c buf (returns n q) e (v, inr (z, cl, full, (rest, all))) =
    (v, inr (z, cl, full, (rest, all ∙ ap (λ l. l ++ buf) e ∙ append-cons (queue p) buf c)))
write-next p closed i c buf (yields rest q) e (v, all, full, cl, more) =
    (v, all ∙ ap (λ l. l ++ buf) e ∙ append-cons (queue p) buf c, full, cl, more)

append-nil : (l : List ℕ) → l ≡ l ++ []
append-nil [] = refl
append-nil (x ∷ l) = ap (λ m. x ∷ m) (append-nil l)

write_from-WriteStep :
    (buf : List ℕ) (p : Pipe) (closed : Bool) (i : ℕ)
    → IsPipe p
    → WriteStep p closed i buf (write_from buf closed i p)
unfolding write_from
write_from-WriteStep [] p closed i v = (v, inl (omega arith, append-nil (queue p)))
write_from-WriteStep (c ∷ buf) p closed i v = elim (Bool-cases (is_full p)) [
  | inr n ↦ rw n (
      write-next p closed i c buf (write_from buf closed (i + 1) (stored c p))
        (queue-stored p v c n)
        (write_from-WriteStep buf (stored c p) closed (i + 1) (stored-IsPipe p v c n)))
  | inl y ↦ elim (Bool-cases closed) [
    | inl e ↦ rw (y, e) (v, inr (refl, refl, y, (c ∷ buf, refl)))
    | inr e ↦ rw (y, e) (v, refl, y, refl, λ z. ground (arith, z))
  ]
]

-- `devpipe_write` stores bytes behind those in the pipe, in their order. It returns the number of
-- them if all are stored; with the pipe full it yields with the bytes that are left, or, if the
-- readers are gone, returns 0.
pub devpipe_write-WriteStep :
    (p : Pipe) (closed : Bool) (buf : List ℕ)
    → IsPipe p
    → WriteStep p closed 0 buf (devpipe_write buf closed p)
unfolding devpipe_write
devpipe_write-WriteStep p closed buf v = write_from-WriteStep buf p closed 0 v

read-next :
    (p : Pipe) (closed : Bool) (n c : ℕ) (got : List ℕ) (r : Step (List ℕ))
    → queue p ≡ c ∷ queue (taken p)
    → ReadStep (taken p) closed n (got ++ (c ∷ [])) r
    → ReadStep p closed (suc n) got r
read-next p closed n c got (returns l q) e (v, all, least, at_most, most, some_left) = (
  v,
  ap (λ m. got ++ m) e ∙ sym (append-cons got (queue (taken p)) c) ∙ all,
  omega (arith, least, length-snoc got c),
  omega (arith, at_most, length-snoc got c),
  longer most,
  inl (omega (arith, least, length-snoc got c)),
)
  where
    longer :
        (length l ≡ length (got ++ (c ∷ [])) + n) ⊎ (queue q ≡ [])
        → (length l ≡ length got + suc n) ⊎ (queue q ≡ [])
    longer (inl h) = inl (omega (arith, h, length-snoc got c))
    longer (inr h) = inr h
read-next p closed n c got (yields rest q) e (same, none_left, nil, drained, cl) =
    absurd (omega (arith, length-snoc got c, ap (λ (l : List ℕ). length l) nil))

read_from-ReadStep :
    (n : ℕ) (p : Pipe) (closed : Bool) (got : List ℕ)
    → IsPipe p
    → ReadStep p closed n got (read_from n closed got p)
unfolding read_from
read_from-ReadStep zero p closed got v =
    (v, refl, omega arith, omega arith, inl (omega arith), inr (inl refl))
read_from-ReadStep (suc n) p closed [] v = elim (Bool-cases (is_empty p)) [
  | inr f ↦ rw f (
      read-next p closed n (front p) [] (read_from n closed (front p ∷ []) (taken p))
        (queue-taken p v f)
        (read_from-ReadStep n (taken p) closed (front p ∷ []) (taken-IsPipe p v f)))
  | inl y ↦ elim (Bool-cases closed) [
    | inl e ↦ rw (y, e) (v, refl, omega arith, omega arith, inr (queue-empty p v y), inr (inr refl))
    | inr e ↦ rw (y, e) (refl, refl, refl, queue-empty p v y, refl)
  ]
]
read_from-ReadStep (suc n) p closed (b ∷ got) v = elim (Bool-cases (is_empty p)) [
  | inr f ↦ rw f (
      read-next p closed n (front p) (b ∷ got)
        (read_from n closed ((b ∷ got) ++ (front p ∷ [])) (taken p)) (queue-taken p v f)
        (read_from-ReadStep n (taken p) closed ((b ∷ got) ++ (front p ∷ [])) (taken-IsPipe p v f)))
  | inl y ↦ rw y (v, refl, omega arith, omega arith, inr (queue-empty p v y), inl (omega arith))
]

-- `devpipe_read` returns the bytes at the front of the pipe, in their order, and leaves the rest:
-- as many as were asked for, or all there are if these are fewer. With no byte in the pipe it yields, or, if the
-- writers are gone, returns none.
pub devpipe_read-ReadStep :
    (p : Pipe) (closed : Bool) (n : ℕ) → IsPipe p → ReadStep p closed n [] (devpipe_read n closed p)
unfolding devpipe_read
devpipe_read-ReadStep p closed n v = read_from-ReadStep n p closed [] v
