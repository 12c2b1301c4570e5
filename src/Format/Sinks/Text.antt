-- ===== src/Format/Sinks/Text.antt =====
-- The sinks of stdio.c keep the text: which part of it, and where.
use damn_os_damn_fs.Prelude.{
  ℕ, zero, suc, ◌+◌, ◌-◌, ◌%◌, ◌<◌, min, ◌≡◌, refl, sym, ap, ap₂, subst, ◌∙◌, inl, inr, true, some,
  List, [], ◌∷◌, ◌++◌, append_assoc, append-nil, arith, ltb, ◌==◌, Bool-cases, length, take, drop,
  length-append,
}
use damn_os_damn_fs.Format.Sinks.{
  Sprintbuf, sprintputch, put_all, snprint, bytes, Printbuf, putch, cprint, joined,
}

abbrev buffer : List ℕ → ℕ → List ℕ → ℕ → Sprintbuf
buffer d n r k = record { done = d; room = n; rest = r; cnt = k }

same :
    {d d' r r' : List ℕ} {n n' k k' : ℕ}
    → d ≡ d'
    → n ≡ n'
    → r ≡ r'
    → k ≡ k'
    → buffer d n r k ≡ buffer d' n' r' k'
same p q r s i = buffer (p i) (q i) (r i) (s i)

drop_nil : (n : ℕ) (l : List ℕ) → l ≡ [] → drop n l ≡ []
drop_nil zero l e = e
drop_nil (suc n) [] e = refl
drop_nil (suc n) (x ∷ l) e = absurd (ground (arith, e))

take_nil : (n : ℕ) (l : List ℕ) → l ≡ [] → l ≡ take n l
take_nil zero l e = e
take_nil (suc n) [] e = refl
take_nil (suc n) (x ∷ l) e = absurd (ground (arith, e))

drop-drop_one : (n : ℕ) (l : List ℕ) → drop n (drop 1 l) ≡ drop (suc n) l
drop-drop_one n [] = drop_nil n [] refl
drop-drop_one n (x ∷ l) = refl

drop_one-drop : (n : ℕ) (l : List ℕ) → drop 1 (drop n l) ≡ drop (n + 1) l
drop_one-drop zero l = refl
drop_one-drop (suc n) [] = sym (drop_nil (suc n + 1) [] refl)
drop_one-drop (suc n) (x ∷ l) =
    let e : suc (n + 1) ≡ suc n + 1 = omega arith in drop_one-drop n l ∙ ap (λ k. drop k (x ∷ l)) e

sprintputch-room :
    (c : ℕ) (done rest : List ℕ) (room cnt : ℕ)
    → sprintputch c (buffer done (suc room) rest cnt)
      ≡ buffer (done ++ (c % 256 ∷ [])) room (drop 1 rest) (cnt + 1)
unfolding sprintputch
sprintputch-room c done rest room cnt =
    let e : suc room - 1 ≡ room = omega arith in
    let t : ltb 0 (suc room) ≡ true = ground arith in rw (t, e) refl

snprint-all :
    (out done rest : List ℕ) (room cnt : ℕ)
    → put_all sprintputch out (record { done = done; room = room; rest = rest; cnt = cnt })
      ≡ record {
        done = done ++ take room (bytes out);
        room = room - length out;
        rest = drop (min (length out) room) rest;
        cnt = cnt + length out;
      }
unfolding put_all sprintputch
snprint-all [] done rest room cnt =
    let none_gone : 0 ≡ min 0 room = omega arith in
    same (sym (append-nil done) ∙ ap (λ l. done ++ l) (take_nil room [] refl)) (omega arith)
      (ap (λ k. drop k rest) none_gone) (omega arith)
snprint-all (c ∷ out) done rest zero cnt =
    snprint-all out done rest 0 (cnt + 1)
    ∙ same refl (omega arith) (ap (λ k. drop k rest) (omega arith)) (omega arith)
snprint-all (c ∷ out) done rest (suc room) cnt =
    ap (put_all sprintputch out) (sprintputch-room c done rest room cnt)
    ∙ snprint-all out (done ++ (c % 256 ∷ [])) (drop 1 rest) room (cnt + 1)
    ∙ same (append_assoc done (c % 256 ∷ []) (take room (bytes out))) (omega arith)
        (drop-drop_one (min (length out) room) rest
          ∙ ap (λ k. drop k rest) {x = suc (min (length out) room)} (omega arith))
        (omega arith)

-- `vsnprintf` into a buffer of `n` bytes keeps as many of the characters as leave room for a NUL,
-- ends them with it, leaves the bytes behind as they were, and returns the number of all the
-- characters. It needs room for the NUL at least.
pub snprint-take :
    (buf out : List ℕ) (n : ℕ)
    → 0 < n
    → snprint buf n out
      ≡ some (take (n - 1) (bytes out) ++ 0 ∷ drop (min (length out) (n - 1) + 1) buf, length out)
unfolding snprint
snprint-take buf out zero h = absurd (omega arith)
snprint-take buf out (suc n) h =
    ap (λ (b : Sprintbuf). some (b.done ++ (0 ∷ drop 1 b.rest), b.cnt)) (snprint-all out [] buf n 0)
    ∙ ap₂ (λ (l : List ℕ) (k : ℕ). some (take n (bytes out) ++ 0 ∷ l, k))
        (drop_one-drop (min (length out) n) buf) (omega arith)
    ∙ ap (λ k. some (take k (bytes out) ++ 0 ∷ drop (min (length out) k + 1) buf, length out))
        (omega arith)

joined-snoc : (ls : List (List ℕ)) (l : List ℕ) → joined (ls ++ (l ∷ [])) ≡ joined ls ++ l
joined-snoc [] l = append-nil l
joined-snoc (m ∷ ls) l = ap (λ t. m ++ t) (joined-snoc ls l) ∙ sym (append_assoc m (joined ls) l)

-- the pieces so far and what waits are the text so far
record Held (text : List ℕ) (b : Printbuf) : Type 0 where
  all : joined b.cputs ++ b.waiting ≡ text
  count : b.cnt ≡ length text
  small : length b.waiting < 255

putch-Held :
    (text : List ℕ) (b : Printbuf) (c : ℕ) → Held text b → Held (text ++ (c % 256 ∷ [])) (putch c b)
unfolding putch
putch-Held text b c h = elim (Bool-cases (length (b.waiting ++ (c % 256 ∷ [])) == 255)) [
  | inl y ↦ rw y (record {
    all =
        append-nil (joined (b.cputs ++ ((b.waiting ++ (c % 256 ∷ [])) ∷ [])))
        ∙ joined-snoc b.cputs (b.waiting ++ (c % 256 ∷ []))
        ∙ longer;
    count = count;
    small = omega arith;
  })
  | inr n ↦ rw n (record {
    all = longer;
    count = count;
    small = ground (arith, n, h.small, length-append b.waiting (c % 256 ∷ []));
  })
]
  where
    longer : joined b.cputs ++ (b.waiting ++ (c % 256 ∷ [])) ≡ text ++ (c % 256 ∷ [])
    longer =
        sym (append_assoc (joined b.cputs) b.waiting (c % 256 ∷ []))
        ∙ ap (λ l. l ++ (c % 256 ∷ [])) h.all

    count : b.cnt + 1 ≡ length (text ++ (c % 256 ∷ []))
    count = omega (arith, h.count, length-append text (c % 256 ∷ []))

put_all-Held :
    (out text : List ℕ) (b : Printbuf)
    → Held text b
    → Held (text ++ bytes out) (put_all putch out b)
unfolding put_all
put_all-Held [] text b h = subst (λ t. Held t b) (sym (append-nil text)) h
put_all-Held (c ∷ out) text b h =
    subst (λ t. Held t (put_all putch out (putch c b)))
      (append_assoc text (c % 256 ∷ []) (bytes out))
      (put_all-Held out (text ++ (c % 256 ∷ [])) (putch c b) (putch-Held text b c h))

length-bytes : (out : List ℕ) → length (bytes out) ≡ length out
length-bytes [] = refl
length-bytes (c ∷ out) = ap suc (length-bytes out)

-- The user's `vcprintf` hands all the characters to `sys_cputs`, in their order, and returns their
-- number.
pub cprint-text :
    (out : List ℕ) → (joined ((cprint out).0) ≡ bytes out) × ((cprint out).1 ≡ length out)
unfolding cprint
cprint-text out =
    let b = put_all putch out (record { waiting = []; cputs = []; cnt = 0 }) in
    let h =
      put_all-Held out [] (record { waiting = []; cputs = []; cnt = 0 })
        (record { all = refl; count = refl; small = omega arith }) in
    (joined-snoc b.cputs b.waiting ∙ h.all, h.count ∙ length-bytes out)
