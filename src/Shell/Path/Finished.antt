-- ===== src/Shell/Path/Finished.antt =====
-- cd of sh.c comes to an end, and overruns none of its buffers where the path is short enough.
use damn_os_damn_fs.Prelude.{
  ℕ, zero, suc, ◌+◌, ◌-◌, ◌≤◌, ◌<◌, ◌≡◌, refl, sym, ap, ◌∙◌, ◌≢◌, ◌⊎◌, subst, inl, inr, Bool, true,
  false, ◌&&◌, not, Option, none, some, List, [], ◌∷◌, ◌++◌, arith, ltb, ◌==◌, if◌then◌else◌,
  Bool-cases, length, get_or, take, drop, length-append,
}
use damn_os_damn_fs.Shell.Path.{
  Files, maxnamelen, maxpathlen, last_byte, parent_end, go_down, go_up, element_end, has_entry,
  stepped, update_fullpath, CdResult, ends, overruns, target_overruns, fullpath_overruns, cd,
}

pub element_end-le : (l : List ℕ) → element_end l ≤ length l
unfolding element_end
element_end-le [] = omega arith
element_end-le (c ∷ l) = ground (arith, element_end-le l)

pub length-drop : (n : ℕ) (l : List ℕ) → length (drop n l) ≡ length l - n
length-drop zero l = omega arith
length-drop (suc n) [] = omega arith
length-drop (suc n) (c ∷ l) = omega (arith, length-drop n l)

-- No name of the path is too long for `target`.
abbrev pub ShortNames : List ℕ → Type 0
ShortNames path = (k : ℕ) → element_end (drop k path) < maxnamelen

drop-nil : (n : ℕ) → drop {A = ℕ} n [] ≡ []
drop-nil zero = refl
drop-nil (suc n) = refl

drop-drop : (n k : ℕ) (l : List ℕ) → drop k (drop n l) ≡ drop (n + k) l
drop-drop zero k l = ap (λ i. drop i l) (omega arith)
drop-drop (suc n) k [] = drop-nil k ∙ sym (drop-nil (suc n + k))
drop-drop (suc n) k (c ∷ l) =
    let e : suc (n + k) ≡ suc n + k = omega arith in drop-drop n k l ∙ ap (λ i. drop i (c ∷ l)) e

drop-ShortNames : (n : ℕ) (l : List ℕ) → ShortNames l → ShortNames (drop n l)
drop-ShortNames n l h k =
    subst (λ q. element_end q < maxnamelen) (sym (drop-drop n k l)) (h (n + k))

get_or-drop : (n : ℕ) (l : List ℕ) → get_or (drop n l) 0 0 ≡ get_or l n 0
get_or-drop zero l = refl
get_or-drop (suc n) [] = refl
get_or-drop (suc n) (c ∷ l) = get_or-drop n l

-- An element ends at a slash or at the end of the path.
element_end-stops :
    (l : List ℕ) → (get_or l (element_end l) 0 ≡ b'/') ⊎ (get_or l (element_end l) 0 ≡ 0)
unfolding element_end
element_end-stops [] = inr refl
element_end-stops (c ∷ l) = elim (Bool-cases (not (c == b'/') && not (c == 0))) [
  | inl y ↦ rw y (element_end-stops l)
  | inr n ↦ rw n (ground (arith, n))
]

length-take-le : (n : ℕ) (l : List ℕ) → length (take n l) ≤ n
length-take-le zero l = omega arith
length-take-le (suc n) [] = omega arith
length-take-le (suc n) (c ∷ l) = omega (arith, length-take-le n l)

length-take-all : (n : ℕ) (l : List ℕ) → length (take n l) ≤ length l
length-take-all zero l = omega arith
length-take-all (suc n) [] = omega arith
length-take-all (suc n) (c ∷ l) = omega (arith, length-take-all n l)

slash-le : (b : Bool) → length {A = ℕ} (if b then b'/' ∷ [] else []) ≤ 1
slash-le true = omega arith
slash-le false = omega arith

go_down-le : (post cur : List ℕ) (n : ℕ) → length (go_down post n cur) ≤ length cur + 1 + n
unfolding go_down
go_down-le post cur n =
    let b = not (get_or post 0 0 == b'/') && not (last_byte cur == b'/') in
    let slash : List ℕ = if b then b'/' ∷ [] else [] in
    omega (
      arith,
      length-append cur (slash ++ take n post),
      length-append slash (take n post),
      slash-le b,
      length-take-le n post,
    )

stepped-le : (target cur : List ℕ) → length (stepped target cur) ≤ length cur + 1 + length target
unfolding stepped go_up
stepped-le target cur = ground (
  arith,
  go_down-le target cur (length target),
  length-take-all (parent_end cur (length cur - 1)) cur,
)

update_fullpath-le :
    (cur post : List ℕ) → length (update_fullpath cur post) ≤ length cur + 1 + length post
unfolding update_fullpath
update_fullpath-le cur post = elim (Bool-cases (last_byte cur == b'/')) [
  | inl y ↦ rw y (omega (arith, length-append cur post))
  | inr n ↦ rw n (omega (arith, length-append cur (b'/' ∷ post)))
]

abbrev Ended : CdResult → Type 0
Ended o = (b : Bool) × (c : List ℕ) × (o ≡ ends b c)

ended : (b : Bool) (c : List ℕ) → Ended (ends b c)
ended b c = (b, c, refl)

-- The tests of `cd` behind the first, in their order: each way out gives a result, if no buffer is
-- overrun and the recursive call gives one.
branches-Ended :
    (cur : List ℕ) (rest : CdResult) (last over long slash over_root over_full : Bool)
    (stat : Option Bool) (opens has : Bool)
    → over ≡ false
    → (last ≡ false → slash ≡ true → over_root ≡ false)
    → over_full ≡ false
    → (slash ≡ false → Ended rest)
    → Ended (
        if last
        then ends false cur
        else if over
        then overruns
        else if long
        then ends true cur
        else if slash
        then (if over_root then overruns else ends true cur)
        else if over_full
        then overruns
        else elim stat as (λ x. CdResult) [
          | none ↦ ends true cur
          | some is_dir ↦
              if not is_dir
              then ends false cur
              else if not opens
              then ends true cur
              else if has
              then rest
              else ends true cur
        ])
branches-Ended cur rest true o long slash r f stat opens has p q s e = ended false cur
branches-Ended cur rest false true long slash r f stat opens has p q s e =
    absurd (ground (arith, p))
branches-Ended cur rest false false true slash r f stat opens has p q s e = ended true cur
branches-Ended cur rest false false false true true f stat opens has p q s e =
    absurd (ground (arith, q refl refl))
branches-Ended cur rest false false false true false f stat opens has p q s e = ended true cur
branches-Ended cur rest false false false false r true stat opens has p q s e =
    absurd (ground (arith, s))
branches-Ended cur rest false false false false r false none opens has p q s e = ended true cur
branches-Ended cur rest false false false false r false (some false) opens has p q s e =
    ended false cur
branches-Ended cur rest false false false false r false (some true) false has p q s e =
    ended true cur
branches-Ended cur rest false false false false r false (some true) true true p q s e = e refl
branches-Ended cur rest false false false false r false (some true) true false p q s e =
    ended true cur

-- the path behind a slash at its front
abbrev relative : List ℕ → List ℕ
relative path = if get_or path 0 0 == b'/' then drop 1 path else path

relative-ShortNames : (path : List ℕ) → ShortNames path → ShortNames (relative path)
relative-ShortNames path h = either (get_or path 0 0 == b'/')
  where
    either : (b : Bool) → ShortNames (if b then drop 1 path else path)
    either true = drop-ShortNames 1 path h
    either false = h

-- `fullpath` has room for the path below `cur`: what is left of it begins with a slash, or there is
-- room for one.
abbrev HasRoom : List ℕ → List ℕ → Type 0
HasRoom path cur =
    ((get_or path 0 0 ≡ b'/') × (length cur + length path < maxpathlen))
    ⊎ (length cur + 1 + length path < maxpathlen)

nonempty : (l : List ℕ) (i : ℕ) → get_or l i 0 ≢ 0 → i < length l
nonempty [] i h = absurd (h refl)
nonempty (c ∷ l) zero h = omega arith
nonempty (c ∷ l) (suc i) h = omega (arith, nonempty l i h)

relative-room :
    (path cur : List ℕ)
    → HasRoom path cur
    → (length cur + 1 + length (relative path) < maxpathlen)
      × (length (relative path) ≤ length path)
relative-room path cur room = elim (Bool-cases (get_or path 0 0 == b'/')) [
  | inl y ↦
      let here : 0 < length path = nonempty path 0 (λ z. ground (arith, z, y)) in
      rw y (omega (arith, room, here, length-drop 1 path), omega (arith, length-drop 1 path))
  | inr n ↦ rw n (plain n room, omega arith)
]
  where
    plain :
        (get_or path 0 0 == b'/') ≡ false
        → HasRoom path cur
        → length cur + 1 + length path < maxpathlen
    plain n (inl (y, h)) = absurd (ground (arith, n, y))
    plain n (inr h) = h

cd-empty :
    (k : ℕ) (fs : Files) (path cur : List ℕ) → get_or path 0 0 ≡ 0 → Ended (cd (suc k) fs path cur)
unfolding cd
cd-empty k fs path cur e = rw e (ended false cur)

cd_from-finished :
    (k : ℕ) (fs : Files) (path cur : List ℕ)
    → length path < k
    → ShortNames path
    → HasRoom path cur
    → Ended (cd k fs path cur)
unfolding cd
cd_from-finished zero fs path cur h short room = absurd (omega arith)
cd_from-finished (suc k) fs path cur h short room =
    let p = relative path in
    let n = element_end p in
    let target = take n p in
    let next = stepped target cur in
    let (fits, le) = relative-room path cur room in
    let names = relative-ShortNames path short in
    let used : length target ≤ n = length-take-le n p in
    let inside : n ≤ length p = element_end-le p in
    let fewer : (n == 0) ≡ false → length (drop n p) < k =
      λ e. let some_bytes : n ≢ 0 = ground (arith, e) in omega (arith, length-drop n p) in
    let below : (n == 0) ≡ false → Ended (cd k fs (drop n p) next) = λ e.
      elim (element_end-stops p) [
        | inl slash ↦
            cd_from-finished k fs (drop n p) next (fewer e) (drop-ShortNames n p names)
              (inl (get_or-drop n p ∙ slash, omega (arith, stepped-le target cur, length-drop n p)))
        | inr end ↦ ends_there k (drop n p) next (get_or-drop n p ∙ end) (fewer e)
      ] in
    elim (Bool-cases (get_or path 0 0 == 0)) [
      | inl y ↦ cd-empty k fs path cur (ground (arith, y))
      | inr some_left ↦ rw some_left (
          branches-Ended cur (cd k fs (drop n p) next) (n == 0 && get_or p n 0 == 0)
            (target_overruns n) (ltb maxnamelen n) (n == 0)
            (fullpath_overruns (update_fullpath cur (b'/' ∷ [])))
            (fullpath_overruns (update_fullpath cur target)) (fs.stat cur) (fs.open_ok cur)
            (has_entry (fs.entries cur) target) (ground (arith, names 0))
            (λ more slash.
              let here : n < length p = nonempty p n (λ z. ground (arith, z, more, slash)) in
              ground (arith, update_fullpath-le cur (b'/' ∷ []), here))
            (ground (arith, update_fullpath-le cur target)) below)
    ]
  where
    ends_there :
        (k : ℕ) (path cur : List ℕ)
        → get_or path 0 0 ≡ 0
        → length path < k
        → Ended (cd k fs path cur)
    ends_there zero path cur e h = absurd (omega arith)
    ends_there (suc k) path cur e h = cd-empty k fs path cur e

-- For a path whose names have fewer than 16 bytes each, and which together with the current
-- directory fits into the 128 bytes of `fullpath`, `cd` overruns no buffer and comes to an end,
-- whatever the files, with one recursive call at most for each byte of the path.
pub cd-finished :
    (n : ℕ) (fs : Files) (path cur : List ℕ)
    → length path < n
    → ShortNames path
    → length cur + 1 + length path < maxpathlen
    → (b : Bool) × (c : List ℕ) × (cd n fs path cur ≡ ends b c)
cd-finished n fs path cur h short room = cd_from-finished n fs path cur h short (inr room)
