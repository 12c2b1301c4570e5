-- ===== src/Console/Keyboard.antt =====
-- The keyboard: kbd_proc_data of console.c and its tables. The shift state is a word of flags, and a
-- key code is a byte read from the port.
use damn_os_damn_fs.Prelude.{
  ℕ, ◌+◌, ◌-◌, ◌%◌, Bool, false, ◌&&◌, ◌||◌, not, Option, none, some, List, [], ◌∷◌, ltb, leb, ◌==◌,
  if◌then◌else◌, get_or,
}
use damn_os_damn_fs.Prelude.{bit_and, bit_or, bit_xor}

-- the flags
abbrev shift_flag : ℕ
shift_flag = 1

abbrev ctl : ℕ
ctl = 2

abbrev alt : ℕ
alt = 4

abbrev capslock : ℕ
capslock = 8

abbrev numlock : ℕ
numlock = 16

abbrev scrolllock : ℕ
scrolllock = 32

abbrev e0esc : ℕ
e0esc = 64

abbrev key_del : ℕ
key_del = 0xe9

unfoldable pub shiftcode : ℕ → ℕ
shiftcode d =
    if d == 0x1d || d == 0x9d
    then ctl
    else if d == 0x2a || d == 0x36
    then shift_flag
    else if d == 0x38 || d == 0xb8
    then alt
    else 0

unfoldable pub togglecode : ℕ → ℕ
togglecode d =
    if d == 0x3a
    then capslock
    else if d == 0x45
    then numlock
    else if d == 0x46
    then scrolllock
    else 0

-- an entry given by its key code, or 0
unfoldable pub entry : List (ℕ × ℕ) → ℕ → ℕ
entry [] d = 0
entry ((k, c) ∷ l) d = if d == k then c else entry l d

-- the entries that the three tables share: the arrows and the keys beside them
abbrev keypad : List (ℕ × ℕ)
keypad =
    (0xc8, 0xe2)
    ∷ (0xc9, 0xe6)
    ∷ (0xcb, 0xe4)
    ∷ (0xcd, 0xe5)
    ∷ (0xcf, 0xe1)
    ∷ (0xd0, 0xe3)
    ∷ (0xd1, 0xe7)
    ∷ (0xd2, 0xe8)
    ∷ (0xd3, 0xe9)
    ∷ []

abbrev normal_keys : List ℕ
normal_keys =
    0 ∷ 27 ∷ 49 ∷ 50 ∷ 51 ∷ 52 ∷ 53 ∷ 54 ∷ 55 ∷ 56 ∷ 57 ∷ 48 ∷ 45 ∷ 61 ∷ 8 ∷ 9 ∷ 113 ∷ 119 ∷ 101
    ∷ 114 ∷ 116 ∷ 121 ∷ 117 ∷ 105 ∷ 111 ∷ 112 ∷ 91 ∷ 93 ∷ 10 ∷ 0 ∷ 97 ∷ 115 ∷ 100 ∷ 102 ∷ 103 ∷ 104
    ∷ 106 ∷ 107 ∷ 108 ∷ 59 ∷ 39 ∷ 96 ∷ 0 ∷ 92 ∷ 122 ∷ 120 ∷ 99 ∷ 118 ∷ 98 ∷ 110 ∷ 109 ∷ 44 ∷ 46 ∷ 47
    ∷ 0 ∷ 42 ∷ 0 ∷ 32 ∷ 0 ∷ 0 ∷ 0 ∷ 0 ∷ 0 ∷ 0 ∷ 0 ∷ 0 ∷ 0 ∷ 0 ∷ 0 ∷ 0 ∷ 0 ∷ 55 ∷ 56 ∷ 57 ∷ 45 ∷ 52
    ∷ 53 ∷ 54 ∷ 43 ∷ 49 ∷ 50 ∷ 51 ∷ 48 ∷ 46 ∷ 0 ∷ 0 ∷ 0 ∷ 0 ∷ []

abbrev shift_keys : List ℕ
shift_keys =
    0 ∷ 27 ∷ 33 ∷ 64 ∷ 35 ∷ 36 ∷ 37 ∷ 94 ∷ 38 ∷ 42 ∷ 40 ∷ 41 ∷ 95 ∷ 43 ∷ 8 ∷ 9 ∷ 81 ∷ 87 ∷ 69 ∷ 82
    ∷ 84 ∷ 89 ∷ 85 ∷ 73 ∷ 79 ∷ 80 ∷ 123 ∷ 125 ∷ 10 ∷ 0 ∷ 65 ∷ 83 ∷ 68 ∷ 70 ∷ 71 ∷ 72 ∷ 74 ∷ 75 ∷ 76
    ∷ 58 ∷ 34 ∷ 126 ∷ 0 ∷ 124 ∷ 90 ∷ 88 ∷ 67 ∷ 86 ∷ 66 ∷ 78 ∷ 77 ∷ 60 ∷ 62 ∷ 63 ∷ 0 ∷ 42 ∷ 0 ∷ 32
    ∷ 0 ∷ 0 ∷ 0 ∷ 0 ∷ 0 ∷ 0 ∷ 0 ∷ 0 ∷ 0 ∷ 0 ∷ 0 ∷ 0 ∷ 0 ∷ 55 ∷ 56 ∷ 57 ∷ 45 ∷ 52 ∷ 53 ∷ 54 ∷ 43 ∷ 49
    ∷ 50 ∷ 51 ∷ 48 ∷ 46 ∷ 0 ∷ 0 ∷ 0 ∷ 0 ∷ []

abbrev ctl_keys : List ℕ
ctl_keys =
    0 ∷ 0 ∷ 0 ∷ 0 ∷ 0 ∷ 0 ∷ 0 ∷ 0 ∷ 0 ∷ 0 ∷ 0 ∷ 0 ∷ 0 ∷ 0 ∷ 0 ∷ 0 ∷ 17 ∷ 23 ∷ 5 ∷ 18 ∷ 20 ∷ 25 ∷ 21
    ∷ 9 ∷ 15 ∷ 16 ∷ 0 ∷ 0 ∷ 13 ∷ 0 ∷ 1 ∷ 19 ∷ 4 ∷ 6 ∷ 7 ∷ 8 ∷ 10 ∷ 11 ∷ 12 ∷ 0 ∷ 0 ∷ 0 ∷ 0 ∷ 28 ∷ 26
    ∷ 24 ∷ 3 ∷ 22 ∷ 2 ∷ 14 ∷ 13 ∷ 0 ∷ 0 ∷ 239 ∷ 0 ∷ 0 ∷ []

unfoldable pub normalmap : ℕ → ℕ
unfolding entry
normalmap d =
    if ltb d 0x58
    then get_or normal_keys d 0
    else entry ((0xc7, 0xe0) ∷ (0x9c, b'\n') ∷ (0xb5, b'/') ∷ keypad) d

unfoldable pub shiftmap : ℕ → ℕ
unfolding entry
shiftmap d =
    if ltb d 0x58
    then get_or shift_keys d 0
    else entry ((0xc7, 0xe0) ∷ (0x9c, b'\n') ∷ (0xb5, b'/') ∷ keypad) d

-- (Here the home key stands at 0x97, and `C ('/')` is 0xef as a byte.)
unfoldable pub ctlmap : ℕ → ℕ
unfolding entry
ctlmap d =
    if ltb d 0x38 then get_or ctl_keys d 0 else entry ((0x97, 0xe0) ∷ (0xb5, 0xef) ∷ keypad) d

-- `charcode[shift & (CTL | SHIFT)][data]`
unfoldable pub charcode : ℕ → ℕ → ℕ
unfolding normalmap shiftmap ctlmap
charcode shift d =
    let m = bit_and shift 3 in
    if m == 0 then normalmap d else if m == 1 then shiftmap d else ctlmap d

unfoldable pub swap_case : ℕ → ℕ
swap_case c =
    if leb b'a' c && leb c b'z' then c - 32 else if leb b'A' c && leb c b'Z' then c + 32 else c

-- the bits of `x` that are not in `m`
unfoldable pub clear : ℕ → ℕ → ℕ
clear x m = x - bit_and x m

-- The character, 0 for none, or `none` for -1; whether the machine is told to start again; and the
-- shift state that is left.
pub record Key : Type 0 where
  pub c : Option ℕ
  pub reboot : Bool
  pub shift : ℕ

-- A key goes down, with the code and the shift state that the escape left.
unfoldable pub key_down : ℕ → ℕ → Key
unfolding shiftcode togglecode charcode swap_case
key_down d shift =
    let s = bit_xor (bit_or shift (shiftcode d)) (togglecode d) in
    let plain = charcode s d in
    let c = if bit_and s capslock == 0 then plain else swap_case plain in
    record { c = some c; reboot = bit_and s 6 == 6 && c == key_del; shift = s }

-- A key goes up; after an escape its code keeps the high bit.
unfoldable pub key_up : ℕ → ℕ → Key
unfolding shiftcode clear
key_up d shift =
    let code = if bit_and shift e0esc == 0 then d % 128 else d in
    record { c = some 0; reboot = false; shift = clear shift (bit_or (shiftcode code) e0esc) }

-- `d` is the byte at the port, if one is there.
unfoldable pub kbd_proc_data : Option ℕ → ℕ → Key
unfolding key_down key_up clear
kbd_proc_data none shift = record { c = none; reboot = false; shift = shift }
kbd_proc_data (some d) shift =
    if d == 0xe0
    then record { c = some 0; reboot = false; shift = bit_or shift e0esc }
    else if leb 128 d
    then key_up d shift
    else if not (bit_and shift e0esc == 0)
    then key_down (d + 128) (clear shift e0esc)
    else key_down d shift
