-- ===== src/Format/Tests.antt =====
-- Formats and the theorems on stdio.c at work on them.
use damn_os_damn_fs.Prelude.{
  ℕ, ◌+◌, ◌-◌, ◌≡◌, refl, ◌≢◌, some, List, [], ◌∷◌, ◌++◌, take, drop, length, min, arith, codes,
  replicate,
}
use damn_os_damn_fs.CString.{strtol}
use damn_os_damn_fs.Format.{
  Arg, num, str, printnum, vprintfmt, printed, unfinished, print_loop, escape, switch, print_digits,
  hex_digit, put_string, put_number, shown, width_field, process_precision,
}
use damn_os_damn_fs.Format.Prints.{vprintfmt-finished}
use damn_os_damn_fs.Format.Number.{strtol-printnum}
use damn_os_damn_fs.Format.Sinks.{snprint, bytes, cprint, joined}
use damn_os_damn_fs.Format.Sinks.Text.{snprint-take, cprint-text}

abbrev greeting : List ℕ
greeting = codes "%-6s=%04x%c"

abbrev values : List Arg
values = str (some (codes "size")) ∷ num 0xbee ∷ num b'!' ∷ []

greeting_runs : vprintfmt greeting values ≡ printed (codes "size  =0bee!")
unfolding vprintfmt print_loop escape switch print_digits printnum hex_digit put_string put_number
    shown width_field process_precision
greeting_runs = refl

vprintfmt-finished_example :
    ((args : List Arg) → vprintfmt greeting args ≢ unfinished)
    × ((args : List Arg) × (out : List ℕ) × (vprintfmt greeting args ≡ printed out))
vprintfmt-finished_example = vprintfmt-finished greeting

strtol-printnum_example :
    (l : List ℕ) × (printnum 48879 16 8 b' ' ≡ some l) × (strtol l 16 ≡ (48879, []))
strtol-printnum_example = strtol-printnum 48879 16 8 (omega arith) (omega arith) (omega arith)

abbrev six : List ℕ
six = replicate 6 7

snprint-take_example :
    snprint six 4 (codes "damnos")
    ≡ some (
      take (4 - 1) (bytes (codes "damnos"))
          ++ 0 ∷ drop (min (length (codes "damnos")) (4 - 1) + 1) six,
      length (codes "damnos"),
    )
snprint-take_example = snprint-take six (codes "damnos") 4 (omega arith)

cprint-text_example :
    (joined ((cprint (codes "damnos")).0) ≡ bytes (codes "damnos"))
    × ((cprint (codes "damnos")).1 ≡ length (codes "damnos"))
cprint-text_example = cprint-text (codes "damnos")
