-- ===== src/Memory/Tests.antt =====
-- memmove on overlapping regions, and memset.
use damn_os_damn_fs.Prelude.{◌+◌, ◌%◌, ◌≡◌, ◌&&◌, leb, ltb, if◌then◌else◌}
use damn_os_damn_fs.Memory.{Memory, memmove, memset}
use damn_os_damn_fs.Memory.Move.{moved, memmove-moved, memset-filled}

abbrev counting : Memory
counting a = a % 256

memmove-moved_example : memmove counting 104 100 12 107 ≡ moved counting 104 100 12 107
memmove-moved_example = memmove-moved counting 104 100 12 107

memset-filled_example :
    memset counting 100 300 8 104
    ≡ (if leb 100 104 && ltb 104 (100 + 8) then 300 % 256 else counting 104)
memset-filled_example = memset-filled counting 100 300 8 104
