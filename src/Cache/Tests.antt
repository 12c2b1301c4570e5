-- ===== src/Cache/Tests.antt =====
-- The block cache at work: block 2 is in and dirty, the rest of the disk is not.
use damn_os_damn_fs.Prelude.{◌≡◌, refl, true, none, some, arith, ◌==◌, if◌then◌else◌}
use damn_os_damn_fs.Fs.State.{Fs, ok}
use damn_os_damn_fs.Fs.Bitmap
use damn_os_damn_fs.Fs.Sample.{small}
use damn_os_damn_fs.Cache.{Device, Cache, flush_block}
use damn_os_damn_fs.Cache.Refine.{Shows, flush_block-Shows}

abbrev device : Device
device = record {
  page_ok = λ b. true;
  read_ok = λ b. true;
  map_ok = λ b. true;
  write_ok = λ b. true;
}

abbrev cache : Cache
cache = record {
  mapped = λ b. b == 2;
  dirty = λ b. b == 2;
  page = λ b o. 7;
  disk = λ b o. 0;
  super = none;
}

-- the state of the file system it stands for
abbrev seen : Fs
seen = record small {
  mem = record (small.mem) { blocks = λ b o. if b == 2 then 7 else 0 };
  disk = record (small.disk) { blocks = λ b o. 0 };
}

cache-Shows : Shows cache seen
cache-Shows = record {
  mem = λ b o h. refl;
  disk = λ b o h. refl;
  clean = λ b o y n. ground (arith, y, n);
}

flush_block-Shows_example :
    (d : Cache) × (t : Fs) × (flush_block device 2 cache ≡ some d)
    × (Bitmap.flush_block 2 seen ≡ ok tt t)
    × Shows d t
flush_block-Shows_example =
    flush_block-Shows device cache seen 2 cache-Shows (omega arith) (omega arith) refl refl
