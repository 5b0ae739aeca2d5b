-- ===== src/FreeMap.antt =====
-- filesys/free-map.c: the sectors of the file system's device that are in use, a bitmap and the file
-- it is kept in, and the device as the bytes of each sector. `none` is a failed assertion or the use
-- of a null file. bitmap_write() writes the whole map to the file, through the buffer cache: whether
-- it succeeds, and the device that it leaves behind, are the arguments `written` and `flushed`.
pub mod Outcome
pub mod Tests
use turbo_baker.Prelude.{
  ℕ, zero, suc, ◌+◌, ◌-◌, ◌*◌, ◌/◌, ◌%◌, ◌^◌, ◌≤◌, ◌<◌, min, max, ◌≡◌, refl, sym, ap, ◌∙◌, subst,
  fun_ext, ◌≢◌, ◌↔◌, ◌⊎◌, inl, inr, Bool, true, false, not, ◌&&◌, ◌||◌, Option, none, some, List,
  [], ◌∷◌, ◌++◌, map, arith, ltb, leb, ◌==◌, if◌then◌else◌, same_bool, ltb→lt, ltb→ge, leb→le,
  leb→gt, ==→eq, ==→ne, ne→==, ==_refl, tests, Bool-cases, Option-cases, length, get_or, set,
  replicate, length-append, length-set, length-replicate, get_or-set_self, get_or-set_ne, Mem,
  write, within, ◌>>=◌, is_some, true_ne_false, count, count-append,
}
use turbo_baker.Bitmap.{
  Bitmap, bitmap_error, assert, bitmap_all, bitmap_mark, bitmap_set_multiple, bitmap_scan_and_flip,
}

pub record FreeMap : Type 0 where
  pub free_map : Bitmap
  pub file_open : Bool
  pub block : ℕ → Mem

abbrev pub free_map_sector : ℕ
free_map_sector = 0

abbrev pub root_dir_sector : ℕ
root_dir_sector = 1

-- free_map_init(), at the cleared bitmap that bitmap_create() returns.
pub free_map_init : (cleared : Bitmap) → (block : ℕ → Mem) → FreeMap
free_map_init cleared block = record {
  free_map = bitmap_mark (bitmap_mark cleared free_map_sector) root_dir_sector;
  file_open = false;
  block = block;
}

-- The map is written if its file is open, and is given back the sectors if it cannot be.
pub roll_back :
    (written : Bool) (flushed : ℕ → Mem)
    → (sector cnt : ℕ) → FreeMap
    → Bitmap
    → Option (ℕ × FreeMap)
roll_back written flushed sector cnt s m =
    if not (sector == bitmap_error) && s.file_open
    then (if written
        then some (sector, record s { free_map = m; block = flushed })
        else (bitmap_set_multiple m sector cnt false >>= λ m'.
            some (bitmap_error, record s { free_map = m'; block = flushed })))
    else some (sector, record s { free_map = m })

-- The sector that is stored, if one is.
pub settle : ℕ × FreeMap → Option ℕ × FreeMap
settle (sector, s) = (if not (sector == bitmap_error) then some sector else none, s)

-- The sector is `none` where free_map_allocate() returns false.
pub free_map_allocate :
    (written : Bool) (flushed : ℕ → Mem) → (cnt : ℕ) → FreeMap → Option (Option ℕ × FreeMap)
free_map_allocate written flushed cnt s = bitmap_scan_and_flip s.free_map 0 cnt false >>= λ found.
    roll_back written flushed found.0 cnt s found.1 >>= λ r. some (settle r)

pub free_map_release : (flushed : ℕ → Mem) → (sector cnt : ℕ) → FreeMap → Option FreeMap
free_map_release flushed sector cnt s = bitmap_all s.free_map sector cnt >>= λ all. assert all (
    bitmap_set_multiple s.free_map sector cnt false >>= λ m.
    assert s.file_open (some (record s { free_map = m; block = flushed })))
