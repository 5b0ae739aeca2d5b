-- ===== src/FreeMap/Tests.antt =====
-- filesys/free-map.c on a device of ten sectors, of which 0, 2 and 3 are in use.
use turbo_baker.Prelude.{Mem, ℕ, ◌≡◌, refl, true, false, Option, some, [], ◌∷◌}
use turbo_baker.Bitmap.Tests.{ten, ten-IsBitmap, scan_from_start}
use turbo_baker.FreeMap.{FreeMap, roll_back, settle, free_map_allocate, free_map_release}
use turbo_baker.FreeMap.Outcome.{
  SameMap, Allocated, free_map_allocate-Allocated, free_map_release-allocate,
}

-- Nothing is ever on the device.
abbrev device : ℕ → Mem
device t a = 0

abbrev ten_sectors : FreeMap
ten_sectors = record { free_map = ten; file_open = true; block = device }

free_map_allocate-Allocated_example :
    (out : Option ℕ) × (s' : FreeMap) × (free_map_allocate false device 3 ten_sectors
      ≡ some (out, s'))
    × Allocated false device 3 ten_sectors out s'
free_map_allocate-Allocated_example =
    free_map_allocate-Allocated false device 3 ten_sectors ten-IsBitmap

abbrev taken : FreeMap
taken = record {
  free_map = record { bit_cnt = 10; bits = 0x7d ∷ [] };
  file_open = true;
  block = device;
}

allocate_run : free_map_allocate true device 3 ten_sectors ≡ some (some 4, taken)
unfolding free_map_allocate roll_back settle
allocate_run = rw scan_from_start refl

free_map_release-allocate_example :
    (s'' : FreeMap) × (free_map_release device 4 3 taken ≡ some s'') × SameMap ten_sectors s''
free_map_release-allocate_example =
    free_map_release-allocate true device device 3 ten_sectors 4 taken ten-IsBitmap refl
      allocate_run
