-- ===== src/Bitmap/Tests.antt =====
-- lib/kernel/bitmap.c at a bitmap of ten bits, of which bits 0, 2 and 3 are set.
use turbo_baker.Prelude.{ℕ, zero, suc, ◌^◌, ◌<◌, ◌≡◌, refl, false, some, [], ◌∷◌, arith, get_or}
use turbo_baker.Bitmap.{
  Bitmap, update_word, word, bitmap_set, bitmap_test, bitmap_set_multiple, bitmap_contains,
  bitmap_scan, bitmap_scan_and_flip, in_range, set_loop, contains_loop, scan_loop, bitmap_mark,
}
use turbo_baker.Bitmap.Bits.{IsBitmap}
use turbo_baker.Bitmap.Scan.{Flipped, bitmap_scan_and_flip-Flipped}

abbrev pub ten : Bitmap
ten = record { bit_cnt = 10; bits = 13 ∷ [] }

ten-words : (i : ℕ) → get_or ten.bits i 0 < 2 ^ 32
ten-words zero = omega arith
ten-words (suc i) = omega arith

pub ten-IsBitmap : IsBitmap ten
ten-IsBitmap = record { room = refl; words = ten-words; small = omega arith }

abbrev pub after_scan : Bitmap
after_scan = record { bit_cnt = 10; bits = 0x7d ∷ [] }

scan_and_flip_run : bitmap_scan_and_flip ten 2 3 false ≡ some (4, after_scan)
unfolding bitmap_scan_and_flip bitmap_scan bitmap_set_multiple in_range set_loop scan_loop
    bitmap_contains contains_loop bitmap_test bitmap_set bitmap_mark update_word word
scan_and_flip_run = refl

pub scan_from_start : bitmap_scan_and_flip ten 0 3 false ≡ some (4, after_scan)
unfolding bitmap_scan_and_flip bitmap_scan bitmap_set_multiple in_range set_loop scan_loop
    bitmap_contains contains_loop bitmap_test bitmap_set bitmap_mark update_word word
scan_from_start = refl

bitmap_scan_and_flip-Flipped_example :
    (idx : ℕ) × (b' : Bitmap) × (bitmap_scan_and_flip ten 2 3 false ≡ some (idx, b'))
    × Flipped ten 2 3 false idx b'
bitmap_scan_and_flip-Flipped_example =
    bitmap_scan_and_flip-Flipped 2 3 false ten-IsBitmap (omega arith)
