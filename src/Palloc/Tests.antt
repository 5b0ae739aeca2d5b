-- ===== src/Palloc/Tests.antt =====
-- threads/palloc.c at two pools of four pages each, all free.
use turbo_baker.Prelude.{ℕ, zero, suc, ◌^◌, ◌<◌, ◌≡◌, refl, Bool, some, [], ◌∷◌, arith, get_or}
use turbo_baker.Bitmap.{
  Bitmap, bitmap_scan_and_flip, bitmap_scan, bitmap_set_multiple, in_range, set_loop, scan_loop,
  bitmap_contains, contains_loop, bitmap_test, bitmap_set, bitmap_mark, update_word, word,
}
use turbo_baker.Bitmap.Bits.{IsBitmap}
use turbo_baker.Palloc.{
  palloc_init, Pools, flag, pal_user, pal_zero, pal_assert, palloc_get_multiple,
  palloc_free_multiple, deliver,
}
use turbo_baker.Palloc.Valid.{IsPools, used}
use turbo_baker.Palloc.Get.{GetOutcome, palloc_get_multiple-GetOutcome}
use turbo_baker.Palloc.Free.{palloc_free-get}
use turbo_baker.Palloc.Regions.{Region, here, later}
use turbo_baker.Palloc.Init.{Storage, Started, palloc_init-Started}
use turbo_baker.Palloc.Live.{grant, Reach, start, next, Inv, Reach-Inv, Reach-can_free}

abbrev four : ℕ → Bitmap
four w = record { bit_cnt = 4; bits = w ∷ [] }

four-words : (w : ℕ) → w < 2 ^ 32 → (i : ℕ) → get_or (w ∷ []) i 0 < 2 ^ 32
four-words w h zero = h
four-words w h (suc i) = omega arith

four-IsBitmap : (w : ℕ) → w < 2 ^ 32 → IsBitmap (four w)
four-IsBitmap w h = record { room = refl; words = four-words w h; small = omega arith }

-- The pools with these pages in use.
abbrev pools : (kernel user : ℕ) → Pools
pools kernel user = record {
  kernel = record { used_map = four kernel; base = 0x10_0000 };
  user = record { used_map = four user; base = 0x20_0000 };
  mem = λ a. 0;
}

pools-IsPools : (kernel user : ℕ) → kernel < 2 ^ 32 → user < 2 ^ 32 → IsPools (pools kernel user)
pools-IsPools kernel user k u = record {
  kernel = record {
    bitmap = four-IsBitmap kernel k;
    aligned = refl;
    positive = omega arith;
    fits = omega arith;
  };
  user = record {
    bitmap = four-IsBitmap user u;
    aligned = refl;
    positive = omega arith;
    fits = omega arith;
  };
  apart = omega arith;
}

fresh-IsPools : IsPools (pools 0 0)
fresh-IsPools = pools-IsPools 0 0 (omega arith) (omega arith)

two_granted : palloc_get_multiple 0 2 (pools 0 0) ≡ some (0x10_0000, pools 3 0)
unfolding palloc_get_multiple deliver flag bitmap_scan_and_flip bitmap_scan bitmap_set_multiple
    in_range set_loop scan_loop bitmap_contains contains_loop bitmap_test bitmap_set bitmap_mark
    update_word word
two_granted = refl

one_granted : palloc_get_multiple 4 1 (pools 3 0) ≡ some (0x20_0000, pools 3 1)
unfolding palloc_get_multiple deliver flag bitmap_scan_and_flip bitmap_scan bitmap_set_multiple
    in_range set_loop scan_loop bitmap_contains contains_loop bitmap_test bitmap_set bitmap_mark
    update_word word
one_granted = refl

abbrev first : Region
first = record { pages = 0x10_0000; cnt = 2 }

abbrev second : Region
second = record { pages = 0x20_0000; cnt = 1 }

two_live : Reach (pools 0 0) (pools 3 1) (second ∷ first ∷ [])
two_live =
    next (next start (grant 0 2 0x10_0000 (omega arith) two_granted (omega arith)))
      (grant 4 1 0x20_0000 (omega arith) one_granted (omega arith))

Reach-Inv_example : Inv (pools 3 1) (second ∷ first ∷ [])
Reach-Inv_example = Reach-Inv fresh-IsPools two_live

Reach-can_free_example :
    (s' : Pools) × (palloc_free_multiple first.pages first.cnt (pools 3 1) ≡ some s')
Reach-can_free_example = Reach-can_free fresh-IsPools two_live (later here)

palloc_get_multiple-GetOutcome_example :
    GetOutcome
      (pools 3 1)
      (flag 6 pal_user)
      (flag 6 pal_zero)
      (flag 6 pal_assert)
      2
      (palloc_get_multiple 6 2 (pools 3 1))
palloc_get_multiple-GetOutcome_example =
    palloc_get_multiple-GetOutcome 6 2 (pools-IsPools 3 1 (omega arith) (omega arith)) (omega arith)

palloc_free-get_example :
    (s'' : Pools) × (palloc_free_multiple 0x10_0000 2 (pools 3 0) ≡ some s'')
    × ((w : Bool) (j : ℕ) → used s'' w j ≡ used (pools 0 0) w j)
    × IsPools s''
palloc_free-get_example =
    palloc_free-get 0 2 0x10_0000 fresh-IsPools (omega arith) two_granted (omega arith)

one_word-Storage : Storage 1 (9 ∷ [])
one_word-Storage = record { room = refl; words_lt = four-words 9 (omega arith) }

-- 260 pages of RAM: two pages for each pool, of which its bitmap takes one.
palloc_init-Started_example :
    (s : Pools) × (palloc_init 260 100 (9 ∷ []) (9 ∷ []) (λ a. 0) ≡ some s) × Started 260 100 s
palloc_init-Started_example =
    palloc_init-Started 260 100 (λ a. 0) (omega arith) (omega arith) (omega arith) one_word-Storage
      one_word-Storage
