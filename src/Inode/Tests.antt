-- ===== src/Inode/Tests.antt =====
-- filesys/inode.c on a device of ten sectors, of which 0, 2 and 3 are in use: the inode in sector 0,
-- with its data in sectors 2 and 3, is open once and has been removed.
use turbo_baker.Prelude.{
  Mem, ℕ, zero, suc, ◌<◌, ◌≡◌, refl, ◌⊎◌, Bool, true, some, [], ◌∷◌, arith, true_ne_false, count,
}
use turbo_baker.Bitmap.Bits.{view}
use turbo_baker.Bitmap.Range.{Full}
use turbo_baker.Bitmap.Tests.{ten, ten-IsBitmap}
use turbo_baker.Inode.{
  Inodes, bytes_to_sectors, sector_of, find_open, inode_create, inode_open, inode_close,
}
use turbo_baker.Inode.Opening.{IsInodes, openers, Opened, inode_open-Opened}
use turbo_baker.Inode.Closing.{Marked, Closed, inode_close-Closed}
use turbo_baker.Inode.Disk.{Created, inode_create-Created}

abbrev pub device : Inodes
device = record {
  open_inodes = 64 ∷ [];
  inode = λ e. record {
    sector = 0;
    open_cnt = 1;
    removed = true;
    deny_write_cnt = 0;
    start = 2;
    length = 1000;
  };
  map = record {
    free_map = ten;
    file_open = true;
    block = λ t. sector_of (record { start = 2; length = 1000 });
  };
}

-- The device after the map has been written.
abbrev pub flushed : ℕ → Mem
flushed t a = 1

abbrev fresh : ℕ
fresh = 128

pub device-IsInodes : IsInodes device
device-IsInodes = record {
  distinct = λ q. ground arith;
  no_null = refl;
  one = λ e f p q k. one_listed e f p q;
  opened = λ e p. omega arith;
  denied = λ e p. omega arith;
}
  where
    one_listed : (e f : ℕ) → 0 < count e (64 ∷ []) → 0 < count f (64 ∷ []) → e ≡ f
    one_listed e f p q = ground arith

used_at : (view ten 0 ≡ true) × (view ten 2 ≡ true) × (view ten 3 ≡ true)
unfolding view
used_at = (refl, refl, refl)

own_used : Full ten 0 1 true
own_used zero lo hi = used_at.0
own_used (suc j) lo hi = absurd (omega (arith, hi))

data_used : Full ten 2 2 true
data_used zero lo hi = absurd (omega (arith, lo))
data_used (suc zero) lo hi = absurd (omega (arith, lo))
data_used (suc (suc zero)) lo hi = used_at.1
data_used (suc (suc (suc zero))) lo hi = used_at.2
data_used (suc (suc (suc (suc j)))) lo hi = absurd (omega (arith, hi))

inode_create-Created_example :
    (done : Bool) × (s' : Inodes) × (inode_create true true flushed 0 1500 device ≡ some (done, s'))
    × Created true flushed 0 1500 device done s'
inode_create-Created_example =
    inode_create-Created true flushed 0 1500 device ten-IsBitmap used_at.0 (omega arith) true

openers_run : openers device 0 ≡ 1
unfolding openers find_open
openers_run = refl

inode_open-Opened_example :
    (((inode_open fresh 0 device).0 ≡ 0)
      × ((inode_open fresh 0 device).1 ≡ device)
      × (fresh ≡ 0)
      × (openers device 0 ≡ 0))
    ⊎ Opened device 0 (inode_open fresh 0 device).0 (inode_open fresh 0 device).1
inode_open-Opened_example =
    inode_open-Opened device device-IsInodes 128 0 refl (omega (arith, openers_run))

pub device-Marked : Marked device (device.inode 64)
unfolding bytes_to_sectors
device-Marked = record {
  bitmap = ten-IsBitmap;
  file = refl;
  own_inside = omega arith;
  own_used = own_used;
  length_fits = omega arith;
  data_inside = omega arith;
  data_used = data_used;
  apart = refl;
}

inode_close-Closed_example :
    (s' : Inodes) × (inode_close flushed 64 device ≡ some s')
    × Closed device device-IsInodes 64 (omega arith) (omega arith) s'
inode_close-Closed_example =
    inode_close-Closed device device-IsInodes 64 (omega arith) (omega arith) flushed
      (λ n. absurd (true_ne_false n)) (λ h. device-Marked)
