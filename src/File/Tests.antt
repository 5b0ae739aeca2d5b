-- ===== src/File/Tests.antt =====
-- filesys/file.c at a file at 96 that has the only open inode of the device open and denies nothing.
use turbo_baker.Prelude.{ℕ, ◌+◌, ◌<◌, ◌≡◌, refl, ◌⊎◌, false, some, true, [], ◌∷◌, arith}
use turbo_baker.HashTable.{take_out}
use turbo_baker.Inode.Tests.{device, flushed, device-IsInodes, device-Marked}
use turbo_baker.File.{Files, file_open, file_close}
use turbo_baker.File.{file_deny_write}
use turbo_baker.File.Denying.{file_deny_write-IsFiles}
use turbo_baker.File.Opening.{file_open-IsFiles}
use turbo_baker.File.Valid.{tally, opens, IsFiles}
use turbo_baker.File.Closing.{file_close-IsFiles}

abbrev new_file : ℕ
new_file = 96

abbrev pub one_file : Files
one_file = record {
  file = λ f. record { inode = 64; pos = 0; deny_write = false };
  inodes = device;
}

pub one_file-IsFiles : IsFiles (96 ∷ []) one_file
unfolding tally
one_file-IsFiles = record {
  inodes = device-IsInodes;
  distinct = λ f. ground arith;
  no_null = refl;
  on_open = λ f n. omega arith;
  opened = λ e n. ground arith;
  denied = λ e n. ground arith;
}

file_close-IsFiles_example :
    (s' : Files) × (file_close flushed 96 one_file ≡ some s')
    × IsFiles (take_out 96 (96 ∷ [])) s'
    × ((s'.inodes.inode 64).open_cnt + 1 ≡ 1)
file_close-IsFiles_example =
    file_close-IsFiles (96 ∷ []) one_file one_file-IsFiles 96 (omega arith) flushed (omega arith)
      (λ h. device-Marked)

no_file-IsFiles : IsFiles [] one_file
unfolding tally
no_file-IsFiles = record {
  inodes = device-IsInodes;
  distinct = λ f. omega arith;
  no_null = refl;
  on_open = λ f n. absurd (omega (arith, n));
  opened = λ e n. omega arith;
  denied = λ e n. refl;
}

spare : tally (opens one_file 64) [] < 1
unfolding tally
spare = omega arith

file_open-IsFiles_example :
    (s' : Files) × (file_open flushed 96 64 one_file ≡ some (96, s'))
    × IsFiles (96 ∷ []) s'
    × ((s'.file 96).inode ≡ 64 ⊎ (new_file ≡ 0) × ((s'.inodes.inode 64).open_cnt + 1 ≡ 1))
file_open-IsFiles_example =
    file_open-IsFiles [] one_file no_file-IsFiles 64 (omega arith) spare flushed 96 refl
      (omega arith) (λ h. device-Marked)

file_deny_write-IsFiles_example :
    (s' : Files) × (file_deny_write 96 one_file ≡ some s')
    × IsFiles (96 ∷ []) s'
    × ((s'.file 96).deny_write ≡ true)
    × ((g : ℕ) → (s'.file g).inode ≡ (one_file.file g).inode)
file_deny_write-IsFiles_example =
    file_deny_write-IsFiles (96 ∷ []) one_file one_file-IsFiles 96 (omega arith) (omega arith)
