-- ===== src/Syscall/Lookup.antt =====
-- userprog/syscall.c: filesize(), seek() and tell().
use turbo_baker.Prelude.{
  ℕ, ◌^◌, ◌≤◌, ◌<◌, ◌≡◌, refl, ◌≢◌, ◌⊎◌, inl, inr, true, false, some, arith, ltb, ◌==◌, ne→==,
  ==_refl, Bool-cases, length, get_or,
}
use turbo_baker.Inode.{inode_length}
use turbo_baker.File.{set_file, file_length, file_seek, file_tell}
use turbo_baker.Syscall.{returned, exited, failed, Process, fds_cnt, file_at, filesize, seek, tell}
use turbo_baker.Syscall.Closing.{bad_fd-outside, bad_fd-inside, file_at-none, file_at-some}

module _ (p : Process) (size : length p.fds ≡ fds_cnt) (fd position : ℕ) where
  abbrev f : ℕ
  f = get_or p.fds fd 0

  abbrev moved : Process
  moved = record p { files = set_file f (record (p.files.file f) { pos = position }) p.files }

  -- The three calls end alike.
  abbrev AllFail : Type 0
  AllFail = (filesize fd p ≡ failed) × (seek fd position p ≡ failed) × (tell fd p ≡ failed)

  pub record LooksUp : Type 0 where
    pub refused :
        fd < 2 ⊎ fds_cnt < fd
        → (filesize fd p ≡ exited) × (seek fd position p ≡ exited) × (tell fd p ≡ exited)
    pub outside : fd ≡ fds_cnt → AllFail
    pub unused : 2 ≤ fd → fd < fds_cnt → f ≡ 0 → AllFail
    pub negative : 2 ≤ fd → fd < fds_cnt → 2 ^ 31 ≤ position → seek fd position p ≡ failed
    pub used :
        2 ≤ fd
        → fd < fds_cnt
        → f ≢ 0
        → position < 2 ^ 31
        → (seek fd position p ≡ returned moved)
          × (tell fd moved ≡ returned position)
          × (filesize fd p ≡ returned (inode_length (p.files.file f).inode p.files.inodes))
          × (filesize fd moved ≡ filesize fd p)

  -- With a table of 128 descriptors, filesize(), seek() and tell() end the process for a
  -- descriptor below 2 or above 128, and fail, behind the table or at an assertion, at 128 and
  -- where the descriptor stands for no file; for a file seek() fails its assertion from position 2
  -- ^ 31 on, and below it returns with a state in which tell() gives that position and filesize()
  -- is the length of the inode as before.
  pub seek-tell : LooksUp
  unfolding filesize seek tell file_length file_seek file_tell
  seek-tell = record {
    refused = λ h. rw (bad_fd-outside fd h) (refl, refl, refl);
    outside = λ h.
        rw
          (
            bad_fd-inside fd (omega (arith, h)) (omega (arith, h)),
            file_at-none p fd (omega (arith, h, size)),
          )
          (refl, refl, refl);
    unused = λ lo hi z.
        rw (bad_fd-inside fd lo (omega (arith, hi)), file_at-some p fd (omega (arith, hi, size)), z)
          (refl, refl, refl);
    negative = λ lo hi far.
        let test : ltb position (2 ^ 31) ≡ false = ground (arith, far) in
        rw
          (
            bad_fd-inside fd lo (omega (arith, hi)),
            file_at-some p fd (omega (arith, hi, size)),
            test,
          )
          (elim (Bool-cases (f == 0)) [ inl a ↦ rw a refl | inr a ↦ rw a refl ]);
    used = λ lo hi ne near.
        let nz : (f == 0) ≡ false = ne→== f 0 ne in
        let again : file_at moved fd ≡ some f = file_at-some moved fd (omega (arith, hi, size)) in
        let test : ltb position (2 ^ 31) ≡ true = ground (arith, near) in
        rw
          (
            bad_fd-inside fd lo (omega (arith, hi)),
            file_at-some p fd (omega (arith, hi, size)),
            nz,
            test,
          )
          (refl, rw (again, nz, ==_refl f) refl, refl, rw (again, nz, ==_refl f) refl);
  }
