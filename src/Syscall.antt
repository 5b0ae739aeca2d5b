-- ===== src/Syscall.antt =====
-- userprog/syscall.c: the table of file descriptors of a process and the system calls that look a
-- file up in it. A descriptor is a 32-bit word, read as an int; 0 in the table is NULL. The lock
-- around the file system is left out: a call is one step.
pub mod Closing
pub mod Lookup
pub mod Tests
use turbo_baker.Prelude.{
  Mem, ℕ, zero, suc, ◌+◌, ◌-◌, ◌*◌, ◌/◌, ◌%◌, ◌^◌, ◌≤◌, ◌<◌, min, max, ◌≡◌, refl, sym, ap, ◌∙◌,
  subst, fun_ext, ◌≢◌, ◌↔◌, ◌⊎◌, inl, inr, Bool, true, false, not, ◌&&◌, ◌||◌, Option, none, some,
  List, [], ◌∷◌, ◌++◌, map, arith, ltb, leb, ◌==◌, if◌then◌else◌, same_bool, ltb→lt, ltb→ge, leb→le,
  leb→gt, ==→eq, ==→ne, ne→==, ==_refl, tests, Bool-cases, Option-cases, length, get_or, set,
  replicate, length-append, length-set, length-replicate, get_or-set_self, get_or-set_ne, Mem,
  write, within, ◌>>=◌, is_some, true_ne_false, count, count-append,
}
use turbo_baker.File.{Files, file_length, file_seek, file_tell, file_close}

-- How a call ends: it returns, the process exits with status -1, or the kernel fails an assertion
-- or reaches outside of the table.
pub data Ending {ℓ} (A : Type ℓ) : Type ℓ where
  returned : A → Ending A
  exited : Ending A
  failed : Ending A

pub record Process : Type 0 where
  pub fds : List ℕ
  pub files : Files

-- sizeof (fds) / sizeof (fds[0])
abbrev pub fds_cnt : ℕ
fds_cnt = 128

-- The test of a descriptor by filesize(), seek(), tell() and close(); from 2 ^ 31 on it is negative.
pub bad_fd : ℕ → Bool
bad_fd fd = fd == 0 || (leb (2 ^ 31) fd || ltb fd 2) || ltb fds_cnt fd

pub file_at : Process → ℕ → Option ℕ
file_at p fd = if ltb fd (length p.fds) then some (get_or p.fds fd 0) else none

abbrev pub ending {ℓ} : {A : Type ℓ} → Option A → Ending A
ending none = failed
ending (some x) = returned x

pub filesize : ℕ → Process → Ending ℕ
filesize fd p = if bad_fd fd then exited else ending (file_at p fd >>= λ f. file_length f p.files)

pub seek : (fd position : ℕ) → Process → Ending Process
seek fd position p =
    if bad_fd fd
    then exited
    else ending
        (file_at p fd >>= λ f. file_seek f position p.files >>= λ t. some (record p { files = t }))

pub tell : ℕ → Process → Ending ℕ
tell fd p = if bad_fd fd then exited else ending (file_at p fd >>= λ f. file_tell f p.files)

pub close : (flushed : ℕ → Mem) → ℕ → Process → Ending Process
close flushed fd p =
    if bad_fd fd
    then exited
    else ending (
        file_at p fd >>= λ f.
        file_close flushed f p.files >>= λ t. some (record { fds = set p.fds fd 0; files = t }))
