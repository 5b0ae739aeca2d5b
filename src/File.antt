-- ===== src/File.antt =====
-- filesys/file.c: open files over the inodes. A file is its address and 0 is NULL; the memory that
-- calloc() gives, or 0, is an argument. `none` is a failed assertion. The transfer of data is not
-- modelled.
pub mod Valid
pub mod Allowing
pub mod Denying
pub mod Closing
pub mod Opening
pub mod Tests
use turbo_baker.Prelude.{
  Mem, ℕ, zero, suc, ◌+◌, ◌-◌, ◌*◌, ◌/◌, ◌%◌, ◌^◌, ◌≤◌, ◌<◌, min, max, ◌≡◌, refl, sym, ap, ◌∙◌,
  subst, fun_ext, ◌≢◌, ◌↔◌, ◌⊎◌, inl, inr, Bool, true, false, not, ◌&&◌, ◌||◌, Option, none, some,
  List, [], ◌∷◌, ◌++◌, map, arith, ltb, leb, ◌==◌, if◌then◌else◌, same_bool, ltb→lt, ltb→ge, leb→le,
  leb→gt, ==→eq, ==→ne, ne→==, ==_refl, tests, Bool-cases, Option-cases, length, get_or, set,
  replicate, length-append, length-set, length-replicate, get_or-set_self, get_or-set_ne, Mem,
  write, within, ◌>>=◌, is_some, true_ne_false, count, count-append,
}
use turbo_baker.Bitmap.{assert}
use turbo_baker.Inode.{
  Inodes, inode_reopen, inode_close, inode_deny_write, inode_allow_write, inode_length,
}

pub record File : Type 0 where
  pub inode : ℕ
  pub pos : ℕ
  pub deny_write : Bool

pub record Files : Type 0 where
  pub file : ℕ → File
  pub inodes : Inodes

abbrev pub set_file : ℕ → File → Files → Files
set_file f x s = record s { file = λ g. if f == g then x else s.file g }

pub file_open : (flushed : ℕ → Mem) → (fresh inode : ℕ) → Files → Option (ℕ × Files)
file_open flushed fresh inode s =
    if not (inode == 0) && not (fresh == 0)
    then some (fresh, set_file fresh (record { inode = inode; pos = 0; deny_write = false }) s)
    else (inode_close flushed inode s.inodes >>= λ t. some (0, record s { inodes = t }))

pub file_reopen : (flushed : ℕ → Mem) → (fresh file : ℕ) → Files → Option (ℕ × Files)
file_reopen flushed fresh f s =
    let r = inode_reopen (s.file f).inode s.inodes in
    file_open flushed fresh r.0 (record s { inodes = r.1 })

pub file_deny_write : ℕ → Files → Option Files
file_deny_write f s = assert (not (f == 0)) (
    if not (s.file f).deny_write
    then (inode_deny_write (s.file f).inode s.inodes >>= λ t.
        some (set_file f (record (s.file f) { deny_write = true }) (record s { inodes = t })))
    else some s)

pub file_allow_write : ℕ → Files → Option Files
file_allow_write f s = assert (not (f == 0)) (
    if (s.file f).deny_write
    then (inode_allow_write (s.file f).inode s.inodes >>= λ t.
        some (set_file f (record (s.file f) { deny_write = false }) (record s { inodes = t })))
    else some s)

pub file_close : (flushed : ℕ → Mem) → ℕ → Files → Option Files
file_close flushed f s =
    if not (f == 0)
    then (file_allow_write f s >>= λ s1.
        inode_close flushed (s1.file f).inode s1.inodes >>= λ t. some (record s1 { inodes = t }))
    else some s

pub file_get_inode : ℕ → Files → ℕ
file_get_inode f s = (s.file f).inode

unfoldable pub file_length : ℕ → Files → Option ℕ
file_length f s = assert (not (f == 0)) (some (inode_length (s.file f).inode s.inodes))

-- A position of 2 ^ 31 or more is a negative off_t.
unfoldable pub file_seek : (f new_pos : ℕ) → Files → Option Files
file_seek f new_pos s =
    assert (not (f == 0))
      (assert (ltb new_pos (2 ^ 31)) (some (set_file f (record (s.file f) { pos = new_pos }) s)))

unfoldable pub file_tell : ℕ → Files → Option ℕ
file_tell f s = assert (not (f == 0)) (some (s.file f).pos)
