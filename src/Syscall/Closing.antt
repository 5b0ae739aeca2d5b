-- ===== src/Syscall/Closing.antt =====
-- userprog/syscall.c: close().
use turbo_baker.Prelude.{
  Mem, ℕ, ◌+◌, ◌^◌, ◌≤◌, ◌<◌, ◌≡◌, refl, sym, ◌∙◌, ◌≢◌, ◌⊎◌, inl, inr, Bool, true, false, ◌&&◌,
  none, some, List, arith, ltb, ◌==◌, if◌then◌else◌, ==→eq, ==→ne, ne→==, Bool-cases, length,
  get_or, set, length-set, get_or-set_self, get_or-set_ne, count,
}
use turbo_baker.HashTable.{take_out}
use turbo_baker.Inode.Closing.{Marked}
use turbo_baker.File.{Files}
use turbo_baker.File.Valid.{IsFiles, count-take_out_other}
use turbo_baker.File.Closing.{file_close-IsFiles, file_close-null}
use turbo_baker.Syscall.{returned, exited, failed, Process, fds_cnt, bad_fd, file_at, close}

-- The descriptors of a process stand for distinct open files.
pub record IsProcess (fs : List ℕ) (p : Process) : Type 0 where
  pub files : IsFiles fs p.files
  pub size : length p.fds ≡ fds_cnt
  pub opened : (i : ℕ) → i < fds_cnt → get_or p.fds i 0 ≢ 0 → 0 < count (get_or p.fds i 0) fs
  pub distinct :
      (i j : ℕ)
      → i < fds_cnt
      → j < fds_cnt
      → get_or p.fds i 0 ≢ 0
      → get_or p.fds i 0 ≡ get_or p.fds j 0
      → i ≡ j

pub bad_fd-outside : (fd : ℕ) → fd < 2 ⊎ fds_cnt < fd → bad_fd fd ≡ true
unfolding bad_fd
bad_fd-outside fd (inl h) = ground arith
bad_fd-outside fd (inr h) = ground arith

pub bad_fd-inside : (fd : ℕ) → 2 ≤ fd → fd ≤ fds_cnt → bad_fd fd ≡ false
unfolding bad_fd
bad_fd-inside fd lo hi = ground arith

pub file_at-none : (p : Process) (fd : ℕ) → length p.fds ≤ fd → file_at p fd ≡ none
unfolding file_at
file_at-none p fd h = let test : ltb fd (length p.fds) ≡ false = ground (arith, h) in rw test refl

pub file_at-some :
    (p : Process) (fd : ℕ) → fd < length p.fds → file_at p fd ≡ some (get_or p.fds fd 0)
unfolding file_at
file_at-some p fd h = let test : ltb fd (length p.fds) ≡ true = ground (arith, h) in rw test refl

module _ (fs : List ℕ) (p : Process) (v : IsProcess fs p) (flushed : ℕ → Mem) (fd : ℕ) where
  abbrev f : ℕ
  f = get_or p.fds fd 0

  -- The inode of the file, as it stands before the call.
  abbrev inode_of : ℕ
  inode_of = (p.files.file f).inode

  abbrev last_of_removed : Bool
  last_of_removed =
      ((p.files.inodes.inode inode_of).open_cnt == 1) && (p.files.inodes.inode inode_of).removed

  pub record Closes : Type 0 where
    pub refused : fd < 2 ⊎ fds_cnt < fd → close flushed fd p ≡ exited
    pub outside : fd ≡ fds_cnt → close flushed fd p ≡ failed
    pub unused :
        2 ≤ fd
        → fd < fds_cnt
        → f ≡ 0
        → close flushed fd p ≡ returned (record p { fds = set p.fds fd 0 })
    pub used :
        2 ≤ fd
        → fd < fds_cnt
        → f ≢ 0
        → (p' : Process) × (close flushed fd p ≡ returned p')
          × IsProcess (take_out f fs) p'
          × ((p'.files.inodes.inode inode_of).open_cnt + 1
              ≡ (p.files.inodes.inode inode_of).open_cnt)
          × (get_or p'.fds fd 0 ≡ 0)
          × ((i : ℕ) → i ≢ fd → get_or p'.fds i 0 ≡ get_or p.fds i 0)

  slot :
      (i : ℕ)
      → fd < fds_cnt
      → get_or (set p.fds fd 0) i 0 ≡ (if fd == i then 0 else get_or p.fds i 0)
  slot i h = elim (Bool-cases (fd == i)) [
    | inl a ↦ rw (a, ← ==→eq fd i a) (get_or-set_self p.fds fd 0 0 (omega (arith, v.size, h)))
    | inr a ↦ rw a (get_or-set_ne p.fds fd i 0 0 (==→ne fd i a))
  ]

  kept_open :
      (i : ℕ)
      → fd < fds_cnt
      → i < fds_cnt
      → f ≢ 0
      → (if fd == i then 0 else get_or p.fds i 0) ≢ 0
      → 0 < count (if fd == i then 0 else get_or p.fds i 0) (take_out f fs)
  kept_open i h k ne n = elim (Bool-cases (fd == i)) [
    | inl a ↦ absurd (n (rw a refl))
    | inr a ↦
        let apart : (f == get_or p.fds i 0) ≡ false =
          ne→== f (get_or p.fds i 0) (λ z. ==→ne fd i a (v.distinct fd i h k ne z)) in
        rw (a, count-take_out_other (get_or p.fds i 0) f fs apart) (v.opened i k (λ z. n (rw a z)))
  ]

  kept_distinct :
      (i j : ℕ)
      → i < fds_cnt
      → j < fds_cnt
      → (if fd == i then 0 else get_or p.fds i 0) ≢ 0
      → (if fd == i then 0 else get_or p.fds i 0) ≡ (if fd == j then 0 else get_or p.fds j 0)
      → i ≡ j
  kept_distinct i j h k n z = elim (Bool-cases (fd == i)) [
    | inl a ↦ absurd (n (rw a refl))
    | inr a ↦ elim (Bool-cases (fd == j)) [
      | inl b ↦ absurd (n (z ∙ rw b refl))
      | inr b ↦ v.distinct i j h k (λ x. n (rw a x)) (sym (rw a refl) ∙ z ∙ rw b refl)
    ]
  ]

  kept-IsProcess :
      (t : Files)
      → fd < fds_cnt
      → f ≢ 0
      → IsFiles (take_out f fs) t
      → IsProcess (take_out f fs) (record { fds = set p.fds fd 0; files = t })
  kept-IsProcess t h ne w = record {
    files = w;
    size = length-set p.fds fd 0 ∙ v.size;
    opened = λ i k n. rw (slot i h) (kept_open i h k ne (λ z. n (slot i h ∙ z)));
    distinct = λ i j k l n z.
        kept_distinct i j k l (λ x. n (slot i h ∙ x)) (sym (slot i h) ∙ z ∙ slot j h);
  }

  -- If the descriptors of a process stand for distinct open files, in a table of 128, and the open
  -- files and inodes are well formed, and if, where the descriptor has a file, its inode has fewer
  -- than 2 ^ 31 openers and, if this is the last opener of a removed inode, its sectors are marked
  -- in the map and the map file is open: close() ends the process for a descriptor below 2 or
  -- above 128, reads behind the table at 128, does nothing to the files where the descriptor
  -- stands for none, and else returns with the file off the open files and one opener of its inode
  -- less, its place free, every other place as it was, and all this again true.
  pub close-Closes :
      (f ≢ 0 → (p.files.inodes.inode inode_of).open_cnt < 2 ^ 31)
      → (f ≢ 0 → last_of_removed ≡ true → Marked p.files.inodes (p.files.inodes.inode inode_of))
      → Closes
  unfolding close
  close-Closes b k = record {
    refused = λ h. rw (bad_fd-outside fd h) refl;
    outside = λ h.
        rw
          (
            bad_fd-inside fd (omega (arith, h)) (omega (arith, h)),
            file_at-none p fd (omega (arith, h, v.size)),
          )
          refl;
    unused = λ lo hi z.
        rw
          (
            bad_fd-inside fd lo (omega (arith, hi)),
            file_at-some p fd (omega (arith, hi, v.size)),
            z,
            file_close-null flushed p.files,
          )
          refl;
    used = λ lo hi ne.
        let (t, done, w, counted) =
          file_close-IsFiles fs p.files v.files f (v.opened fd hi ne) flushed (b ne) (k ne) in
        (
          record { fds = set p.fds fd 0; files = t },
          rw
              (
                bad_fd-inside fd lo (omega (arith, hi)),
                file_at-some p fd (omega (arith, hi, v.size)),
                done,
              )
              refl,
          kept-IsProcess t hi ne w,
          counted,
          get_or-set_self p.fds fd 0 0 (omega (arith, v.size, hi)),
          λ i n. get_or-set_ne p.fds fd i 0 0 (λ z. n (sym z)),
        );
  }
