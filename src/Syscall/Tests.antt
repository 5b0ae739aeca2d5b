-- ===== src/Syscall/Tests.antt =====
-- userprog/syscall.c at a process whose descriptor 2 is a file on the removed inode of the device.
use turbo_baker.Prelude.{
  ℕ, zero, suc, ◌<◌, ◌≡◌, refl, sym, ◌∙◌, ◌≢◌, inl, inr, List, [], ◌∷◌, arith, ◌==◌, if◌then◌else◌,
  ==→eq, ==→ne, Bool-cases, length, get_or, set, replicate, get_or-set_ne, count,
}
use turbo_baker.File.Tests.{one_file, one_file-IsFiles}
use turbo_baker.Inode.Tests.{flushed, device-Marked}
use turbo_baker.Syscall.{Process}
use turbo_baker.Syscall.Closing.{IsProcess, Closes, close-Closes}
use turbo_baker.Syscall.Lookup.{LooksUp, seek-tell}

abbrev empty_table : ℕ → List ℕ
empty_table n = replicate n 0

abbrev table : List ℕ
table = set (empty_table 128) 2 96

-- What descriptor `i` stands for.
abbrev at : ℕ → ℕ
at i = if 2 == i then 96 else 0

abbrev process : Process
process = record { fds = table; files = one_file }

process_size : length process.fds ≡ 128
process_size = refl

get_or_zeros : (n i : ℕ) → get_or (empty_table n) i 0 ≡ 0
get_or_zeros zero i = refl
get_or_zeros (suc n) zero = refl
get_or_zeros (suc n) (suc i) = get_or_zeros n i

slot : (i : ℕ) → get_or table i 0 ≡ at i
slot i = elim (Bool-cases (2 == i)) [
  | inl a ↦ rw (a, ← ==→eq 2 i a) refl
  | inr a ↦ rw a (get_or-set_ne (empty_table 128) 2 i 96 0 (==→ne 2 i a) ∙ get_or_zeros 128 i)
]

process-IsProcess : IsProcess (96 ∷ []) process
process-IsProcess = record {
  files = one_file-IsFiles;
  size = process_size;
  opened = λ i h n. rw (slot i) (listed i (λ z. n (slot i ∙ z)));
  distinct = λ i j h k n z. only i j (λ x. n (slot i ∙ x)) (sym (slot i) ∙ z ∙ slot j);
}
  where
    listed : (i : ℕ) → at i ≢ 0 → 0 < count (at i) (96 ∷ [])
    listed i n = ground (arith, n)

    only : (i j : ℕ) → at i ≢ 0 → at i ≡ at j → i ≡ j
    only i j n z = ground (arith, n, z)

close-Closes_example : Closes (96 ∷ []) process process-IsProcess flushed 2
close-Closes_example =
    close-Closes (96 ∷ []) process process-IsProcess flushed 2 (λ n. omega arith)
      (λ n h. device-Marked)

seek-tell_example : LooksUp process process_size 2 7
seek-tell_example = seek-tell process process_size 2 7
