-- ===== src/File/Valid.antt =====
-- filesys/file.c: the files that are open and the counts of their inodes.
use turbo_baker.Prelude.{
  ℕ, ◌+◌, ◌≤◌, ◌<◌, ◌≡◌, refl, inl, inr, Bool, true, false, ◌&&◌, List, [], ◌∷◌, arith, ◌==◌,
  if◌then◌else◌, ==→eq, Bool-cases, count,
}
use turbo_baker.HashTable.{take_out}
use turbo_baker.Inode.Opening.{IsInodes}
use turbo_baker.File.{Files}

-- How many of a list of files pass a test.
unfoldable pub tally : (ℕ → Bool) → List ℕ → ℕ
tally p [] = 0
tally p (f ∷ fs) = (if p f then 1 else 0) + tally p fs

pub tally-take_out :
    (p : ℕ → Bool) (f : ℕ) (fs : List ℕ)
    → 0 < count f fs
    → tally p (take_out f fs) + (if p f then 1 else 0) ≡ tally p fs
unfolding tally take_out
tally-take_out p f [] h = absurd (omega arith)
tally-take_out p f (x ∷ xs) h = elim (Bool-cases (f == x)) [
  | inl a ↦ rw (a, ==→eq f x a) (ground arith)
  | inr a ↦ rw a (ground (arith, tally-take_out p f xs))
]

pub tally-positive :
    (p : ℕ → Bool) (g : ℕ) (fs : List ℕ) → p g ≡ true → 0 < count g fs → 0 < tally p fs
tally-positive p g fs h n = ground (arith, tally-take_out p g fs n, h)

pub tally-le :
    (p q : ℕ → Bool) (fs : List ℕ) → ((g : ℕ) → p g ≡ true → q g ≡ true) → tally p fs ≤ tally q fs
unfolding tally
tally-le p q [] h = omega arith
tally-le p q (x ∷ xs) h = ground (arith, tally-le p q xs h, h x)

pub tally-same :
    (p q : ℕ → Bool) (fs : List ℕ)
    → ((g : ℕ) → 0 < count g fs → p g ≡ q g)
    → tally p fs ≡ tally q fs
unfolding tally
tally-same p q [] h = refl
tally-same p q (x ∷ xs) h =
    let ih = tally-same p q xs (λ g n. h g (omega (arith, n))) in
    let here : p x ≡ q x = h x (ground arith) in rw (here, ih) refl

pub count-take_out_le : (g f : ℕ) (fs : List ℕ) → count g (take_out f fs) ≤ count g fs
unfolding take_out
count-take_out_le g f [] = omega arith
count-take_out_le g f (x ∷ xs) = ground (arith, count-take_out_le g f xs)

pub count-take_out_self :
    (f : ℕ) (fs : List ℕ) → 0 < count f fs → count f (take_out f fs) + 1 ≡ count f fs
unfolding take_out
count-take_out_self f [] h = absurd (omega arith)
count-take_out_self f (x ∷ xs) h = ground (arith, count-take_out_self f xs)

-- Whether a file has an inode open, and whether it denies writes to it.
abbrev pub opens : Files → ℕ → ℕ → Bool
opens s e f = (s.file f).inode == e

abbrev pub denies : Files → ℕ → ℕ → Bool
denies s e f = opens s e f && (s.file f).deny_write

-- The open files are distinct, each on an open inode; an inode has an opener for each of its files,
-- and writes to it are denied once for each file that denies them.
pub record IsFiles (fs : List ℕ) (s : Files) : Type 0 where
  pub inodes : IsInodes s.inodes
  pub distinct : (f : ℕ) → count f fs ≤ 1
  pub no_null : count 0 fs ≡ 0
  pub on_open : (f : ℕ) → 0 < count f fs → 0 < count (s.file f).inode s.inodes.open_inodes
  pub opened :
      (e : ℕ)
      → 0 < count e s.inodes.open_inodes
      → tally (opens s e) fs ≤ (s.inodes.inode e).open_cnt
  pub denied :
      (e : ℕ)
      → 0 < count e s.inodes.open_inodes
      → tally (denies s e) fs ≡ (s.inodes.inode e).deny_write_cnt

-- The other files stay in the list.
pub count-take_out_other :
    (g f : ℕ) (fs : List ℕ) → (f == g) ≡ false → count g (take_out f fs) ≡ count g fs
unfolding take_out
count-take_out_other g f [] h = refl
count-take_out_other g f (x ∷ xs) h = elim (Bool-cases (f == x)) [
  | inl a ↦ rw a (ground (arith, ==→eq f x a, h))
  | inr a ↦ rw a (ground (arith, count-take_out_other g f xs h))
]
