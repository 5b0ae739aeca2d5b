-- ===== src/Bitmap/Range.antt =====
-- Ranges of bits: bitmap_set_multiple, bitmap_count, bitmap_contains and what is built on them.
use turbo_baker.Prelude.{
  ℕ, zero, suc, ◌+◌, ◌≤◌, ◌<◌, ◌≡◌, refl, ap, ◌∙◌, subst, inl, inr, Bool, true, false, not, some,
  arith, ◌==◌, if◌then◌else◌, same_bool, ==→eq, ==→ne, Bool-cases, within, ◌>>=◌, true_ne_false,
  sym,
}
use turbo_baker.Bitmap.{
  bitmap_all, Bitmap, size_add, in_range, set_loop, bitmap_set_multiple, count_loop, bitmap_count,
  contains_loop, bitmap_contains,
}
use turbo_baker.Bitmap.Bits.{IsBitmap, view, bitmap_set-Sets, bitmap_test_lem}

-- An operation on the `cnt` bits from `start` on: it gives them all one value, and changes no other.
pub record SetsRange (b : Bitmap) (start cnt : ℕ) (value : Bool) (b' : Bitmap) : Type 0 where
  pub valid : IsBitmap b'
  pub size : b'.bit_cnt ≡ b.bit_cnt
  pub bits : (j : ℕ) → view b' j ≡ (if within start cnt j then value else view b j)

pub size_add_one : {b : Bitmap} → IsBitmap b → (i : ℕ) → i < b.bit_cnt → size_add i 1 ≡ i + 1
size_add_one v i h = omega (arith, v.small)

set_loop-SetsRange :
    (cnt start : ℕ) (value : Bool) {b : Bitmap}
    → IsBitmap b
    → start + cnt ≤ b.bit_cnt
    → (b' : Bitmap) × (set_loop b start cnt value ≡ some b') × SetsRange b start cnt value b'
unfolding set_loop
set_loop-SetsRange zero start value {b} v h =
    (b, refl, record { valid = v; size = refl; bits = λ j. ground arith })
set_loop-SetsRange (suc cnt) start value {b} v h =
    let (b₁, e, s) = bitmap_set-Sets v start (omega arith) value in
    let (b₂, f, r) = set_loop-SetsRange cnt (start + 1) value s.valid (omega (arith, s.size)) in
    (
      b₂,
      rw (e, size_add_one v start (omega arith)) f,
      record {
        valid = r.valid;
        size = r.size ∙ s.size;
        bits = λ j. ground (arith, r.bits j, s.bits j);
      },
    )

in_range_lem :
    {b : Bitmap}
    → IsBitmap b
    → (start cnt : ℕ) → start + cnt ≤ b.bit_cnt
    → in_range b start cnt ≡ true
unfolding in_range
in_range_lem v start cnt h = ground (arith, v.small)

-- bitmap_set_multiple() on a range inside the bitmap succeeds, and gives exactly the bits of the
-- range the value.
pub bitmap_set_multiple-SetsRange :
    {b : Bitmap} (start cnt : ℕ) (value : Bool)
    → IsBitmap b
    → start + cnt ≤ b.bit_cnt
    → (b' : Bitmap) × (bitmap_set_multiple b start cnt value ≡ some b')
      × SetsRange b start cnt value b'
unfolding bitmap_set_multiple
bitmap_set_multiple-SetsRange start cnt value v h =
    let (b', e, s) = set_loop-SetsRange cnt start value v h in
    (b', rw (in_range_lem v start cnt h) e, s)

-- The number of the `cnt` bits from `start` on that have the value.
pub tally : Bitmap → (start cnt : ℕ) → Bool → ℕ
tally b start zero value = 0
tally b start (suc cnt) value =
    (if same_bool (view b start) value then 1 else 0) + tally b (start + 1) cnt value

count_loop-tally :
    (cnt start acc : ℕ) (value : Bool) {b : Bitmap}
    → IsBitmap b
    → start + cnt ≤ b.bit_cnt
    → count_loop b start cnt value acc ≡ some (acc + tally b start cnt value)
unfolding count_loop tally
count_loop-tally zero start acc value v h = ground arith
count_loop-tally (suc cnt) start acc value {b} v h =
    rw (bitmap_test_lem v start (omega arith), size_add_one v start (omega arith))
      (ground (
        arith,
        count_loop-tally cnt (start + 1) acc value v,
        count_loop-tally cnt (start + 1) (acc + 1) value v,
      ))

-- bitmap_count() on a range inside the bitmap is the number of its bits that have the value.
pub bitmap_count-tally :
    {b : Bitmap} (start cnt : ℕ) (value : Bool)
    → IsBitmap b
    → start + cnt ≤ b.bit_cnt
    → bitmap_count b start cnt value ≡ some (tally b start cnt value)
unfolding bitmap_count
bitmap_count-tally start cnt value v h =
    rw (in_range_lem v start cnt h) (count_loop-tally cnt start 0 value v h ∙ ap some (omega arith))

-- All bits of the range have the value; some bit has it.
abbrev pub Full : Bitmap → (start cnt : ℕ) → Bool → Type 0
Full b start cnt value = (j : ℕ) → start ≤ j → j < start + cnt → view b j ≡ value

abbrev pub Somewhere : Bitmap → (start cnt : ℕ) → Bool → Type 0
Somewhere b start cnt value = (j : ℕ) × (start ≤ j) × (j < start + cnt) × (view b j ≡ value)

-- What an answer of bitmap_contains() says.
abbrev pub Contains : Bitmap → (start cnt : ℕ) → Bool → Bool → Type 0
Contains b start cnt value true = Somewhere b start cnt value
Contains b start cnt value false = Full b start cnt (not value)

same_bool-true : (a b : Bool) → same_bool a b ≡ true → a ≡ b
same_bool-true true true h = refl
same_bool-true true false h = cc
same_bool-true false true h = cc
same_bool-true false false h = refl

same_bool-false : (a b : Bool) → same_bool a b ≡ false → a ≡ not b
same_bool-false true true h = cc
same_bool-false true false h = refl
same_bool-false false true h = refl
same_bool-false false false h = cc

Contains-suc :
    (b : Bitmap) (start cnt : ℕ) (value t : Bool)
    → view b start ≡ not value
    → Contains b (start + 1) cnt value t
    → Contains b start (suc cnt) value t
Contains-suc b start cnt value true e (j, p, q, r) = (j, omega arith, omega arith, r)
Contains-suc b start cnt value false e h = λ j p q. elim (Bool-cases (start == j)) [
  | inl at ↦ subst (λ x. view b x ≡ not value) (==→eq start j at) e
  | inr ne ↦ h j (omega (arith, ==→ne start j ne)) (omega arith)
]

contains_loop-Contains :
    (cnt start : ℕ) (value : Bool) {b : Bitmap}
    → IsBitmap b
    → start + cnt ≤ b.bit_cnt
    → (t : Bool) × (contains_loop b start cnt value ≡ some t) × Contains b start cnt value t
unfolding contains_loop
contains_loop-Contains zero start value v h = (false, refl, λ j p q. absurd (omega arith))
contains_loop-Contains (suc cnt) start value {b} v h =
    rw (bitmap_test_lem v start (omega arith), size_add_one v start (omega arith))
      (elim (Bool-cases (same_bool (view b start) value)) [
        | inl e ↦ rw e (true, refl, (start, omega arith, omega arith, same_bool-true _ _ e))
        | inr e ↦ rw e (
            let (t, f, c) = contains_loop-Contains cnt (start + 1) value v (omega arith) in
            (t, f, Contains-suc b start cnt value t (same_bool-false _ _ e) c))
      ])

-- bitmap_contains() on a range inside the bitmap returns true only if some bit of the range has
-- the value, and false only if all have the other one.
pub bitmap_contains-Contains :
    {b : Bitmap} (start cnt : ℕ) (value : Bool)
    → IsBitmap b
    → start + cnt ≤ b.bit_cnt
    → (t : Bool) × (bitmap_contains b start cnt value ≡ some t) × Contains b start cnt value t
unfolding bitmap_contains
bitmap_contains-Contains start cnt value v h =
    rw (in_range_lem v start cnt h) (contains_loop-Contains cnt start value v h)

-- Used where all the bits of a range are known to be set.
pub bitmap_all_of_Full :
    {b : Bitmap} (start cnt : ℕ)
    → IsBitmap b
    → start + cnt ≤ b.bit_cnt
    → Full b start cnt true
    → bitmap_all b start cnt ≡ some true
unfolding bitmap_all
bitmap_all_of_Full {b} start cnt v h full = step (bitmap_contains-Contains start cnt false v h)
  where
    step :
        (t : Bool) × (bitmap_contains b start cnt false ≡ some t) × Contains b start cnt false t
        → (bitmap_contains b start cnt false >>= λ t. some (not t)) ≡ some true
    step (true, e, (j, p, q, r)) = absurd (true_ne_false (sym (full j p q) ∙ r))
    step (false, e, c) = rw e refl
