-- ===== src/Bitmap/Scan.antt =====
-- The search for a group of equal bits: bitmap_scan and bitmap_scan_and_flip.
use turbo_baker.Prelude.{
  ℕ, zero, suc, ◌+◌, ◌-◌, ◌≤◌, ◌<◌, ◌≡◌, refl, sym, ◌∙◌, subst, inl, inr, Bool, true, false, not,
  some, arith, leb, ◌==◌, if◌then◌else◌, leb→le, leb→gt, ==→eq, ==→ne, Bool-cases, ◌>>=◌,
}
use turbo_baker.Bitmap.{
  Bitmap, bitmap_error, size_add, bitmap_contains, scan_loop, bitmap_scan, bitmap_scan_and_flip,
  bitmap_set_multiple,
}
use turbo_baker.Bitmap.Bits.{IsBitmap}
use turbo_baker.Bitmap.Range.{
  SetsRange, bitmap_set_multiple-SetsRange, Full, Somewhere, Contains, bitmap_contains-Contains,
  size_add_one,
}

-- Every group of `cnt` bits that starts at or behind `start` and before `stop` has a bit without
-- the value.
abbrev pub NoGroup : Bitmap → (start stop cnt : ℕ) → Bool → Type 0
NoGroup b start stop cnt value = (i : ℕ) → start ≤ i → i < stop → Somewhere b i cnt (not value)

-- The outcome of a search from `start` on: the first group, or BITMAP_ERROR if there is none.
pub data Scanned (b : Bitmap) (start cnt : ℕ) (value : Bool) (idx : ℕ) : Type 0 where
  group :
      start ≤ idx
      → idx + cnt ≤ b.bit_cnt
      → Full b idx cnt value
      → NoGroup b start idx cnt value
      → Scanned b start cnt value idx
  no_group :
      idx ≡ bitmap_error
      → ((i : ℕ) → start ≤ i → i + cnt ≤ b.bit_cnt → Somewhere b i cnt (not value))
      → Scanned b start cnt value idx

not-not : (a : Bool) → not (not a) ≡ a
not-not true = refl
not-not false = refl

NoGroup-suc :
    (b : Bitmap) (start i cnt : ℕ) (value : Bool)
    → NoGroup b start i cnt value
    → Somewhere b i cnt (not value)
    → NoGroup b start (i + 1) cnt value
NoGroup-suc b start i cnt value h here j p q = elim (Bool-cases (j == i)) [
  | inl at ↦ subst (λ x. Somewhere b x cnt (not value)) (sym (==→eq j i at)) here
  | inr ne ↦ h j p (omega (arith, ==→ne j i ne))
]

scan_loop-Scanned :
    (rounds start i cnt : ℕ) (value : Bool) {b : Bitmap}
    → IsBitmap b
    → cnt ≤ b.bit_cnt
    → rounds ≡ b.bit_cnt - cnt + 1 - i
    → start ≤ i
    → NoGroup b start i cnt value
    → (idx : ℕ) × (scan_loop b i rounds cnt value ≡ some idx) × Scanned b start cnt value idx
unfolding scan_loop
scan_loop-Scanned zero start i cnt value v l h s before =
    (bitmap_error, refl, no_group refl (λ j p q. before j p (omega arith)))
scan_loop-Scanned (suc rounds) start i cnt value {b} v l h s before =
    step (bitmap_contains-Contains i cnt (not value) v (omega arith))
      (scan_loop-Scanned rounds start (i + 1) cnt value v l)
  where
    Next : Type 0
    Next =
        rounds ≡ b.bit_cnt - cnt + 1 - (i + 1)
        → start ≤ i + 1
        → NoGroup b start (i + 1) cnt value
        → (idx : ℕ) × (scan_loop b (i + 1) rounds cnt value ≡ some idx)
          × Scanned b start cnt value idx

    later :
        Next
        → Somewhere b i cnt (not value)
        → i + 1 ≤ b.bit_cnt
        → (idx : ℕ) × (scan_loop b (size_add i 1) rounds cnt value ≡ some idx)
          × Scanned b start cnt value idx
    later ih here q =
        rw (size_add_one v i (omega arith))
          (ih (omega arith) (omega arith) (NoGroup-suc b start i cnt value before here))

    decide :
        Next
        → (t : Bool) → Contains b i cnt (not value) t
        → (idx : ℕ) × ((if not t then some i else scan_loop b (size_add i 1) rounds cnt value)
            ≡ some idx)
          × Scanned b start cnt value idx
    decide ih true (j, p, q, r) = later ih (j, p, q, r) (omega arith)
    decide ih false c = (i, refl, group s (omega arith) (λ j p q. c j p q ∙ not-not value) before)

    step :
        (t : Bool) × (bitmap_contains b i cnt (not value) ≡ some t) × Contains b i cnt (not value) t
        → Next
        → (idx : ℕ) × (scan_loop b i (suc rounds) cnt value ≡ some idx)
          × Scanned b start cnt value idx
    step (t, e, c) ih = rw e (decide ih t c)

-- bitmap_scan() from a `start` inside the bitmap returns the first index, not before `start`, at
-- which `cnt` bits in a row have the value, and BITMAP_ERROR only if there is no such index.
pub bitmap_scan-Scanned :
    {b : Bitmap} (start cnt : ℕ) (value : Bool)
    → IsBitmap b
    → start ≤ b.bit_cnt
    → (idx : ℕ) × (bitmap_scan b start cnt value ≡ some idx) × Scanned b start cnt value idx
unfolding bitmap_scan
bitmap_scan-Scanned {b} start cnt value v h = elim (Bool-cases (leb cnt b.bit_cnt)) [
  | inl fits ↦
      rw (inside, fits)
        (scan_loop-Scanned (b.bit_cnt - cnt + 1 - start) start start cnt value v (leb→le _ _ fits)
          refl (omega arith) (λ i p q. absurd (omega arith)))
  | inr big ↦
      rw (inside, big)
        (bitmap_error, refl, no_group refl (λ i p q. absurd (omega (arith, leb→gt _ _ big))))
]
  where
    inside : leb start b.bit_cnt ≡ true
    inside = ground arith

-- The outcome of bitmap_scan_and_flip().
pub data Flipped (b : Bitmap) (start cnt : ℕ) (value : Bool) (idx : ℕ) (b' : Bitmap) : Type 0 where
  flipped :
      start ≤ idx
      → idx + cnt ≤ b.bit_cnt
      → Full b idx cnt value
      → NoGroup b start idx cnt value
      → SetsRange b idx cnt (not value) b'
      → Flipped b start cnt value idx b'
  unchanged :
      idx ≡ bitmap_error
      → b' ≡ b
      → ((i : ℕ) → start ≤ i → i + cnt ≤ b.bit_cnt → Somewhere b i cnt (not value))
      → Flipped b start cnt value idx b'

-- bitmap_scan_and_flip() from a `start` inside the bitmap finds the first group as bitmap_scan()
-- does, gives exactly its bits the other value, and leaves the bitmap as it was if there is none.
pub bitmap_scan_and_flip-Flipped :
    {b : Bitmap} (start cnt : ℕ) (value : Bool)
    → IsBitmap b
    → start ≤ b.bit_cnt
    → (idx : ℕ) × (b' : Bitmap) × (bitmap_scan_and_flip b start cnt value ≡ some (idx, b'))
      × Flipped b start cnt value idx b'
unfolding bitmap_scan_and_flip
bitmap_scan_and_flip-Flipped {b} start cnt value v h =
    step (bitmap_scan-Scanned start cnt value v h)
  where
    finish :
        (idx : ℕ)
        → Scanned b start cnt value idx
        → (idx' : ℕ) × (b' : Bitmap) × ((if not (idx == bitmap_error)
              then ◌>>=◌ {B = ℕ × Bitmap}
                  (bitmap_set_multiple b idx cnt (not value))
                  (λ b'. some (idx, b'))
              else some (idx, b))
            ≡ some (idx', b'))
          × Flipped b start cnt value idx' b'
    finish idx (group s l full before) =
        let (b', e, r) = bitmap_set_multiple-SetsRange idx cnt (not value) v l in
        let ne : (idx == bitmap_error) ≡ false = ground (arith, v.small) in
        (idx, b', rw (ne, e) refl, flipped s l full before r)
    finish idx (no_group e none_there) = (idx, b, rw e refl, unchanged e refl none_there)

    step :
        (idx : ℕ) × (bitmap_scan b start cnt value ≡ some idx) × Scanned b start cnt value idx
        → (idx' : ℕ) × (b' : Bitmap) × (bitmap_scan_and_flip b start cnt value ≡ some (idx', b'))
          × Flipped b start cnt value idx' b'
    step (idx, e, s) = rw e (finish idx s)
