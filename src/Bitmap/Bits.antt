-- ===== src/Bitmap/Bits.antt =====
-- Single bits of a bitmap: bitmap_mark, bitmap_reset, bitmap_flip, bitmap_set and bitmap_test.
use turbo_baker.Prelude.{
  ℕ, ◌%◌, ◌^◌, ◌≤◌, ◌<◌, ◌≡◌, refl, ◌∙◌, inl, inr, Bool, true, false, not, none, some, arith, ◌==◌,
  if◌then◌else◌, ==→eq, ==→ne, Bool-cases, length, get_or, length-set, get_or-set_self,
  get_or-set_ne,
}
use Prim.Native.Nat.{bit_and, bit_or, bit_xor}
use turbo_baker.Prelude.Bits.{
  bit, bit-le, bit-bit_and, bit-bit_or, bit_or-lt, bit_and-lt, bit_xor-lt, bit-bit_xor, bit-pow,
  pow-lt, complement, bit-complement, mask_test,
}
use turbo_baker.Bitmap.{
  Bitmap, elem_bits, bitmap_error, elem_idx, bit_mask, elem_cnt, update_word, bitmap_mark,
  bitmap_reset, bitmap_flip, bitmap_set, bitmap_test,
}

-- The storage has a word for every bit, and the words are of 32 bits.
pub record IsBitmap (b : Bitmap) : Type 0 where
  pub room : length b.bits ≡ elem_cnt b.bit_cnt
  pub words : (i : ℕ) → get_or b.bits i 0 < 2 ^ 32
  pub small : b.bit_cnt < bitmap_error

-- The array of bits that a bitmap stands for.
unfoldable pub view : Bitmap → ℕ → Bool
view b i = bit (get_or b.bits (elem_idx i) 0) (i % elem_bits) == 1

in_storage : {b : Bitmap} → IsBitmap b → {i : ℕ} → i < b.bit_cnt → elem_idx i < length b.bits
in_storage v h = omega (arith, v.room)

module _ {b : Bitmap} (v : IsBitmap b) (i w : ℕ) (fits : w < 2 ^ 32) (inside : i < b.bit_cnt) where
  update-IsBitmap : IsBitmap (update_word b (elem_idx i) w)
  unfolding update_word
  update-IsBitmap = record {
    room = length-set b.bits (elem_idx i) w ∙ v.room;
    words = λ j. elim (Bool-cases (elem_idx i == j)) [
      | inl e ↦
          rw
            (
              ← ==→eq (elem_idx i) j e,
              get_or-set_self b.bits (elem_idx i) w 0 (in_storage v inside),
            )
            fits
      | inr e ↦ rw (get_or-set_ne b.bits (elem_idx i) j w 0 (==→ne _ _ e)) (v.words j)
    ];
    small = v.small;
  }

  -- A word that differs from the old one in one bit.
  view-update :
      (value : Bool)
      → ((k : ℕ)
          → k < 32
          → (bit w k == 1)
            ≡ (if i % elem_bits == k then value else bit (get_or b.bits (elem_idx i) 0) k == 1))
      → (j : ℕ) → view (update_word b (elem_idx i) w) j ≡ (if i == j then value else view b j)
  unfolding update_word view
  view-update value h j = elim (Bool-cases (elem_idx i == elem_idx j)) [
    | inl e ↦
        rw
          (
            ← ==→eq (elem_idx i) (elem_idx j) e,
            get_or-set_self b.bits (elem_idx i) w 0 (in_storage v inside),
            h (j % elem_bits) (omega arith),
          )
          (ground (arith, ==→eq (elem_idx i) (elem_idx j) e))
    | inr e ↦ rw (get_or-set_ne b.bits (elem_idx i) (elem_idx j) w 0 (==→ne _ _ e)) (ground arith)
  ]

-- An operation on one bit: it keeps the bitmap well formed and its size, and gives the bit `i` the
-- value `value` and no other bit another one.
pub record Sets (b : Bitmap) (i : ℕ) (value : Bool) (b' : Bitmap) : Type 0 where
  pub valid : IsBitmap b'
  pub size : b'.bit_cnt ≡ b.bit_cnt
  pub bits : (j : ℕ) → view b' j ≡ (if i == j then value else view b j)

module _ {b : Bitmap} (v : IsBitmap b) (i : ℕ) (inside : i < b.bit_cnt) where
  abbrev old : ℕ
  old = get_or b.bits (elem_idx i) 0

  mask-lt : bit_mask i < 2 ^ 32
  mask-lt = pow-lt 32 (i % elem_bits) (omega arith)

  bit-mask : (k : ℕ) → bit (bit_mask i) k ≡ (if i % elem_bits == k then 1 else 0)
  bit-mask k = bit-pow (i % elem_bits) k

  Sets_lem :
      (w : ℕ) (value : Bool)
      → w < 2 ^ 32
      → ((k : ℕ) → k < 32 → (bit w k == 1) ≡ (if i % elem_bits == k then value else bit old k == 1))
      → Sets b i value (update_word b (elem_idx i) w)
  Sets_lem w value fits h = record {
    valid = update-IsBitmap v i w fits inside;
    size = unfold update_word in refl;
    bits = view-update v i w fits inside value h;
  }

  -- bitmap_mark() sets the bit and no other.
  pub bitmap_mark-Sets : Sets b i true (bitmap_mark b i)
  unfolding bitmap_mark
  bitmap_mark-Sets =
      Sets_lem (bit_or old (bit_mask i)) true
        (bit_or-lt 32 old (bit_mask i) (v.words (elem_idx i)) mask-lt)
        (λ k l. ground (arith, bit-bit_or old (bit_mask i) k, bit-mask k, bit-le old k))

  -- bitmap_reset() clears the bit and no other.
  pub bitmap_reset-Sets : Sets b i false (bitmap_reset b i)
  unfolding bitmap_reset
  bitmap_reset-Sets =
      Sets_lem (bit_and old (complement 32 (bit_mask i))) false
        (bit_and-lt 32 old (complement 32 (bit_mask i)) (v.words (elem_idx i)))
        (λ k l. ground (
          arith,
          bit-bit_and old (complement 32 (bit_mask i)) k,
          bit-complement 32 (bit_mask i) k mask-lt l,
          bit-mask k,
          bit-le old k,
        ))

  -- bitmap_flip() toggles the bit and no other.
  pub bitmap_flip-Sets : Sets b i (not (view b i)) (bitmap_flip b i)
  unfolding bitmap_flip view
  bitmap_flip-Sets =
      Sets_lem (bit_xor old (bit_mask i)) (not (bit old (i % elem_bits) == 1))
        (bit_xor-lt 32 old (bit_mask i) (v.words (elem_idx i)) mask-lt)
        (λ k l. ground (arith, bit-bit_xor old (bit_mask i) k, bit-mask k, bit-le old k))

  -- bitmap_set() at an index of the bitmap gives the bit its value and changes no other.
  pub bitmap_set-Sets :
      (value : Bool) → (b' : Bitmap) × (bitmap_set b i value ≡ some b') × Sets b i value b'
  unfolding bitmap_set
  bitmap_set-Sets true = (bitmap_mark b i, ground arith, bitmap_mark-Sets)
  bitmap_set-Sets false = (bitmap_reset b i, ground arith, bitmap_reset-Sets)

  -- bitmap_test() at an index of the bitmap returns the bit.
  pub bitmap_test_lem : bitmap_test b i ≡ some (view b i)
  unfolding bitmap_test view
  bitmap_test_lem = ground (arith, mask_test old (i % elem_bits))

-- Behind the last bit both fail their assertion.
pub bitmap_test_outside :
    (b : Bitmap) (i : ℕ) (value : Bool)
    → b.bit_cnt ≤ i
    → (bitmap_test b i ≡ none) × (bitmap_set b i value ≡ none)
unfolding bitmap_test bitmap_set
bitmap_test_outside b i value h = (ground arith, ground arith)
