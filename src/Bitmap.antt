-- ===== src/Bitmap.antt =====
-- lib/kernel/bitmap.c: an array of bits in words of 32 bits. `none` is a failed assertion.
pub mod Bits
pub mod Range
pub mod Scan
pub mod Tests
use turbo_baker.Prelude.{
  ℕ, zero, suc, ◌+◌, ◌-◌, ◌*◌, ◌/◌, ◌%◌, ◌^◌, ◌≤◌, ◌<◌, min, max, ◌≡◌, refl, sym, ap, ◌∙◌, subst,
  fun_ext, ◌≢◌, ◌↔◌, ◌⊎◌, inl, inr, Bool, true, false, not, ◌&&◌, ◌||◌, Option, none, some, List,
  [], ◌∷◌, ◌++◌, map, arith, ltb, leb, ◌==◌, if◌then◌else◌, same_bool, ltb→lt, ltb→ge, leb→le,
  leb→gt, ==→eq, ==→ne, ne→==, ==_refl, tests, Bool-cases, Option-cases, length, get_or, set,
  replicate, length-append, length-set, length-replicate, get_or-set_self, get_or-set_ne, Mem,
  write, within, ◌>>=◌, is_some,
}
use Prim.Native.Nat.{bit_and, bit_or, bit_xor}
use turbo_baker.Prelude.Bits.{complement}

abbrev pub elem_bits : ℕ
elem_bits = 32

-- `size_t` addition.
abbrev pub size_add : ℕ → ℕ → ℕ
size_add a b = (a + b) % 2 ^ 32

-- `BITMAP_ERROR`, which is `SIZE_MAX`.
abbrev pub bitmap_error : ℕ
bitmap_error = 2 ^ 32 - 1

pub record Bitmap : Type 0 where
  pub bit_cnt : ℕ
  pub bits : List ℕ

abbrev pub elem_idx : ℕ → ℕ
elem_idx bit_idx = bit_idx / elem_bits

abbrev pub bit_mask : ℕ → ℕ
bit_mask bit_idx = 2 ^ (bit_idx % elem_bits)

abbrev pub elem_cnt : ℕ → ℕ
elem_cnt bit_cnt = (bit_cnt + elem_bits - 1) / elem_bits

abbrev pub byte_cnt : ℕ → ℕ
byte_cnt bit_cnt = 4 * elem_cnt bit_cnt

-- `assert b m` is `m` behind `ASSERT (b)`.
abbrev pub assert {ℓ} : {A : Type ℓ} → Bool → Option A → Option A
assert true m = m
assert false m = none

-- The word that holds a bit, given anew.
unfoldable pub update_word : Bitmap → ℕ → ℕ → Bitmap
update_word b idx w = record b { bits = set b.bits idx w }

unfoldable pub word : Bitmap → ℕ → ℕ
word b idx = get_or b.bits idx 0

unfoldable pub bitmap_mark : Bitmap → ℕ → Bitmap
unfolding update_word word
bitmap_mark b bit_idx =
    update_word b (elem_idx bit_idx) (bit_or (word b (elem_idx bit_idx)) (bit_mask bit_idx))

pub bitmap_reset : Bitmap → ℕ → Bitmap
unfolding update_word word
bitmap_reset b bit_idx =
    update_word b (elem_idx bit_idx)
      (bit_and (word b (elem_idx bit_idx)) (complement 32 (bit_mask bit_idx)))

pub bitmap_flip : Bitmap → ℕ → Bitmap
unfolding update_word word
bitmap_flip b bit_idx =
    update_word b (elem_idx bit_idx) (bit_xor (word b (elem_idx bit_idx)) (bit_mask bit_idx))

unfoldable pub bitmap_set : Bitmap → ℕ → Bool → Option Bitmap
unfolding bitmap_mark bitmap_reset
bitmap_set b idx value =
    assert (ltb idx b.bit_cnt) (some (if value then bitmap_mark b idx else bitmap_reset b idx))

unfoldable pub bitmap_test : Bitmap → ℕ → Option Bool
unfolding word
bitmap_test b idx =
    assert (ltb idx b.bit_cnt) (some (not (bit_and (word b (elem_idx idx)) (bit_mask idx) == 0)))

-- The assertions on a range, and its loops: each is at bit `at` with `cnt` rounds to go.
unfoldable pub in_range : Bitmap → ℕ → ℕ → Bool
in_range b start cnt = leb start b.bit_cnt && leb (size_add start cnt) b.bit_cnt

unfoldable pub set_loop : Bitmap → ℕ → ℕ → Bool → Option Bitmap
set_loop b at zero value = some b
set_loop b at (suc cnt) value =
    bitmap_set b at value >>= λ b'. set_loop b' (size_add at 1) cnt value

unfoldable pub bitmap_set_multiple : Bitmap → ℕ → ℕ → Bool → Option Bitmap
unfolding in_range set_loop
bitmap_set_multiple b start cnt value = assert (in_range b start cnt) (set_loop b start cnt value)

unfoldable pub bitmap_set_all : Bitmap → Bool → Option Bitmap
unfolding bitmap_set_multiple
bitmap_set_all b value = bitmap_set_multiple b 0 b.bit_cnt value

count_loop : Bitmap → ℕ → ℕ → Bool → ℕ → Option ℕ
count_loop b at zero value value_cnt = some value_cnt
count_loop b at (suc cnt) value value_cnt = bitmap_test b at >>= λ t.
    count_loop b (size_add at 1) cnt value (if same_bool t value then value_cnt + 1 else value_cnt)

pub bitmap_count : Bitmap → ℕ → ℕ → Bool → Option ℕ
unfolding in_range count_loop
bitmap_count b start cnt value = assert (in_range b start cnt) (count_loop b start cnt value 0)

unfoldable pub contains_loop : Bitmap → ℕ → ℕ → Bool → Option Bool
contains_loop b at zero value = some false
contains_loop b at (suc cnt) value =
    let rest = contains_loop b (size_add at 1) cnt value in
    bitmap_test b at >>= λ t. if same_bool t value then some true else rest

unfoldable pub bitmap_contains : Bitmap → ℕ → ℕ → Bool → Option Bool
unfolding in_range contains_loop
bitmap_contains b start cnt value = assert (in_range b start cnt) (contains_loop b start cnt value)

pub bitmap_any : Bitmap → ℕ → ℕ → Option Bool
unfolding bitmap_contains
bitmap_any b start cnt = bitmap_contains b start cnt true

pub bitmap_none : Bitmap → ℕ → ℕ → Option Bool
unfolding bitmap_contains
bitmap_none b start cnt = bitmap_contains b start cnt true >>= λ t. some (not t)

unfoldable pub bitmap_all : Bitmap → ℕ → ℕ → Option Bool
unfolding bitmap_contains
bitmap_all b start cnt = bitmap_contains b start cnt false >>= λ t. some (not t)

-- `for (i = start; i <= last; i++)`, with `rounds` of the values of `i` to go.
unfoldable pub scan_loop : Bitmap → (i rounds cnt : ℕ) → Bool → Option ℕ
scan_loop b i zero cnt value = some bitmap_error
scan_loop b i (suc rounds) cnt value =
    let rest = scan_loop b (size_add i 1) rounds cnt value in
    bitmap_contains b i cnt (not value) >>= λ t. if not t then some i else rest

unfoldable pub bitmap_scan : Bitmap → (start cnt : ℕ) → Bool → Option ℕ
unfolding scan_loop
bitmap_scan b start cnt value = assert (leb start b.bit_cnt) (
    if leb cnt b.bit_cnt
    then scan_loop b start (b.bit_cnt - cnt + 1 - start) cnt value
    else some bitmap_error)

-- The index that is returned, and the bitmap.
unfoldable pub bitmap_scan_and_flip : Bitmap → (start cnt : ℕ) → Bool → Option (ℕ × Bitmap)
unfolding bitmap_scan bitmap_set_multiple
bitmap_scan_and_flip b start cnt value = bitmap_scan b start cnt value >>= λ idx.
    if not (idx == bitmap_error)
    then (bitmap_set_multiple b idx cnt (not value) >>= λ b'. some (idx, b'))
    else some (idx, b)

-- The bitmap's struct has two words of 4 bytes.
abbrev pub bitmap_buf_size : ℕ → ℕ
bitmap_buf_size bit_cnt = 8 + byte_cnt bit_cnt

-- bitmap_create_in_buf() in a block of `block_size` bytes whose `elem_cnt bit_cnt` words behind the
-- struct have any contents.
unfoldable pub bitmap_create_in_buf : (bit_cnt block_size : ℕ) → List ℕ → Option Bitmap
unfolding bitmap_set_all
bitmap_create_in_buf bit_cnt block_size storage =
    assert (leb (bitmap_buf_size bit_cnt) block_size)
      (bitmap_set_all (record { bit_cnt = bit_cnt; bits = storage }) false)
