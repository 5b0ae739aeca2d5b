-- ===== src/Sort.antt =====
-- lib/stdlib.c: sort(), a heap sort of an array in memory by a comparison of elements.
-- An element is the list of its bytes, at a 1-based index as in the code. What the comparison
-- function does is a parameter, as a function of the two elements; its argument `aux` is part of it.
-- The assertions on null pointers are not modelled, and addresses do not wrap around.
pub mod Build
pub mod Heap
pub mod Heapify
pub mod Order
pub mod Sift
pub mod Tests
pub mod Swap
use turbo_baker.Prelude.{
  ℕ, zero, suc, ◌+◌, ◌-◌, ◌*◌, ◌/◌, ◌%◌, ◌^◌, ◌≤◌, ◌<◌, min, max, ◌≡◌, refl, sym, ap, ◌∙◌, subst,
  fun_ext, ◌≢◌, ◌↔◌, ◌⊎◌, inl, inr, Bool, true, false, not, ◌&&◌, ◌||◌, Option, none, some, List,
  [], ◌∷◌, ◌++◌, map, arith, ltb, leb, ◌==◌, if◌then◌else◌, same_bool, ltb→lt, ltb→ge, leb→le,
  leb→gt, ==→eq, ==→ne, ne→==, ==_refl, tests, Bool-cases, Option-cases, length, get_or, set,
  replicate, length-append, length-set, length-replicate, get_or-set_self, get_or-set_ne, Mem,
  write, within, ◌>>=◌, is_some, true_ne_false, count, count-append,
}
use turbo_baker.Bitmap.{assert}
use turbo_baker.Str.Block.{Cmp, less, equal, greater}

abbrev pub Element : Type 0
Element = List ℕ

unfoldable pub element : Mem → (p size : ℕ) → Element
element m p zero = []
element m p (suc size) = m p ∷ element m (p + 1) size

abbrev pub is_greater : Cmp → Bool
is_greater greater = true
is_greater _ = false

-- The address of an element.
pub slot : (array idx size : ℕ) → ℕ
slot array idx size = array + (idx - 1) * size

swap_loop : Mem → (a b size : ℕ) → Mem
swap_loop m a b zero = m
swap_loop m a b (suc size) = swap_loop (write (write m a (m b)) b (m a)) (a + 1) (b + 1) size

pub do_swap : Mem → (array a_idx b_idx size : ℕ) → Mem
unfolding swap_loop
do_swap m array a_idx b_idx size = swap_loop m (slot array a_idx size) (slot array b_idx size) size

module _ (compare : Element → Element → Cmp) (array size : ℕ) where
  do_compare : Mem → (a_idx b_idx : ℕ) → Cmp
  do_compare m a_idx b_idx =
      compare (element m (slot array a_idx size) size) (element m (slot array b_idx size) size)

  -- The index of the largest element among `i` and its children.
  max_of : Mem → (i cnt : ℕ) → ℕ
  unfolding do_compare
  max_of m i cnt =
      let left = 2 * i % 2 ^ 32 in
      let right = (2 * i + 1) % 2 ^ 32 in
      let max = (if leb left cnt && is_greater (do_compare m left i) then left else i) in
      if leb right cnt && is_greater (do_compare m right max) then right else max

  -- `none` is out of fuel.
  pub heapify : (limit : ℕ) → Mem → (i cnt : ℕ) → Option Mem
  heapify zero m i cnt = none
  heapify (suc limit) m i cnt =
      let max = max_of m i cnt in
      let rest = heapify limit (do_swap m array i max size) max cnt in
      if max == i then some m else rest

  -- The two loops of sort(), with `i` as it is when a round begins.
  pub build_loop : Mem → (i cnt : ℕ) → Option Mem
  build_loop m zero cnt = some m
  build_loop m (suc i) cnt = heapify cnt m (suc i) cnt >>= λ m'. build_loop m' i cnt

  sort_loop : (cnt : ℕ) → Mem → (i : ℕ) → Option Mem
  sort_loop cnt m zero = some m
  sort_loop cnt m (suc i) =
      if leb (suc i) 1
      then some m
      else (heapify cnt (do_swap m array 1 (suc i) size) 1 i >>= λ m'. sort_loop cnt m' i)

  pub sort : Mem → (cnt : ℕ) → Option Mem
  unfolding build_loop sort_loop
  sort m cnt = assert (ltb 0 size) (build_loop m (cnt / 2) cnt >>= λ m'. sort_loop cnt m' cnt)
