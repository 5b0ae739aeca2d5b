-- ===== src/Sort/Swap.antt =====
-- lib/stdlib.c: do_swap() on the elements of an array.
use turbo_baker.Prelude.{
  ℕ, zero, suc, ◌+◌, ◌-◌, ◌*◌, ◌≤◌, ◌<◌, ◌≡◌, refl, ap, ◌∙◌, subst, ◌≢◌, ◌⊎◌, inl, inr, false,
  arith, ltb, ◌==◌, if◌then◌else◌, ltb→lt, ltb→ge, ==→eq, ==→ne, Bool-cases, Mem, write, within,
}
use turbo_baker.Sort.{Element, element, slot, swap_loop, do_swap}

abbrev Apart : (a b size : ℕ) → Type 0
Apart a b size = (a + size ≤ b) ⊎ (b + size ≤ a)

abbrev one_swapped : Mem → (a b : ℕ) → Mem
one_swapped m a b = write (write m a (m b)) b (m a)

Apart-suc : (a b size : ℕ) → Apart a b (suc size) → Apart (a + 1) (b + 1) size
Apart-suc a b size h = omega arith

swap_loop_other :
    (m : Mem) (a b size x : ℕ)
    → within a size x ≡ false
    → within b size x ≡ false
    → swap_loop m a b size x ≡ m x
unfolding swap_loop
swap_loop_other m a b zero x h k = refl
swap_loop_other m a b (suc size) x h k =
    swap_loop_other (one_swapped m a b) (a + 1) (b + 1) size x (ground arith) (ground arith)
    ∙ ground arith

swap_loop_left :
    (m : Mem) (a b size k : ℕ)
    → Apart a b size
    → k < size
    → swap_loop m a b size (a + k) ≡ m (b + k)
unfolding swap_loop
swap_loop_left m a b zero k h l = absurd (omega arith)
swap_loop_left m a b (suc size) k h l = elim (Bool-cases (k == 0)) [
  | inl e ↦
      let z = ==→eq k 0 e in
      swap_loop_other (one_swapped m a b) (a + 1) (b + 1) size (a + k) (ground (arith, z))
        (ground (arith, z))
      ∙ ground (arith, z)
  | inr e ↦
      let ne = ==→ne k 0 e in
      subst (λ x. swap_loop (one_swapped m a b) (a + 1) (b + 1) size x ≡ m (b + k))
        (omega (arith, ne))
        (swap_loop_left (one_swapped m a b) (a + 1) (b + 1) size (k - 1) (Apart-suc a b size h)
            (omega (arith, ne))
          ∙ ground (arith, ne))
]

swap_loop_right :
    (m : Mem) (a b size k : ℕ)
    → Apart a b size
    → k < size
    → swap_loop m a b size (b + k) ≡ m (a + k)
unfolding swap_loop
swap_loop_right m a b zero k h l = absurd (omega arith)
swap_loop_right m a b (suc size) k h l = elim (Bool-cases (k == 0)) [
  | inl e ↦
      let z = ==→eq k 0 e in
      swap_loop_other (one_swapped m a b) (a + 1) (b + 1) size (b + k) (ground (arith, z))
        (ground (arith, z))
      ∙ ground (arith, z)
  | inr e ↦
      let ne = ==→ne k 0 e in
      subst (λ x. swap_loop (one_swapped m a b) (a + 1) (b + 1) size x ≡ m (a + k))
        (omega (arith, ne))
        (swap_loop_right (one_swapped m a b) (a + 1) (b + 1) size (k - 1) (Apart-suc a b size h)
            (omega (arith, ne))
          ∙ ground (arith, ne))
]

element-ext :
    (m m' : Mem) (p q size : ℕ)
    → ((k : ℕ) → k < size → m (p + k) ≡ m' (q + k))
    → element m p size ≡ element m' q size
unfolding element
element-ext m m' p q zero h = refl
element-ext m m' p q (suc size) h = rw (first, element-ext m m' (p + 1) (q + 1) size rest) refl
  where
    first : m p ≡ m' q
    first = ap m (omega arith) ∙ h 0 (omega arith) ∙ ap m' (omega arith)

    rest : (k : ℕ) → k < size → m (p + 1 + k) ≡ m' (q + 1 + k)
    rest k l =
        subst (λ x. m x ≡ m' (q + 1 + k)) (omega arith)
          (subst (λ x. m (p + suc k) ≡ m' x) (omega arith) (h (suc k) (omega arith)))

pub mul_apart : (i j size : ℕ) → i < j → i * size + size ≤ j * size
mul_apart i j zero h = omega arith
mul_apart i j (suc size) h = omega (arith, mul_apart i j size h)

slot-apart :
    (array i j size : ℕ)
    → 0 < i
    → 0 < j
    → i ≢ j
    → (slot array i size + size ≤ slot array j size)
      ⊎ (slot array j size + size ≤ slot array i size)
unfolding slot
slot-apart array i j size p q ne = elim (Bool-cases (ltb i j)) [
  | inl l ↦ inl (omega (arith, mul_apart (i - 1) (j - 1) size (omega (arith, ltb→lt i j l))))
  | inr g ↦ inr (omega (arith, mul_apart (j - 1) (i - 1) size (omega (arith, ltb→ge i j g))))
]

-- The element at an index of the array.
abbrev pub view : Mem → (array size : ℕ) → ℕ → Element
view m array size i = element m (slot array i size) size

-- `w` is `v` with the values at `a` and `b` exchanged.
abbrev pub Exchanged : (ℕ → Element) → (a b : ℕ) → (ℕ → Element) → Type 0
Exchanged v a b w = (i : ℕ) → 0 < i → w i ≡ (if i == a then v b else if i == b then v a else v i)

do_swap-away :
    (m : Mem) (array a b size i : ℕ)
    → 0 < a
    → 0 < b
    → 0 < i
    → i ≢ a
    → i ≢ b
    → view (do_swap m array a b size) array size i ≡ view m array size i
unfolding do_swap
do_swap-away m array a b size i pa pb pi na nb =
    let p = slot-apart array i a size pi pa na in
    let q = slot-apart array i b size pi pb nb in
    element-ext _ m (slot array i size) (slot array i size) size (λ k l.
      swap_loop_other m (slot array a size) (slot array b size) size (slot array i size + k)
        (ground (arith, p)) (ground (arith, q)))

pub do_swap-Exchanged :
    (m : Mem) (array a b size : ℕ)
    → 0 < a
    → 0 < b
    → a ≢ b
    → Exchanged (view m array size) a b (view (do_swap m array a b size) array size)
unfolding do_swap
do_swap-Exchanged m array a b size pa pb ne i pi =
    let apart = slot-apart array a b size pa pb ne in
    elim (Bool-cases (i == a)) [
      | inl e ↦ rw e rw (==→eq i a e) (
          element-ext _ m (slot array a size) (slot array b size) size
            (λ k l. swap_loop_left m (slot array a size) (slot array b size) size k apart l))
      | inr e ↦ elim (Bool-cases (i == b)) [
        | inl f ↦ rw e rw f rw (==→eq i b f) (
            element-ext _ m (slot array b size) (slot array a size) size
              (λ k l. swap_loop_right m (slot array a size) (slot array b size) size k apart l))
        | inr f ↦ rw e rw f (do_swap-away m array a b size i pa pb pi (==→ne i a e) (==→ne i b f))
      ]
    ]

-- What lies outside the first `n` elements stays as it is.
pub do_swap-outside :
    (m : Mem) (array a b size n y : ℕ)
    → 0 < a
    → a ≤ n
    → 0 < b
    → b ≤ n
    → within array (n * size) y ≡ false
    → do_swap m array a b size y ≡ m y
unfolding do_swap slot
do_swap-outside m array a b size n y pa la pb lb out =
    let ea = mul_apart (a - 1) n size (omega arith) in
    let eb = mul_apart (b - 1) n size (omega arith) in
    swap_loop_other m (slot array a size) (slot array b size) size y (ground (arith, ea))
      (ground (arith, eb))
