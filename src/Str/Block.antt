-- ===== src/Str/Block.antt =====
-- The routines of lib/string.c on blocks of bytes: memcpy, memmove, memset, memcmp and memchr.
-- A pointer is its address. Each routine that writes returns the pointer that the code returns
-- beside the new memory.
use turbo_baker.Prelude.{
  ℕ, zero, suc, ◌+◌, ◌-◌, ◌%◌, ◌≤◌, ◌<◌, ◌≡◌, ◌≢◌, ◌⊎◌, inl, inr, Option, none, some, arith, ltb,
  ◌==◌, if◌then◌else◌, ==→eq, ==→ne, Bool-cases, Mem, write, within,
}

-- `while (size-- > 0) *dst++ = *src++;`, and where `dst` points at its end.
copy_up : Mem → ℕ → ℕ → ℕ → ℕ × Mem
copy_up m dst src zero = (dst, m)
copy_up m dst src (suc size) = copy_up (write m dst (m src)) (dst + 1) (src + 1) size

-- `while (size-- > 0) *--dst = *--src;`
copy_down : Mem → ℕ → ℕ → ℕ → ℕ × Mem
copy_down m dst src zero = (dst, m)
copy_down m dst src (suc size) =
    copy_down (write m (dst - 1) (m (src - 1))) (dst - 1) (src - 1) size

pub memcpy : Mem → ℕ → ℕ → ℕ → ℕ × Mem
unfolding copy_up
memcpy m dst src size = (dst, (copy_up m dst src size).1)

pub memmove : Mem → ℕ → ℕ → ℕ → ℕ × Mem
unfolding copy_up copy_down
memmove m dst src size =
    if ltb dst src then copy_up m dst src size else copy_down m (dst + size) (src + size) size

fill : Mem → ℕ → ℕ → ℕ → Mem
fill m dst value zero = m
fill m dst value (suc size) = fill (write m dst (value % 256)) (dst + 1) value size

pub memset : Mem → ℕ → ℕ → ℕ → ℕ × Mem
unfolding fill
memset m dst value size = (dst, fill m dst value size)

-- A strcmp()-type result: -1, 0 or +1.
pub data Cmp : Type 0 where
  less equal greater : Cmp

pub memcmp : Mem → ℕ → ℕ → ℕ → Cmp
memcmp m a b zero = equal
memcmp m a b (suc size) =
    let rest = memcmp m (a + 1) (b + 1) size in
    if m a == m b then rest else if ltb (m b) (m a) then greater else less

-- `none` is the null pointer.
pub memchr : Mem → ℕ → ℕ → ℕ → Option ℕ
memchr m block ch zero = none
memchr m block ch (suc size) =
    let rest = memchr m (block + 1) ch size in if m block == ch % 256 then some block else rest

copy_up_lem :
    (m : Mem) (dst src size a : ℕ)
    → (dst ≤ src) ⊎ (src + size ≤ dst)
    → (copy_up m dst src size).1 a ≡ (if within dst size a then m (src + (a - dst)) else m a)
unfolding copy_up
copy_up_lem m dst src zero a h = ground arith
copy_up_lem m dst src (suc size) a h =
    ground (arith, copy_up_lem (write m dst (m src)) (dst + 1) (src + 1) size a)

copy_up_end : (m : Mem) (dst src size : ℕ) → (copy_up m dst src size).0 ≡ dst + size
unfolding copy_up
copy_up_end m dst src zero = omega arith
copy_up_end m dst src (suc size) =
    omega (arith, copy_up_end (write m dst (m src)) (dst + 1) (src + 1) size)

copy_down_lem :
    (m : Mem) (dst src size d s a : ℕ)
    → src ≤ dst
    → d ≡ dst + size
    → s ≡ src + size
    → (copy_down m d s size).1 a ≡ (if within dst size a then m (src + (a - dst)) else m a)
unfolding copy_down
copy_down_lem m dst src zero d s a h p q = ground arith
copy_down_lem m dst src (suc size) d s a h p q =
    ground (arith, copy_down_lem (write m (d - 1) (m (s - 1))) dst src size (d - 1) (s - 1) a)

copy_down_end : (m : Mem) (dst size d s : ℕ) → d ≡ dst + size → (copy_down m d s size).0 ≡ dst
unfolding copy_down
copy_down_end m dst zero d s p = omega arith
copy_down_end m dst (suc size) d s p =
    copy_down_end (write m (d - 1) (m (s - 1))) dst size (d - 1) (s - 1) (omega arith)

-- memcpy() leaves at `dst` the bytes that were at `src`, and every other byte as it was, if the
-- source does not begin inside the bytes below the destination's end that are already written:
-- `dst` is at or below `src`, or the source ends at or below `dst`.
pub memcpy_lem :
    (m : Mem) (dst src size a : ℕ)
    → (dst ≤ src) ⊎ (src + size ≤ dst)
    → (memcpy m dst src size).1 a ≡ (if within dst size a then m (src + (a - dst)) else m a)
unfolding memcpy
memcpy_lem m dst src size a h = copy_up_lem m dst src size a h

-- memmove() leaves at `dst` the bytes that were at `src`, and every other byte as it was, however
-- the two blocks overlap.
pub memmove_lem :
    (m : Mem) (dst src size a : ℕ)
    → (memmove m dst src size).1 a ≡ (if within dst size a then m (src + (a - dst)) else m a)
unfolding memmove
memmove_lem m dst src size a =
    ground (
      arith,
      copy_up_lem m dst src size a,
      copy_down_lem m dst src size (dst + size) (src + size) a,
    )

-- The pointer that memmove() returns is `dst` only where the destination is not below the source:
-- else it is the end of the destination.
pub memmove_pointer :
    (m : Mem) (dst src size : ℕ)
    → (memmove m dst src size).0 ≡ (if ltb dst src then dst + size else dst)
unfolding memmove
memmove_pointer m dst src size =
    ground (arith, copy_up_end m dst src size, copy_down_end m dst size (dst + size) (src + size))

fill_lem :
    (m : Mem) (dst value size a : ℕ)
    → fill m dst value size a ≡ (if within dst size a then value % 256 else m a)
unfolding fill
fill_lem m dst value zero a = ground arith
fill_lem m dst value (suc size) a =
    ground (arith, fill_lem (write m dst (value % 256)) (dst + 1) value size a)

pub memset_lem :
    (m : Mem) (dst value size a : ℕ)
    → (memset m dst value size).1 a ≡ (if within dst size a then value % 256 else m a)
unfolding memset
memset_lem m dst value size a = fill_lem m dst value size a

-- The first `n` bytes of the blocks agree.
abbrev pub Agree : Mem → ℕ → ℕ → ℕ → Type 0
Agree m a b n = (i : ℕ) → i < n → m (a + i) ≡ m (b + i)

-- What a result of memcmp() says of the two blocks.
abbrev pub Compares : Mem → ℕ → ℕ → ℕ → Cmp → Type 0
Compares m a b size equal = Agree m a b size
Compares m a b size greater = (i : ℕ) × (i < size) × Agree m a b i × (m (b + i) < m (a + i))
Compares m a b size less = (i : ℕ) × (i < size) × Agree m a b i × (m (a + i) < m (b + i))

pub Agree-suc : (m : Mem) (a b n : ℕ) → m a ≡ m b → Agree m (a + 1) (b + 1) n → Agree m a b (suc n)
Agree-suc m a b n e h zero l = ground arith
Agree-suc m a b n e h (suc i) l = ground (arith, h i)

Compares-suc :
    (m : Mem) (a b n : ℕ) (r : Cmp)
    → m a ≡ m b
    → Compares m (a + 1) (b + 1) n r
    → Compares m a b (suc n) r
Compares-suc m a b n equal e h = Agree-suc m a b n e h
Compares-suc m a b n greater e (i, l, h, d) =
    (suc i, omega arith, Agree-suc m a b i e h, ground arith)
Compares-suc m a b n less e (i, l, h, d) = (suc i, omega arith, Agree-suc m a b i e h, ground arith)

-- memcmp() returns 0 only if the blocks agree on all `size` bytes, and otherwise +1 or -1 by the
-- first byte in which they differ.
pub memcmp_lem : (m : Mem) (a b size : ℕ) → Compares m a b size (memcmp m a b size)
unfolding memcmp
memcmp_lem m a b zero = λ i h. absurd (omega arith)
memcmp_lem m a b (suc size) = elim (Bool-cases (m a == m b)) [
  | inl e ↦ rw e (
      Compares-suc m a b size (memcmp m (a + 1) (b + 1) size) (==→eq (m a) (m b) e)
        (memcmp_lem m (a + 1) (b + 1) size))
  | inr e ↦ rw e (elim (Bool-cases (ltb (m b) (m a))) [
    | inl l ↦ rw l (0, omega arith, λ i h. absurd (omega arith), ground arith)
    | inr l ↦ rw l (0, omega arith, λ i h. absurd (omega arith), ground arith)
  ])
]

-- What a result of memchr() says of the block.
abbrev pub Finds : Mem → ℕ → ℕ → ℕ → Option ℕ → Type 0
Finds m block c size none = (i : ℕ) → i < size → m (block + i) ≢ c
Finds m block c size (some p) =
    (i : ℕ) × (i < size) × (p ≡ block + i) × (m p ≡ c) × ((j : ℕ) → j < i → m (block + j) ≢ c)

pub avoid-suc :
    (m : Mem) (p c n : ℕ)
    → m p ≢ c
    → ((i : ℕ) → i < n → m (p + 1 + i) ≢ c)
    → (i : ℕ) → i < suc n
    → m (p + i) ≢ c
avoid-suc m p c n e h zero l = ground arith
avoid-suc m p c n e h (suc i) l = ground (arith, h i)

pub Finds-suc :
    (m : Mem) (p c n : ℕ) (r : Option ℕ) → m p ≢ c → Finds m (p + 1) c n r → Finds m p c (suc n) r
Finds-suc m p c n none e h = avoid-suc m p c n e h
Finds-suc m p c n (some q) e (i, l, at, hit, h) =
    (suc i, omega arith, omega arith, hit, avoid-suc m p c i e h)

-- memchr() returns the first of the `size` bytes that equals `ch` as an unsigned char, and the
-- null pointer only if there is none.
pub memchr_lem :
    (m : Mem) (block ch size : ℕ) → Finds m block (ch % 256) size (memchr m block ch size)
unfolding memchr
memchr_lem m block ch zero = λ i h. absurd (omega arith)
memchr_lem m block ch (suc size) = elim (Bool-cases (m block == ch % 256)) [
  | inl e ↦ rw e (0, omega arith, omega arith, ==→eq _ _ e, λ i h. absurd (omega arith))
  | inr e ↦ rw e (
      Finds-suc m block (ch % 256) size (memchr m (block + 1) ch size) (==→ne _ _ e)
        (memchr_lem m (block + 1) ch size))
]
