-- ===== src/Str/Copy.antt =====
-- lib/string.c: strlcpy() and strlcat(), the bounded copies.
use turbo_baker.Prelude.{
  ℕ, zero, suc, ◌+◌, ◌-◌, ◌≤◌, ◌<◌, min, ◌≡◌, refl, sym, ◌∙◌, ◌⊎◌, inl, inr, false, ◌&&◌, Option,
  some, arith, ltb, if◌then◌else◌, ltb→lt, ltb→ge, Bool-cases, Mem, write, within, ◌>>=◌,
}
use turbo_baker.Str.Block.{memcpy, memcpy_lem}
use turbo_baker.Str.Scan.{IsStr, strlen, strlen_lem}

pub strlcpy : ℕ → Mem → (dst src size : ℕ) → Option (ℕ × Mem)
strlcpy limit m dst src size = strlen limit m src >>= λ src_len.
    let dst_len = (if ltb src_len (size - 1) then src_len else size - 1) in
    if ltb 0 size
    then some (src_len, write (memcpy m dst src dst_len).1 (dst + dst_len) 0)
    else some (src_len, m)

pub strlcat : ℕ → Mem → (dst src size : ℕ) → Option (ℕ × Mem)
strlcat limit m dst src size = strlen limit m src >>= λ src_len. strlen limit m dst >>= λ dst_len.
    let room = size - dst_len - 1 in
    let copy_cnt = (if ltb src_len room then src_len else room) in
    if ltb 0 size && ltb dst_len size
    then some (
      src_len + dst_len,
      write (memcpy m (dst + dst_len) src copy_cnt).1 (dst + dst_len + copy_cnt) 0,
    )
    else some (src_len + dst_len, m)

-- What a bounded copy leaves in memory: `n` bytes of `src` at `dst`, a terminator behind them, and
-- every other byte as it was.
pub record Copied (m : Mem) (dst src n : ℕ) (m' : Mem) : Type 0 where
  pub copied : (i : ℕ) → i < n → m' (dst + i) ≡ m (src + i)
  pub ended : m' (dst + n) ≡ 0
  pub same : (a : ℕ) → within dst (n + 1) a ≡ false → m' a ≡ m a

Copied_lem :
    (m : Mem) (dst src n : ℕ)
    → (dst ≤ src) ⊎ (src + n ≤ dst)
    → Copied m dst src n (write (memcpy m dst src n).1 (dst + n) 0)
Copied_lem m dst src n h = record {
  copied = λ i l. ground (arith, memcpy_lem m dst src n (dst + i));
  ended = ground arith;
  same = λ a o. ground (arith, memcpy_lem m dst src n a);
}

Copied-IsStr :
    {m m' : Mem} {dst src n k : ℕ} → IsStr m src k → n ≤ k → Copied m dst src n m' → IsStr m' dst n
Copied-IsStr s h c = record {
  body = λ i l e. s.body i (omega arith) (sym (c.copied i l) ∙ e);
  ends = c.ended;
}

shorter : (a b : ℕ) → (if ltb a b then a else b) ≡ min a b
shorter a b = ground arith

-- strlcpy() of a string of `n` characters into a buffer of `size` bytes that do not overlap it
-- returns `n`; if `size` is positive the buffer then holds a string, the first min(n, size - 1)
-- characters of the source, and nothing behind it is written; if `size` is 0 nothing is.
pub strlcpy_lem :
    (limit : ℕ) {m : Mem} {src n : ℕ} (dst size : ℕ)
    → IsStr m src n
    → n < limit
    → (dst + size ≤ src) ⊎ (src + n < dst)
    → (m' : Mem) × (strlcpy limit m dst src size ≡ some (n, m'))
      × ((0 < size) → IsStr m' dst (min n (size - 1)) × Copied m dst src (min n (size - 1)) m')
      × ((size ≡ 0) → m' ≡ m)
unfolding strlcpy
strlcpy_lem limit {m} {src} {n} dst zero s l apart =
    (m, rw (strlen_lem limit s l) refl, λ h. absurd (omega arith), λ h. refl)
strlcpy_lem limit {m} {src} {n} dst (suc size) s l apart =
    let c = Copied_lem m dst src (min n (suc size - 1)) (omega arith) in
    (
      write (memcpy m dst src (min n (suc size - 1))).1 (dst + min n (suc size - 1)) 0,
      rw (strlen_lem limit s l, shorter n (suc size - 1)) (ground arith),
      λ h. (Copied-IsStr s (omega arith) c, c),
      λ h. absurd (omega arith),
    )

Appended-IsStr :
    {m m' : Mem} {dst d src n k : ℕ}
    → IsStr m dst d
    → IsStr m src n
    → k ≤ n
    → Copied m (dst + d) src k m'
    → IsStr m' dst (d + k)
Appended-IsStr {m} {m'} {dst} {d} {src} {k} s t l c = record {
  body = λ i h e. elim (Bool-cases (ltb i d)) [
    | inl old ↦
        s.body i (ltb→lt i d old) (sym (c.same (dst + i) (ground (arith, ltb→lt i d old))) ∙ e)
    | inr new ↦
        t.body (i - d) (omega (arith, ltb→ge i d new))
          (ground (arith, c.copied (i - d), ltb→ge i d new))
  ];
  ends = ground (arith, c.ended);
}

-- strlcat() of a string of `n` characters to one of `d` in a buffer of `size` bytes that does not
-- overlap the source returns `n + d`. If the buffer holds the old string and its terminator, it
-- then holds a string of d + min(n, size - d - 1) characters: those it had, and the first of
-- the source; no byte before them or behind is changed. If it does not, nothing is written.
pub strlcat_lem :
    (limit : ℕ) {m : Mem} {dst d src n : ℕ} (size : ℕ)
    → IsStr m dst d
    → IsStr m src n
    → d < limit
    → n < limit
    → (dst + size ≤ src) ⊎ (src + n < dst)
    → (m' : Mem) × (strlcat limit m dst src size ≡ some (n + d, m'))
      × ((d < size)
          → IsStr m' dst (d + min n (size - d - 1))
            × Copied m (dst + d) src (min n (size - d - 1)) m')
      × ((size ≤ d) → m' ≡ m)
unfolding strlcat
strlcat_lem limit {m} {dst} {d} {src} {n} size s t h l apart = elim (Bool-cases (ltb d size)) [
  | inl fits ↦
      let k = min n (size - d - 1) in
      let at = dst + d in
      let c = Copied_lem m at src k (omega (arith, ltb→lt d size fits)) in
      (
        write (memcpy m at src k).1 (at + k) 0,
        rw (strlen_lem limit t l, strlen_lem limit s h, shorter n (size - d - 1)) (ground arith),
        λ q. (Appended-IsStr s t (omega arith) c, c),
        λ q. absurd (omega (arith, ltb→lt d size fits)),
      )
  | inr full ↦ (
    m,
    rw (strlen_lem limit t l, strlen_lem limit s h, full) (ground arith),
    λ q. absurd (omega (arith, ltb→ge d size full)),
    λ q. refl,
  )
]
