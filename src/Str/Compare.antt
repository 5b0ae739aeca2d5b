-- ===== src/Str/Compare.antt =====
-- What strcmp() of lib/string.c returns.
use turbo_baker.Prelude.{
  ℕ, zero, suc, ◌+◌, ◌<◌, ◌≡◌, refl, inl, inr, false, not, ◌&&◌, Option, some, arith, ltb, ◌==◌,
  if◌then◌else◌, Bool-cases, Mem,
}
use turbo_baker.Str.Block.{Cmp, less, equal, greater, Agree, Agree-suc}
use turbo_baker.Str.Scan.{IsStr, IsStr-tail, IsStr-nil, strcmp}

-- A result of strcmp(): the strings are equal, or the first position in which they differ decides.
abbrev pub Orders : Mem → ℕ → ℕ → Cmp → Type 0
Orders m a b equal = (i : ℕ) × Agree m a b i × (m (a + i) ≡ 0) × (m (b + i) ≡ 0)
Orders m a b less = (i : ℕ) × Agree m a b i × (m (a + i) < m (b + i))
Orders m a b greater = (i : ℕ) × Agree m a b i × (m (b + i) < m (a + i))

Orders-suc : (m : Mem) (a b : ℕ) (r : Cmp) → m a ≡ m b → Orders m (a + 1) (b + 1) r → Orders m a b r
Orders-suc m a b equal e (i, h, p, q) = (suc i, Agree-suc m a b i e h, ground arith, ground arith)
Orders-suc m a b less e (i, h, p) = (suc i, Agree-suc m a b i e h, ground arith)
Orders-suc m a b greater e (i, h, p) = (suc i, Agree-suc m a b i e h, ground arith)

record Ordered (m : Mem) (a b : ℕ) (out : Option Cmp) : Type 0 where
  result : Cmp
  returned : out ≡ some result
  order : Orders m a b result

Ordered-here :
    (m : Mem) (a b : ℕ)
    → (not (m a == 0) && m a == m b) ≡ false
    → Ordered m a b
        (some (if ltb (m a) (m b) then less else if ltb (m b) (m a) then greater else equal))
Ordered-here m a b e = elim (Bool-cases (ltb (m a) (m b))) [
  | inl l ↦ rw l (record {
    result = less;
    returned = refl;
    order = (0, λ i h. absurd (omega arith), ground arith);
  })
  | inr l ↦ rw l (elim (Bool-cases (ltb (m b) (m a))) [
    | inl g ↦ rw g (record {
      result = greater;
      returned = refl;
      order = (0, λ i h. absurd (omega arith), ground arith);
    })
    | inr g ↦ rw g (record {
      result = equal;
      returned = refl;
      order = (0, λ i h. absurd (omega arith), ground arith, ground arith);
    })
  ])
]

Ordered-suc :
    {m : Mem} {a b : ℕ} {out : Option Cmp}
    → m a ≡ m b
    → Ordered m (a + 1) (b + 1) out
    → Ordered m a b out
Ordered-suc {m} {a} {b} e o = record {
  result = o.result;
  returned = o.returned;
  order = Orders-suc m a b o.result e o.order;
}

strcmp-Ordered :
    (k : ℕ) {m : Mem} {a n : ℕ} (b : ℕ) → IsStr m a n → n < k → Ordered m a b (strcmp k m a b)
unfolding strcmp
strcmp-Ordered zero b s l = absurd (omega arith)
strcmp-Ordered (suc k) {m} {a} {n = zero} b s l =
    let e : (not (m a == 0) && m a == m b) ≡ false = ground (arith, IsStr-nil s) in
    rw e (Ordered-here m a b e)
strcmp-Ordered (suc k) {m} {a} {n = suc n} b s l =
    elim (Bool-cases (not (m a == 0) && m a == m b)) [
      | inl e ↦
          rw e (Ordered-suc (ground arith) (strcmp-Ordered k (b + 1) (IsStr-tail s) (omega arith)))
      | inr e ↦ rw e (Ordered-here m a b e)
    ]

-- strcmp() of a string `a` of `n` characters and any `b` returns 0 only if the two end at one
-- place with equal characters before it, and otherwise -1 or +1 by the first position in which
-- they differ.
pub strcmp_lem :
    (limit : ℕ) {m : Mem} {a n : ℕ} (b : ℕ)
    → IsStr m a n
    → n < limit
    → (r : Cmp) × (strcmp limit m a b ≡ some r) × Orders m a b r
strcmp_lem limit {m} {a} b s l =
    let o : Ordered m a b (strcmp limit m a b) = strcmp-Ordered limit b s l in
    (o.result, o.returned, o.order)
