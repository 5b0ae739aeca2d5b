-- ===== src/Sort/Build.antt =====
-- lib/stdlib.c: the first loop of sort(), and the root of a heap.
use turbo_baker.Prelude.{
  ℕ, zero, suc, ◌+◌, ◌/◌, ◌^◌, ◌≤◌, ◌<◌, ◌≡◌, refl, sym, subst, inl, inr, Bool, true, false, some,
  arith, ◌==◌, if◌then◌else◌, ==→eq, ==→ne, Bool-cases, Mem,
}
use turbo_baker.Str.Block.{Cmp}
use turbo_baker.Sort.{Element, is_greater, build_loop}
use turbo_baker.Sort.Swap.{view}
use turbo_baker.Sort.Heap.{IsOrder, Shuffled, same, exchange, HeapBut, Heap}
use turbo_baker.Sort.Heapify.{Rearranged, Rearranged-refl, Rearranged-trans, heapify_lem}

module _ (compare : Element → Element → Cmp) where
  abbrev pub AllBelow : (ℕ → Element) → (n : ℕ) → Element → Type 0
  AllBelow v n x = (j : ℕ) → 0 < j → j ≤ n → is_greater (compare (v j) x) ≡ false

  abbrev pub Sorted : (ℕ → Element) → (from cnt : ℕ) → Type 0
  Sorted v from cnt = (j : ℕ) → from < j → j < cnt → is_greater (compare (v j) (v (j + 1))) ≡ false

module _ (compare : Element → Element → Cmp) (o : IsOrder compare) where
  pub Shuffled-below :
      (n : ℕ) (x : Element) (v : ℕ → Element) {w : ℕ → Element}
      → Shuffled n v w
      → AllBelow compare v n x
      → AllBelow compare w n x
  Shuffled-below n x v (same e) h j p l = rw (e j p) (h j p l)
  Shuffled-below n x v (exchange {u} {w} a b pa la pb lb s e) h j p l =
      let below = Shuffled-below n x v s h in
      rw (e j p) (one (j == a) (j == b) (below a pa la) (below b pb lb) (below j p l))
    where
      one :
          (c d : Bool)
          → is_greater (compare (u a) x) ≡ false
          → is_greater (compare (u b) x) ≡ false
          → is_greater (compare (u j) x) ≡ false
          → is_greater (compare (if c then u b else if d then u a else u j) x) ≡ false
      one true d f g k = g
      one false true f g k = f
      one false false f g k = k

  pub root_above :
      (v : ℕ → Element) (cnt : ℕ)
      → Heap compare v 1 cnt
      → (k j : ℕ) → j ≤ k
      → 0 < j
      → j ≤ cnt
      → is_greater (compare (v j) (v 1)) ≡ false
  root_above v cnt h zero j a b c = absurd (omega arith)
  root_above v cnt h (suc k) j a b c = elim (Bool-cases (j == 1)) [
    | inl e ↦
        subst (λ z. is_greater (compare (v z) (v 1)) ≡ false) (sym (==→eq j 1 e))
          (o.reflexive (v 1))
    | inr e ↦
        let ne = ==→ne j 1 e in
        o.transitive (v j) (v (j / 2)) (v 1) (h (j / 2) j (omega (arith, ne)) (omega arith) c)
          (root_above v cnt h k (j / 2) (omega (arith, ne)) (omega (arith, ne)) (omega arith))
  ]

  module _ (array size n : ℕ) (small : n < 2 ^ 31) where
    pub build_lem :
        (i : ℕ) (m : Mem)
        → i ≤ n
        → Heap compare (view m array size) (i + 1) n
        → (m' : Mem) × (build_loop compare array size m i n ≡ some m')
          × Heap compare (view m' array size) 1 n
          × Rearranged array size n n m m'
    unfolding build_loop
    build_lem zero m l h = (m, refl, h, Rearranged-refl array size n n m)
    build_lem (suc i) m l h =
        let but : HeapBut compare (view m array size) (suc i) (suc i) n = record {
          above = λ p c a b k le. h p c (omega arith) k le;
          grand = λ q c a cq ci le. absurd (omega (arith, cq));
        } in
        let (m₁, e, h₁, r₁) =
          heapify_lem compare o array size n n m (suc i) (suc i) n (omega arith) (omega arith) l
            (omega arith) (omega arith) small but in
        let (m₂, f, h₂, r₂) =
          build_lem i m₁ (omega arith) (λ p c a k le. h₁ p c (omega arith) k le) in
        (m₂, rw e f, h₂, Rearranged-trans r₁ r₂)
