-- ===== src/Sort/Sift.antt =====
-- lib/stdlib.c: one exchange of heapify().
use turbo_baker.Prelude.{
  ℕ, ◌≤◌, ◌<◌, ◌≡◌, refl, sym, ap, ◌∙◌, subst, ◌≢◌, inl, inr, false, arith, ◌==◌, ==→eq, ==→ne,
  ne→==, ==_refl, Bool-cases,
}
use turbo_baker.Str.Block.{Cmp}
use turbo_baker.Sort.{Element, is_greater}
use turbo_baker.Sort.Swap.{Exchanged}
use turbo_baker.Sort.Heap.{Child, HeapBut, Heap, Largest}

module _ (v w : ℕ → Element) (a b : ℕ) (x : Exchanged v a b w) (pa : 0 < a) (pb : 0 < b) where
  pub at_first : w a ≡ v b
  at_first = x a pa ∙ rw (==_refl a) refl

  pub at_second : w b ≡ v a
  at_second = x b pb ∙ elim (Bool-cases (b == a)) [
    | inl e ↦ rw e rw (==→eq b a e) refl
    | inr e ↦ rw e rw (==_refl b) refl
  ]

  pub at_other : (j : ℕ) → 0 < j → j ≢ a → j ≢ b → w j ≡ v j
  at_other j p na nb = x j p ∙ rw (ne→== j a na) rw (ne→== j b nb) refl

module _ (compare : Element → Element → Cmp) where
  pub Child-le :
      {v : ℕ → Element} {i cnt mx : ℕ}
      → Largest compare v i cnt mx
      → (c : ℕ) → Child compare c i
      → c ≤ cnt
      → is_greater (compare (v c) (v mx)) ≡ false
  Child-le {v} {i} {cnt} {mx} l c (inl e) h =
      subst (λ z. is_greater (compare (v z) (v mx)) ≡ false) (sym e) (l.left (omega (arith, e, h)))
  Child-le {v} {i} {cnt} {mx} l c (inr e) h =
      subst (λ z. is_greater (compare (v z) (v mx)) ≡ false) (sym e) (l.right (omega (arith, e, h)))

  module _ {v w : ℕ → Element} {lo i cnt mx : ℕ} (h : HeapBut compare v lo i cnt)
      (l : Largest compare v i cnt mx) (child : Child compare mx i) (inside : mx ≤ cnt)
      (x : Exchanged v i mx w) (from : lo ≤ i) (start : 0 < lo) where
    at_i : w i ≡ v mx
    at_i = at_first v w i mx x (omega arith) (omega (arith, child))

    at_mx : w mx ≡ v i
    at_mx = at_second v w i mx x (omega arith) (omega (arith, child))

    elsewhere : (j : ℕ) → 0 < j → j ≢ i → j ≢ mx → w j ≡ v j
    elsewhere = at_other v w i mx x (omega arith) (omega (arith, child))

    le_at :
        (c p : ℕ) {y z : Element}
        → w c ≡ y
        → w p ≡ z
        → is_greater (compare y z) ≡ false
        → is_greater (compare (w c) (w p)) ≡ false
    le_at c p e f g = rw (e, f) g

    below_i : (c : ℕ) → Child compare c i → c ≤ cnt → is_greater (compare (w c) (w i)) ≡ false
    below_i c k le = elim (Bool-cases (c == mx)) [
      | inl e ↦ le_at c i (ap w (==→eq c mx e) ∙ at_mx) at_i l.self
      | inr e ↦
          le_at c i (elsewhere c (omega (arith, k)) (omega (arith, k)) (==→ne c mx e)) at_i
            (Child-le l c k le)
    ]

    below_other :
        (p c : ℕ)
        → lo ≤ p
        → p ≢ i
        → p ≢ mx
        → Child compare c p
        → c ≤ cnt
        → is_greater (compare (w c) (w p)) ≡ false
    below_other p c q ni nm k le = elim (Bool-cases (c == i)) [
      | inl e ↦
          let at : c ≡ i = ==→eq c i e in
          le_at c p (ap w at ∙ at_i) (elsewhere p (omega arith) ni nm)
            (h.grand p mx q (subst (λ z. Child compare z p) at k) child inside)
      | inr e ↦
          le_at c p (elsewhere c (omega (arith, k)) (==→ne c i e) (omega (arith, k, child)))
            (elsewhere p (omega arith) ni nm) (h.above p c q ni k le)
    ]

    below :
        (p c : ℕ)
        → lo ≤ p
        → p ≢ mx
        → Child compare c p
        → c ≤ cnt
        → is_greater (compare (w c) (w p)) ≡ false
    below p c q ne k le = elim (Bool-cases (p == i)) [
      | inl e ↦
          let at : i ≡ p = sym (==→eq p i e) in
          subst (λ z. is_greater (compare (w c) (w z)) ≡ false) at
            (below_i c (subst (Child compare c) (sym at) k) le)
      | inr e ↦ below_other p c q (==→ne p i e) ne k le
    ]

    grand_mx :
        (q c : ℕ)
        → lo ≤ q
        → Child compare mx q
        → Child compare c mx
        → c ≤ cnt
        → is_greater (compare (w c) (w q)) ≡ false
    grand_mx q c g cq cm le =
        let at : i ≡ q = omega (arith, cq, child) in
        le_at c q
          (elsewhere c (omega (arith, cm)) (omega (arith, cm, child)) (omega (arith, cm, child)))
          (ap w (sym at) ∙ at_i) (h.above mx c (omega (arith, child)) (omega (arith, child)) cm le)

    pub sift-HeapBut : HeapBut compare w lo mx cnt
    sift-HeapBut = record { above = below; grand = grand_mx }

  -- A heap but for an index whose children are not above it is a heap.
  pub settled-Heap :
      {v : ℕ → Element} {lo i cnt : ℕ}
      → HeapBut compare v lo i cnt
      → Largest compare v i cnt i
      → Heap compare v lo cnt
  settled-Heap {v} {lo} {i} {cnt} h l p c q k le = elim (Bool-cases (p == i)) [
    | inl e ↦
        let at : i ≡ p = sym (==→eq p i e) in
        subst (λ z. is_greater (compare (v c) (v z)) ≡ false) at
          (Child-le l c (subst (Child compare c) (sym at) k) le)
    | inr e ↦ h.above p c q (==→ne p i e) k le
  ]
