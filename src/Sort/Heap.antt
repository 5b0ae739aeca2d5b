-- ===== src/Sort/Heap.antt =====
-- lib/stdlib.c: the heap order, and the index that a round of heapify() picks.
use turbo_baker.Prelude.{
  ℕ, ◌+◌, ◌*◌, ◌≤◌, ◌<◌, ◌≡◌, refl, ◌≢◌, ◌⊎◌, inl, inr, Bool, true, false, not, ◌&&◌, arith, leb,
  if◌then◌else◌, Bool-cases,
}
use turbo_baker.Str.Block.{Cmp}
use turbo_baker.Sort.{Element, is_greater}
use turbo_baker.Sort.Swap.{Exchanged}

-- What sort() wants of the comparison: it is a total preorder.
pub record IsOrder (compare : Element → Element → Cmp) : Type 0 where
  pub reflexive : (x : Element) → is_greater (compare x x) ≡ false
  pub total : (x y : Element) → is_greater (compare x y) ≡ true → is_greater (compare y x) ≡ false
  pub transitive :
      (x y z : Element)
      → is_greater (compare x y) ≡ false
      → is_greater (compare y z) ≡ false
      → is_greater (compare x z) ≡ false

-- Exchanges of elements among the first `n`, one after the other.
pub data Shuffled (n : ℕ) (v : ℕ → Element) : (ℕ → Element) → Type 0 where
  same : {w : ℕ → Element} → ((i : ℕ) → 0 < i → w i ≡ v i) → Shuffled n v w
  exchange :
      {u w : ℕ → Element} (a b : ℕ)
      → 0 < a
      → a ≤ n
      → 0 < b
      → b ≤ n
      → Shuffled n v u
      → Exchanged u a b w
      → Shuffled n v w

module _ (compare : Element → Element → Cmp) where
  abbrev pub le : Element → Element → Bool
  le x y = not (is_greater (compare x y))

  abbrev pub Child : (c p : ℕ) → Type 0
  Child c p = (c ≡ 2 * p) ⊎ (c ≡ 2 * p + 1)

  -- No element with a parent from `lo` on is above its parent, but perhaps the children of `i`.
  pub record HeapBut (v : ℕ → Element) (lo i cnt : ℕ) : Type 0 where
    pub above :
        (p c : ℕ) → lo ≤ p → p ≢ i → Child c p → c ≤ cnt → is_greater (compare (v c) (v p)) ≡ false
    pub grand :
        (q c : ℕ)
        → lo ≤ q
        → Child i q
        → Child c i
        → c ≤ cnt
        → is_greater (compare (v c) (v q)) ≡ false

  abbrev pub Heap : (ℕ → Element) → (lo cnt : ℕ) → Type 0
  Heap v lo cnt =
      (p c : ℕ) → lo ≤ p → Child c p → c ≤ cnt → is_greater (compare (v c) (v p)) ≡ false

  unfoldable pub pick : (ℕ → Element) → (i cnt : ℕ) → ℕ
  pick v i cnt =
      let max = (if leb (2 * i) cnt && is_greater (compare (v (2 * i)) (v i)) then 2 * i else i) in
      if leb (2 * i + 1) cnt && is_greater (compare (v (2 * i + 1)) (v max)) then 2 * i + 1 else max

  pub record Largest (v : ℕ → Element) (i cnt mx : ℕ) : Type 0 where
    pub self : is_greater (compare (v i) (v mx)) ≡ false
    pub left : 2 * i ≤ cnt → is_greater (compare (v (2 * i)) (v mx)) ≡ false
    pub right : 2 * i + 1 ≤ cnt → is_greater (compare (v (2 * i + 1)) (v mx)) ≡ false
    pub place : (mx ≡ i) ⊎ (Child mx i × (mx ≤ cnt))

  module _ (o : IsOrder compare) where
    above_of :
        (x y : Element) (b : Bool)
        → b && is_greater (compare x y) ≡ true
        → is_greater (compare y x) ≡ false
    above_of x y true h = o.total x y h
    above_of x y false h = cc

    below_of :
        (x y : Element) (a b : ℕ)
        → leb a b && is_greater (compare x y) ≡ false
        → a ≤ b
        → is_greater (compare x y) ≡ false
    below_of x y a b h l = ground (arith, h, l)

    pub pick-Largest : (v : ℕ → Element) (i cnt : ℕ) → Largest v i cnt (pick v i cnt)
    unfolding pick
    pick-Largest v i cnt =
        elim (Bool-cases (leb (2 * i) cnt && is_greater (compare (v (2 * i)) (v i)))) [
          | inl e ↦
              elim (Bool-cases
                (leb (2 * i + 1) cnt && is_greater (compare (v (2 * i + 1)) (v (2 * i))))) [
                  | inl f ↦ rw e rw f (record {
                    self =
                        o.transitive (v i) (v (2 * i)) (v (2 * i + 1)) (above_of _ _ _ e)
                          (above_of _ _ _ f);
                    left = λ l. above_of _ _ _ f;
                    right = λ l. o.reflexive (v (2 * i + 1));
                    place = inr (inr refl, ground (arith, f));
                  })
                  | inr f ↦ rw e rw f (record {
                    self = above_of _ _ _ e;
                    left = λ l. o.reflexive (v (2 * i));
                    right = λ l. below_of _ _ _ _ f l;
                    place = inr (inl refl, ground (arith, e));
                  })
                ]
          | inr e ↦
              elim (Bool-cases
                (leb (2 * i + 1) cnt && is_greater (compare (v (2 * i + 1)) (v i)))) [
                  | inl f ↦ rw e rw f (record {
                    self = above_of _ _ _ f;
                    left = λ l.
                        o.transitive (v (2 * i)) (v i) (v (2 * i + 1)) (below_of _ _ _ _ e l)
                          (above_of _ _ _ f);
                    right = λ l. o.reflexive (v (2 * i + 1));
                    place = inr (inr refl, ground (arith, f));
                  })
                  | inr f ↦ rw e rw f (record {
                    self = o.reflexive (v i);
                    left = λ l. below_of _ _ _ _ e l;
                    right = λ l. below_of _ _ _ _ f l;
                    place = inl refl;
                  })
                ]
        ]
