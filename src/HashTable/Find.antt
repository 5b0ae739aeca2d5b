-- ===== src/HashTable/Find.antt =====
-- lib/kernel/hash.c: find_elem() and the list operations on one bucket.
use turbo_baker.Prelude.{
  ℕ, suc, ◌+◌, ◌≤◌, ◌<◌, ◌≡◌, refl, sym, ap, ◌∙◌, subst, inl, inr, Bool, true, false, not, ◌&&◌,
  none, some, List, [], ◌∷◌, arith, ◌==◌, if◌then◌else◌, ==→eq, Bool-cases, length, true_ne_false,
  count,
}
use turbo_baker.KernelList.Less.{StrictWeak, ge_trans}
use turbo_baker.HashTable.{alike, find_elem, take_out}

-- What hash.h asks of HASH and LESS: equal elements have one hash value.
pub record Respects (hash : ℕ → ℕ) (less : ℕ → ℕ → Bool) : Type 0 where
  pub order : StrictWeak less
  pub same_hash : (a b : ℕ) → less a b ≡ false → less b a ≡ false → hash a ≡ hash b

and_true : (a b : Bool) → (a && b) ≡ true → (a ≡ true) × (b ≡ true)
and_true true b h = (refl, h)
and_true false b h = cc

module _ (hash : ℕ → ℕ) (less : ℕ → ℕ → Bool) (r : Respects hash less) where
  irreflexive : (a : ℕ) → less a a ≡ false
  irreflexive a = elim (Bool-cases (less a a)) [ inl e ↦ r.order.asym a a e | inr e ↦ e ]

  pub alike_refl : (a : ℕ) → alike less a a ≡ true
  alike_refl a = rw (irreflexive a) refl

  pub alike_sym : (a b : ℕ) → alike less a b ≡ alike less b a
  alike_sym a b = of_values (less a b) (less b a)
    where
      of_values : (x y : Bool) → (not x && not y) ≡ (not y && not x)
      of_values true true = refl
      of_values true false = refl
      of_values false true = refl
      of_values false false = refl

  pub alike-less : (a b : ℕ) → alike less a b ≡ true → (less a b ≡ false) × (less b a ≡ false)
  alike-less a b h = of_values (less a b) (less b a) h
    where
      of_values : (x y : Bool) → (not x && not y) ≡ true → (x ≡ false) × (y ≡ false)
      of_values true y e = cc
      of_values false true e = cc
      of_values false false e = (refl, refl)

  alike_trans : (a b c : ℕ) → alike less a b ≡ true → alike less b c ≡ true → alike less a c ≡ true
  alike_trans a b c h k =
      let (p, q) = alike-less a b h in
      let (p', q') = alike-less b c k in
      rw (ge_trans less r.order c b a p' p, ge_trans less r.order a b c q q') refl

  pub alike_congr : (a b c : ℕ) → alike less a b ≡ true → alike less a c ≡ alike less b c
  alike_congr a b c h = elim (Bool-cases (alike less a c)) [
    | inl e ↦ e ∙ sym (alike_trans b a c (alike_sym b a ∙ h) e)
    | inr e ↦ elim (Bool-cases (alike less b c)) [
      | inl e' ↦ absurd (true_ne_false (sym (alike_trans a b c h e') ∙ e))
      | inr e' ↦ e ∙ sym e'
    ]
  ]

  pub alike-hash : (a b : ℕ) → alike less a b ≡ true → hash a ≡ hash b
  alike-hash a b h = let (p, q) = alike-less a b h in r.same_hash a b p q

  -- How many elements are equal to `q`.
  unfoldable pub count_alike : ℕ → List ℕ → ℕ
  count_alike q [] = 0
  count_alike q (x ∷ xs) = (if alike less x q then 1 else 0) + count_alike q xs

  pub find_elem-none : (q : ℕ) (xs : List ℕ) → count_alike q xs ≡ 0 → find_elem less xs q ≡ none
  unfolding find_elem count_alike
  find_elem-none q [] h = refl
  find_elem-none q (x ∷ xs) h = ground (arith, find_elem-none q xs)

  -- Membership, by `count`.
  pub find_elem-some :
      (q : ℕ) (xs : List ℕ) (x : ℕ)
      → find_elem less xs q ≡ some x
      → (alike less x q ≡ true) × (0 < count x xs)
  unfolding find_elem
  find_elem-some q [] x h = cc
  find_elem-some q (y ∷ ys) x h = elim (Bool-cases (alike less y q)) [
    | inl e ↦
        let same : y ≡ x = cc (rw e at h) in
        (subst (λ (v : ℕ). alike less v q ≡ true) same e, ground (arith, same))
    | inr e ↦ let (a, n) = find_elem-some q ys x (rw e at h) in (a, omega (arith, n))
  ]

  pub count-count_alike : (x : ℕ) (xs : List ℕ) → count x xs ≤ count_alike x xs
  unfolding count_alike
  count-count_alike x [] = omega arith
  count-count_alike x (y ∷ ys) = elim (Bool-cases (x == y)) [
    | inl e ↦
        rw (ap (λ (v : ℕ). alike less v x) (sym (==→eq x y e)) ∙ alike_refl x, e)
          (omega (arith, count-count_alike x ys))
    | inr e ↦ rw e (omega (arith, count-count_alike x ys))
  ]

  pub count_alike_congr :
      (p q : ℕ) (xs : List ℕ) → alike less p q ≡ true → count_alike p xs ≡ count_alike q xs
  unfolding count_alike
  count_alike_congr p q [] h = refl
  count_alike_congr p q (x ∷ xs) h =
      let e : alike less x p ≡ alike less x q =
        alike_sym x p ∙ alike_congr p q x h ∙ alike_sym q x in
      rw (e, count_alike_congr p q xs h) refl

  pub take_out-absent : (x : ℕ) (xs : List ℕ) → count x xs ≡ 0 → take_out x xs ≡ xs
  unfolding take_out
  take_out-absent x [] h = refl
  take_out-absent x (y ∷ ys) h = ground (arith, take_out-absent x ys)

  pub count_alike-take_out :
      (q x : ℕ) (xs : List ℕ)
      → 0 < count x xs
      → count_alike q (take_out x xs) + (if alike less x q then 1 else 0) ≡ count_alike q xs
  unfolding take_out count_alike
  count_alike-take_out q x [] h = absurd (omega arith)
  count_alike-take_out q x (y ∷ ys) h = elim (Bool-cases (x == y)) [
    | inl e ↦ rw (e, ==→eq x y e) (omega arith)
    | inr e ↦ rw e (
        omega (
          arith,
          count_alike-take_out q x ys
              (omega (arith, h, ap (λ (b : Bool). (if b then 1 else 0) + count x ys) e)),
        ))
  ]

  pub length-take_out :
      (x : ℕ) (xs : List ℕ) → 0 < count x xs → suc (length (take_out x xs)) ≡ length xs
  unfolding take_out
  length-take_out x [] h = absurd (omega arith)
  length-take_out x (y ∷ ys) h = ground (arith, length-take_out x ys)

  -- Without the element that a search for `q` finds, no other search changes.
  pub find_elem-take_out :
      (q x : ℕ) (xs : List ℕ)
      → alike less x q ≡ false
      → find_elem less (take_out x xs) q ≡ find_elem less xs q
  unfolding find_elem take_out
  find_elem-take_out q x [] h = refl
  find_elem-take_out q x (y ∷ ys) h = elim (Bool-cases (x == y)) [
    | inl e ↦ rw (e, ap (λ (v : ℕ). alike less v q) (sym (==→eq x y e)) ∙ h) refl
    | inr e ↦ rw (e, find_elem-take_out q x ys h) refl
  ]

  pub count_alike-none : (q : ℕ) (xs : List ℕ) → find_elem less xs q ≡ none → count_alike q xs ≡ 0
  unfolding find_elem count_alike
  count_alike-none q [] h = refl
  count_alike-none q (x ∷ xs) h = elim (Bool-cases (alike less x q)) [
    | inl e ↦ cc (rw e at h)
    | inr e ↦ rw e (omega (arith, count_alike-none q xs (rw e at h)))
  ]
