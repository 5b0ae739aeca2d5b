-- ===== src/KernelList/Walk/Kept.antt =====
-- lib/kernel/list.c: what list_unique() keeps and what it takes out.
use turbo_baker.Prelude.{
  ℕ, ◌+◌, ◌<◌, ◌≡◌, inl, inr, Bool, true, false, not, ◌&&◌, List, [], ◌∷◌, arith, if◌then◌else◌,
  Bool-cases, count,
}
use turbo_baker.KernelList.Less.{All, All-map}

module _ (less : ℕ → ℕ → Bool) where
  abbrev pub equal_to : ℕ → ℕ → Bool
  equal_to x y = not (less x y) && not (less y x)

  -- What list_unique() keeps behind `x`, and what it takes out.
  unfoldable pub kept : ℕ → List ℕ → List ℕ
  kept x [] = []
  kept x (y ∷ ys) = if equal_to x y then kept x ys else y ∷ kept y ys

  unfoldable pub dropped : ℕ → List ℕ → List ℕ
  dropped x [] = []
  dropped x (y ∷ ys) = if equal_to x y then y ∷ dropped x ys else dropped y ys

  abbrev pub Differs : ℕ → List ℕ → Type 0
  Differs x [] = Unit {0}
  Differs x (y ∷ ys) = equal_to x y ≡ false

  abbrev pub NoRepeat : List ℕ → Type 0
  NoRepeat [] = Unit {0}
  NoRepeat (x ∷ xs) = Differs x xs × NoRepeat xs

  -- `ks` has no equal neighbours; it is `xs` without `ds`, each of which equals an element of `ks`.
  pub record IsUnique (xs ks ds : List ℕ) : Type 0 where
    pub no_repeat : NoRepeat ks
    pub together : (q : ℕ) → count q ks + count q ds ≡ count q xs
    pub repeats : All (λ y. (k : ℕ) × (0 < count k ks) × (equal_to k y ≡ true)) ds

  kept-Differs : (x : ℕ) (ys : List ℕ) → Differs x (kept x ys)
  unfolding kept
  kept-Differs x [] = tt
  kept-Differs x (y ∷ ys) = elim (Bool-cases (equal_to x y)) [
    | inl e ↦ rw e (kept-Differs x ys)
    | inr e ↦ rw e e
  ]

  pub kept-IsUnique : (x : ℕ) (ys : List ℕ) → IsUnique (x ∷ ys) (x ∷ kept x ys) (dropped x ys)
  unfolding kept dropped
  kept-IsUnique x [] = record { no_repeat = (tt, tt); together = λ q. omega arith; repeats = tt }
  kept-IsUnique x (y ∷ ys) = elim (Bool-cases (equal_to x y)) [
    | inl e ↦
        let ih = kept-IsUnique x ys in
        rw e (record {
          no_repeat = ih.no_repeat;
          together = λ q. omega (arith, ih.together q);
          repeats = ((x, ground arith, e), ih.repeats);
        })
    | inr e ↦
        let ih = kept-IsUnique y ys in
        rw e (record {
          no_repeat = (e, ih.no_repeat);
          together = λ q. omega (arith, ih.together q);
          repeats =
              All-map (λ z. (k : ℕ) × (0 < count k (y ∷ kept y ys)) × (equal_to k z ≡ true))
                (λ z. (k : ℕ) × (0 < count k (x ∷ (y ∷ kept y ys))) × (equal_to k z ≡ true))
                (λ z (k, n, m). (k, omega (arith, n), m)) (dropped y ys) ih.repeats;
        })
  ]
