-- ===== src/KernelList/Less.antt =====
-- lib/kernel/list.h: what a list_less_func promises, and sequences in its order.
use turbo_baker.Prelude.{
  ℕ, ◌≡◌, sym, ◌∙◌, inl, inr, Bool, true, false, List, [], ◌∷◌, ◌++◌, Bool-cases, true_ne_false,
}

-- A strict comparison: of two elements at most one is less, and one that is not less than a
-- third, where a second one is, stands above the second one.
pub record StrictWeak (less : ℕ → ℕ → Bool) : Type 0 where
  pub asym : (a b : ℕ) → less a b ≡ true → less b a ≡ false
  pub split : (a b c : ℕ) → less a c ≡ true → less a b ≡ false → less b c ≡ true

abbrev pub All : (ℕ → Type 0) → List ℕ → Type 0
All P [] = Unit {0}
All P (x ∷ xs) = P x × All P xs

module _ (P : ℕ → Type 0) where
  pub All-append : (xs ys : List ℕ) → All P xs → All P ys → All P (xs ++ ys)
  All-append [] ys h k = k
  All-append (x ∷ xs) ys (p, h) k = (p, All-append xs ys h k)

  pub All-split : (xs ys : List ℕ) → All P (xs ++ ys) → All P xs × All P ys
  All-split [] ys h = (tt, h)
  All-split (x ∷ xs) ys (p, h) = let (l, r) = All-split xs ys h in ((p, l), r)

pub All-map : (P Q : ℕ → Type 0) → ((x : ℕ) → P x → Q x) → (xs : List ℕ) → All P xs → All Q xs
All-map P Q f [] h = tt
All-map P Q f (x ∷ xs) (p, h) = (f x p, All-map P Q f xs h)

module _ (less : ℕ → ℕ → Bool) where
  -- The first of `xs`, if there is one, is not less than `x`.
  abbrev pub Below : ℕ → List ℕ → Type 0
  Below x [] = Unit {0}
  Below x (y ∷ ys) = less y x ≡ false

  -- No element is less than the one in front of it.
  abbrev pub Ordered : List ℕ → Type 0
  Ordered [] = Unit {0}
  Ordered (x ∷ xs) = Below x xs × Ordered xs

  module _ (o : StrictWeak less) where
    pub less_trans : (a b c : ℕ) → less a b ≡ true → less b c ≡ true → less a c ≡ true
    less_trans a b c p q = elim (Bool-cases (less a c)) [
      | inl e ↦ e
      | inr e ↦ absurd (true_ne_false (sym (o.split a c b p e) ∙ o.asym b c q))
    ]

    -- "Not less" is transitive.
    pub ge_trans : (a b c : ℕ) → less b a ≡ false → less c b ≡ false → less c a ≡ false
    ge_trans a b c p q = elim (Bool-cases (less c a)) [
      | inl e ↦ absurd (true_ne_false (sym (o.split c b a e q) ∙ p))
      | inr e ↦ e
    ]

    pub flip-StrictWeak : StrictWeak (λ a b. less b a)
    flip-StrictWeak = record {
      asym = λ a b h. o.asym b a h;
      split = λ a b c h k. elim (Bool-cases (less c b)) [
        | inl e ↦ e
        | inr e ↦ absurd (true_ne_false (sym (o.split c b a h e) ∙ k))
      ];
    }
