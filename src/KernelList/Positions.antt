-- ===== src/KernelList/Positions.antt =====
-- lib/kernel/list.c: where an element of a chain stands, as is_interior() and is_tail() read it.
use turbo_baker.Prelude.{
  ℕ, ◌≡◌, refl, ap, ◌∙◌, ◌≢◌, true, ◌||◌, List, [], ◌∷◌, ◌++◌, arith, count, count-append,
}
use mathlib.Core.List.{append_assoc}
use turbo_baker.KernelList.{Links, is_interior, is_tail}
use turbo_baker.KernelList.Chain.{
  Chain, last, first, Linked, count-head, count-last, Chain-split, no_null-ne,
}

-- What stands behind the first element of `ys` and the tail `t`.
abbrev pub rest : List ℕ → ℕ → List ℕ
rest [] t = []
rest (y ∷ ys) t = ys ++ (t ∷ [])

pub first-rest : (ys : List ℕ) (t : ℕ) → ys ++ (t ∷ []) ≡ first ys t ∷ rest ys t
first-rest [] t = refl
first-rest (y ∷ ys) t = refl

pub whole-split : (xs ys : List ℕ) (t : ℕ) → (xs ++ ys) ++ (t ∷ []) ≡ xs ++ (first ys t ∷ rest ys t)
whole-split xs ys t = append_assoc xs ys (t ∷ []) ∙ ap (λ (r : List ℕ). xs ++ r) (first-rest ys t)

module _ (s : Links) (a : ℕ) where
  pub last_ne : (ws : List ℕ) → count 0 (a ∷ ws) ≡ 0 → last a ws ≢ 0
  last_ne ws h = no_null-ne (last a ws) (a ∷ ws) h (count-last a ws)

  pub before_IsPlaced :
      (ws : List ℕ) (b : ℕ) (zs : List ℕ)
      → Linked s a (ws ++ (b ∷ zs))
      → (s.prev b ≡ last a ws) × (b ≢ 0) × (last a ws ≢ 0)
  before_IsPlaced ws b zs h =
      let (l, (bn, bp, z)) = Chain-split s a ws (b ∷ zs) h.linked in
      (
        bp,
        no_null-ne b (b ∷ zs) (omega (arith, h.no_null, count-append 0 ws (b ∷ zs)))
            (omega (arith, count-head b zs)),
        last_ne ws (omega (arith, h.no_null, count-append 0 ws (b ∷ zs))),
      )

  pub before_lem :
      (ws : List ℕ) (b : ℕ) (zs : List ℕ)
      → Linked s a (ws ++ (b ∷ zs))
      → (is_interior s b || is_tail s b) ≡ true
  unfolding is_interior is_tail
  before_lem ws b zs h = ground (arith, before_IsPlaced ws b zs h)

  pub interior_lem :
      (ws : List ℕ) (b c : ℕ) (zs : List ℕ)
      → Linked s a (ws ++ (b ∷ (c ∷ zs)))
      → is_interior s b ≡ true
  unfolding is_interior
  interior_lem ws b c zs h =
      let (l, (bn, bp, (cn, cp, z))) = Chain-split s a ws (b ∷ (c ∷ zs)) h.linked in
      ground (
        arith,
        before_IsPlaced ws b (c ∷ zs) h,
        cn,
        no_null-ne c (b ∷ (c ∷ zs)) (omega (arith, h.no_null, count-append 0 ws (b ∷ (c ∷ zs))))
            (omega (arith, count-head c zs)),
      )

-- The last element of a range has an element in front of it.
pub prev_last_ne :
    (s : Links) (a z : ℕ) (zs : List ℕ)
    → count 0 (a ∷ (z ∷ zs)) ≡ 0
    → Chain s a (z ∷ zs)
    → s.prev (last z zs) ≢ 0
prev_last_ne s a z [] n (nx, pv, c) =
    rw pv (no_null-ne a (a ∷ (z ∷ [])) n (omega (arith, count-head a (z ∷ []))))
prev_last_ne s a z (y ∷ zs) n (nx, pv, c) = prev_last_ne s z y zs (omega (arith, n)) c
