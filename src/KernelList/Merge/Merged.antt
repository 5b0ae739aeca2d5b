-- ===== src/KernelList/Merge/Merged.antt =====
-- lib/kernel/list.c: inplace_merge() of two neighbouring ranges of a list.
use turbo_baker.Prelude.{
  ℕ, zero, suc, ◌+◌, ◌<◌, ◌≡◌, refl, sym, subst, inl, inr, Bool, not, some, List, [], ◌∷◌, ◌++◌,
  arith, if◌then◌else◌, ne→==, ==_refl, Bool-cases, length, count,
}
use mathlib.Core.List.{append_assoc}
use turbo_baker.KernelList.{Links, list_next, list_prev}
use turbo_baker.KernelList.Chain.{first, Linked}
use turbo_baker.KernelList.Positions.{before_IsPlaced}
use turbo_baker.KernelList.Splice.{first_ne_end, splice_back}
use turbo_baker.KernelList.Steps.{list_next_lem, list_prev_lem}
use turbo_baker.KernelList.Less.{StrictWeak, Below, Ordered}
use turbo_baker.KernelList.Merge.{merge_loop, inplace_merge}
use turbo_baker.KernelList.Merge.Runs.{is_sorted_lem, shift_Linked}

abbrev pub behind : List ℕ → List ℕ → ℕ → List ℕ
behind [] zs c = zs
behind (y ∷ ys) zs c = ys ++ (c ∷ zs)

pub first-behind :
    (ys : List ℕ) (c : ℕ) (zs : List ℕ) → ys ++ (c ∷ zs) ≡ first ys c ∷ behind ys zs c
first-behind [] c zs = refl
first-behind (y ∷ ys) c zs = refl

module _ (s : Links) (a : ℕ) (ws : List ℕ) (x : ℕ) (ys : List ℕ) (c : ℕ) (zs : List ℕ)
    (h : Linked s a (ws ++ (x ∷ (ys ++ (c ∷ zs))))) where
  from_first : Linked s a (ws ++ (x ∷ (first ys c ∷ behind ys zs c)))
  from_first = subst (λ (r : List ℕ). Linked s a (ws ++ (x ∷ r))) (first-behind ys c zs) h

  next_first : list_next x s ≡ some (first ys c)
  next_first = list_next_lem s a ws x (first ys c) (behind ys zs c) from_first

  prev_first : list_prev (first ys c) s ≡ some x
  prev_first = list_prev_lem s a ws x (first ys c) (behind ys zs c) from_first

module _ (less : ℕ → ℕ → Bool) where
  -- The merge of two sequences; of two elements, neither of them less, that of the first goes first.
  pub merge : List ℕ → List ℕ → List ℕ
  merge [] q = q
  merge (x ∷ p) [] = x ∷ p
  merge (x ∷ p) (y ∷ q) =
      let left = x ∷ merge p (y ∷ q) in
      let right = y ∷ merge (x ∷ p) q in if not (less y x) then left else right

  pub count-merge : (v : ℕ) (p q : List ℕ) → count v (merge p q) ≡ count v p + count v q
  unfolding merge
  count-merge v [] q = omega arith
  count-merge v (x ∷ p) [] = omega arith
  count-merge v (x ∷ p) (y ∷ q) = elim (Bool-cases (less y x)) [
    | inl e ↦ rw e (omega (arith, count-merge v (x ∷ p) q))
    | inr e ↦ rw e (omega (arith, count-merge v p (y ∷ q)))
  ]

  pub length-merge : (p q : List ℕ) → length (merge p q) ≡ length p + length q
  unfolding merge
  length-merge [] q = omega arith
  length-merge (x ∷ p) [] = omega arith
  length-merge (x ∷ p) (y ∷ q) = elim (Bool-cases (less y x)) [
    | inl e ↦ rw e (omega (arith, length-merge (x ∷ p) q))
    | inr e ↦ rw e (omega (arith, length-merge p (y ∷ q)))
  ]

  merge-Below : (z : ℕ) (p q : List ℕ) → Below less z p → Below less z q → Below less z (merge p q)
  unfolding merge
  merge-Below z [] q h k = k
  merge-Below z (x ∷ p) [] h k = h
  merge-Below z (x ∷ p) (y ∷ q) h k = elim (Bool-cases (less y x)) [
    | inl e ↦ rw e k
    | inr e ↦ rw e h
  ]

  pub merge-Ordered :
      StrictWeak less → (p q : List ℕ) → Ordered less p → Ordered less q → Ordered less (merge p q)
  unfolding merge
  merge-Ordered o [] q h k = k
  merge-Ordered o (x ∷ p) [] h k = h
  merge-Ordered o (x ∷ p) (y ∷ q) (b, h) (d, k) = elim (Bool-cases (less y x)) [
    | inl e ↦ rw e (merge-Below y (x ∷ p) q (o.asym y x e) d, merge-Ordered o (x ∷ p) q (b, h) k)
    | inr e ↦ rw e (merge-Below x p (y ∷ q) b e, merge-Ordered o p (y ∷ q) h (d, k))
  ]

  merge_walk :
      (fuel : ℕ) (s : Links) (a : ℕ) (ws p q : List ℕ) (c : ℕ) (zs : List ℕ)
      → Linked s a (ws ++ (p ++ (q ++ (c ∷ zs))))
      → length p + length q < fuel
      → (s' : Links) × (merge_loop less fuel (first p (first q c)) (first q c) c s ≡ some s')
        × Linked s' a (ws ++ (merge p q ++ (c ∷ zs)))
  unfolding merge_loop merge
  merge_walk zero s a ws p q c zs h n = absurd (omega arith)
  merge_walk (suc fuel) s a ws [] q c zs h n = (s, rw (==_refl (first q c)) refl, h)
  merge_walk (suc fuel) s a ws (x ∷ p) [] c zs h n =
      (s, rw (first_ne_end s a ws x p c zs h, ==_refl c) refl, h)
  merge_walk (suc fuel) s a ws (x ∷ p) (y ∷ q) c zs h n =
      let whole = append_assoc ws (x ∷ p) (y ∷ (q ++ (c ∷ zs))) in
      let at_y = subst (λ (r : List ℕ). Linked s a r) (sym whole) h in
      let xy = first_ne_end s a ws x p y (q ++ (c ∷ zs)) h in
      let yc = first_ne_end s a (ws ++ (x ∷ p)) y q c zs at_y in
      elim (Bool-cases (less y x)) [
        | inl e ↦
            let split = first-behind q c zs in
            let (s1, spliced, h1) =
              splice_back s a ws x p y [] (first q c) (behind q zs c)
                (subst (λ (r : List ℕ). Linked s a (ws ++ (x ∷ (p ++ (y ∷ r))))) split h) in
            let h2 =
              shift_Linked s1 a ws y (x ∷ (p ++ (q ++ (c ∷ zs))))
                (subst (λ (r : List ℕ). Linked s1 a (ws ++ (y ∷ (x ∷ (p ++ r))))) (sym split) h1) in
            let (s2, done, h3) =
              merge_walk fuel s1 a (ws ++ (y ∷ [])) (x ∷ p) q c zs h2 (omega arith) in
            (
              s2,
              rw
                  (
                    xy,
                    yc,
                    e,
                    next_first s a (ws ++ (x ∷ p)) y q c zs at_y,
                    prev_first s a (ws ++ (x ∷ p)) y q c zs at_y,
                    spliced,
                  )
                  done,
              rw e (
                  subst (λ (r : List ℕ). Linked s2 a r)
                    (append_assoc ws (y ∷ []) (merge (x ∷ p) q ++ (c ∷ zs))) h3),
            )
        | inr e ↦
            let (s2, done, h3) =
              merge_walk fuel s a (ws ++ (x ∷ [])) p (y ∷ q) c zs
                (shift_Linked s a ws x (p ++ (y ∷ (q ++ (c ∷ zs)))) h) (omega arith) in
            (
              s2,
              rw (xy, yc, e, next_first s a ws x p y (q ++ (c ∷ zs)) h) done,
              rw e (
                  subst (λ (r : List ℕ). Linked s2 a r)
                    (append_assoc ws (x ∷ []) (merge p (y ∷ q) ++ (c ∷ zs))) h3),
            )
      ]

  -- The assertions of inplace_merge() hold on two ranges in order.
  pub inplace_merge_lem :
      (fuel : ℕ) (s : Links) (a : ℕ) (ws : List ℕ) (x : ℕ) (p : List ℕ) (y : ℕ) (q : List ℕ) (c : ℕ)
      (zs : List ℕ)
      → Linked s a (ws ++ (x ∷ (p ++ (y ∷ (q ++ (c ∷ zs))))))
      → suc (length p) + suc (length q) < fuel
      → Ordered less (x ∷ p)
      → Ordered less (y ∷ q)
      → (s' : Links) × (inplace_merge less fuel x y c s ≡ some s')
        × Linked s' a (ws ++ (merge (x ∷ p) (y ∷ q) ++ (c ∷ zs)))
  unfolding inplace_merge
  inplace_merge_lem fuel s a ws x p y q c zs h n o1 o2 =
      let whole = append_assoc ws (x ∷ p) (y ∷ (q ++ (c ∷ zs))) in
      let at_y = subst (λ (r : List ℕ). Linked s a r) (sym whole) h in
      let whole' = append_assoc (ws ++ (x ∷ p)) (y ∷ q) (c ∷ zs) in
      let at_c = subst (λ (r : List ℕ). Linked s a r) (sym whole') at_y in
      let x_ne = (before_IsPlaced s a ws x (p ++ (y ∷ (q ++ (c ∷ zs)))) h).1 in
      let y_ne = (before_IsPlaced s a (ws ++ (x ∷ p)) y (q ++ (c ∷ zs)) at_y).1 in
      let c_ne = (before_IsPlaced s a ((ws ++ (x ∷ p)) ++ (y ∷ q)) c zs at_c).1 in
      let (s', done, h') = merge_walk fuel s a ws (x ∷ p) (y ∷ q) c zs h n in
      (
        s',
        rw
            (
              ne→== x 0 x_ne,
              ne→== y 0 y_ne,
              ne→== c 0 c_ne,
              is_sorted_lem less fuel s a ws x p y (q ++ (c ∷ zs)) h (omega arith) o1,
              is_sorted_lem less fuel s a (ws ++ (x ∷ p)) y q c zs at_y (omega arith) o2,
            )
            done,
        h',
      )
