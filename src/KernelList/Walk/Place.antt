-- ===== src/KernelList/Walk/Place.antt =====
-- lib/kernel/list.c: list_insert_ordered().
use turbo_baker.Prelude.{
  ℕ, zero, suc, ◌<◌, ◌≡◌, refl, sym, ◌∙◌, subst, inl, inr, Bool, true, false, some, List, [], ◌∷◌,
  ◌++◌, arith, ne→==, ==_refl, Bool-cases, length,
}
use mathlib.Core.List.{append_assoc}
use turbo_baker.KernelList.{Links, tail_of}
use turbo_baker.KernelList.Chain.{first, Holds}
use turbo_baker.KernelList.Ops.{Fresh, list_insert_lem}
use turbo_baker.KernelList.Ends.{Holds-ne, tail_ne, list_begin_lem, list_end_lem}
use turbo_baker.KernelList.Steps.{next_at, shift_at}
use turbo_baker.KernelList.Less.{StrictWeak, All, All-append, Ordered}
use turbo_baker.KernelList.Walk.{ordered_loop, list_insert_ordered}

module _ (less : ℕ → ℕ → Bool) (elem : ℕ) where
  -- `elem` belongs in between `us` and `vs`.
  pub record Place (us vs : List ℕ) : Type 0 where
    pub up_to : All (λ x. less elem x ≡ false) us
    pub from : (y : ℕ) (ys : List ℕ) → vs ≡ y ∷ ys → less elem y ≡ true

  place_walk :
      (fuel : ℕ) (s : Links) (l : ℕ) (ws ys : List ℕ)
      → Holds s l (ws ++ ys)
      → length ys < fuel
      → All (λ x. less elem x ≡ false) ws
      → (us : List ℕ) × (vs : List ℕ) × (ws ++ ys ≡ us ++ vs)
        × Place us vs
        × (ordered_loop less fuel s (tail_of l) elem (first ys (tail_of l))
            ≡ some (first vs (tail_of l)))
  unfolding ordered_loop
  place_walk zero s l ws ys h n k = absurd (omega arith)
  place_walk (suc fuel) s l ws [] h n k =
      (ws, [], refl, record { up_to = k; from = λ y ys e. cc }, rw (==_refl (tail_of l)) refl)
  place_walk (suc fuel) s l ws (y ∷ ys) h n k = elim (Bool-cases (less elem y)) [
    | inl e ↦ (
      ws,
      y ∷ ys,
      refl,
      record { up_to = k; from = λ z zs p. subst (λ (x : ℕ). less elem x ≡ true) (cc p) e },
      rw (tail_ne s l ws y ys h, e) refl,
    )
    | inr e ↦
        let (us, vs, parts, place, found) =
          place_walk fuel s l (ws ++ (y ∷ [])) ys (shift_at s l ws y ys h) (omega arith)
            (All-append (λ x. less elem x ≡ false) ws (y ∷ []) k (e, tt)) in
        (
          us,
          vs,
          sym (append_assoc ws (y ∷ []) ys) ∙ parts,
          place,
          rw (tail_ne s l ws y ys h, e, next_at s l ws y ys h) found,
        )
  ]

  place-Ordered :
      StrictWeak less
      → (us vs : List ℕ) → Place us vs
      → Ordered less (us ++ vs)
      → Ordered less (us ++ (elem ∷ vs))
  place-Ordered o [] [] p h = (tt, tt)
  place-Ordered o [] (v ∷ vs) p h = (o.asym elem v (p.from v vs refl), h)
  place-Ordered o (u ∷ []) [] p h = (p.up_to.0, (tt, tt))
  place-Ordered o (u ∷ []) (v ∷ vs) p (b, h) = (p.up_to.0, (o.asym elem v (p.from v vs refl), h))
  place-Ordered o (u ∷ (w ∷ us)) vs p (b, h) =
      (b, place-Ordered o (w ∷ us) vs (record { up_to = p.up_to.1; from = p.from }) h)

-- list_insert_ordered() ends.
pub list_insert_ordered_lem :
    (less : ℕ → ℕ → Bool) (fuel : ℕ) (s : Links) (l : ℕ) (xs : List ℕ) (elem : ℕ)
    → StrictWeak less
    → Holds s l xs
    → Fresh elem l xs
    → length xs < fuel
    → Ordered less xs
    → (us : List ℕ) × (vs : List ℕ) × (s' : Links) × (xs ≡ us ++ vs)
      × All (λ x. less elem x ≡ false) us
      × (list_insert_ordered less fuel l elem s ≡ some s')
      × Holds s' l (us ++ (elem ∷ vs))
      × Ordered less (us ++ (elem ∷ vs))
unfolding list_insert_ordered
list_insert_ordered_lem less fuel s l xs elem o h f n ordered =
    let (us, vs, parts, place, found) = place_walk less elem fuel s l [] xs h n tt in
    let (s', done, holds, same) =
      list_insert_lem s l us vs elem (subst (λ (r : List ℕ). Holds s l r) parts h)
        (subst (λ (r : List ℕ). Fresh elem l r) parts f) in
    (
      us,
      vs,
      s',
      parts,
      place.up_to,
      rw
          (
            list_begin_lem s l xs h,
            list_end_lem s l xs h,
            found,
            Holds-ne s l xs h,
            ne→== elem 0 f.0,
          )
          done,
      holds,
      place-Ordered less elem o us vs place (subst (λ (r : List ℕ). Ordered less r) parts ordered),
    )
