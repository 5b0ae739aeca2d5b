-- ===== src/KernelList/Steps.antt =====
-- lib/kernel/list.c: list_next() and list_prev() on the elements of a list.
use turbo_baker.Prelude.{ℕ, ◌≡◌, refl, sym, ap, ◌∙◌, subst, some, List, [], ◌∷◌, ◌++◌, arith}
use mathlib.Core.List.{append_assoc}
use turbo_baker.KernelList.{Links, tail_of, list_next, list_prev}
use turbo_baker.KernelList.Chain.{Chain-split, first, Linked, Holds}
use turbo_baker.KernelList.Positions.{rest, first-rest, before_lem, interior_lem}

pub list_next_lem :
    (s : Links) (a : ℕ) (ws : List ℕ) (e c : ℕ) (zs : List ℕ)
    → Linked s a (ws ++ (e ∷ (c ∷ zs)))
    → list_next e s ≡ some c
unfolding list_next
list_next_lem s a ws e c zs h =
    let (l, (fn, fp, (cn, cp, r))) = Chain-split s a ws (e ∷ (c ∷ zs)) h.linked in
    ground (arith, interior_lem s a ws e c zs h, cn)

pub list_prev_lem :
    (s : Links) (a : ℕ) (ws : List ℕ) (e c : ℕ) (zs : List ℕ)
    → Linked s a (ws ++ (e ∷ (c ∷ zs)))
    → list_prev c s ≡ some e
unfolding list_prev
list_prev_lem s a ws e c zs h =
    let (l, (fn, fp, (cn, cp, r))) = Chain-split s a ws (e ∷ (c ∷ zs)) h.linked in
    rw
      (
        before_lem s a (ws ++ (e ∷ [])) c zs
            (subst (λ (r : List ℕ). Linked s a r) (sym (append_assoc ws (e ∷ []) (c ∷ zs))) h),
        cp,
      )
      refl

module _ (s : Links) (l : ℕ) (ws : List ℕ) (y : ℕ) (ys : List ℕ)
    (h : Holds s l (ws ++ (y ∷ ys))) where
  pub split_at : Linked s l (ws ++ (y ∷ (first ys (tail_of l) ∷ rest ys (tail_of l))))
  split_at =
      subst (λ (r : List ℕ). Linked s l r)
        (append_assoc ws (y ∷ ys) (tail_of l ∷ [])
          ∙ ap (λ (r : List ℕ). ws ++ (y ∷ r)) (first-rest ys (tail_of l)))
        h

  -- Behind an element stands the next one, or the tail.
  pub next_at : list_next y s ≡ some (first ys (tail_of l))
  next_at = list_next_lem s l ws y (first ys (tail_of l)) (rest ys (tail_of l)) split_at

  pub prev_at : list_prev (first ys (tail_of l)) s ≡ some y
  prev_at = list_prev_lem s l ws y (first ys (tail_of l)) (rest ys (tail_of l)) split_at

  pub shift_at : Holds s l ((ws ++ (y ∷ [])) ++ ys)
  shift_at = subst (λ (r : List ℕ). Holds s l r) (sym (append_assoc ws (y ∷ []) ys)) h
