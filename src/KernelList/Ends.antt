-- ===== src/KernelList/Ends.antt =====
-- lib/kernel/list.c: the operations at the two ends of a list.
use turbo_baker.Prelude.{
  ℕ, ◌≡◌, refl, sym, ap, subst, Bool, true, false, none, some, List, [], ◌∷◌, ◌++◌, arith, ◌==◌,
  ne→==, ==_refl, count, count-append,
}
use mathlib.Core.List.{append-nil}
use turbo_baker.KernelList.{
  Links, tail_of, list_begin, list_end, list_empty, list_front, list_back, list_push_front,
  list_push_back, list_pop_front, list_pop_back,
}
use turbo_baker.KernelList.Chain.{
  last, first, Holds, SameOutside, count-head, last-append, Chain-split, no_null-ne,
}
use turbo_baker.KernelList.Ops.{Fresh, list_insert_lem, list_remove_lem}

module _ (s : Links) (l : ℕ) where
  pub Holds-ne : (xs : List ℕ) → Holds s l xs → (l == 0) ≡ false
  Holds-ne xs h = ne→== l 0 (
      no_null-ne l (l ∷ (xs ++ (tail_of l ∷ []))) h.no_null
        (omega (arith, count-head l (xs ++ (tail_of l ∷ [])))))

  pub list_begin_lem : (xs : List ℕ) → Holds s l xs → list_begin l s ≡ some (first xs (tail_of l))
  unfolding list_begin
  list_begin_lem [] h = rw (Holds-ne [] h, h.linked.0) refl
  list_begin_lem (x ∷ xs) h = rw (Holds-ne (x ∷ xs) h, h.linked.0) refl

  pub list_end_lem : (xs : List ℕ) → Holds s l xs → list_end l ≡ some (tail_of l)
  unfolding list_end
  list_end_lem xs h = rw (Holds-ne xs h) refl

  -- The element in front of the tail.
  pub tail_prev : (xs : List ℕ) → Holds s l xs → s.prev (tail_of l) ≡ last l xs
  tail_prev xs h = (Chain-split s l xs (tail_of l ∷ []) h.linked).1.1

  pub tail_ne :
      (xs : List ℕ) (x : ℕ) (ys : List ℕ) → Holds s l (xs ++ (x ∷ ys)) → (x == tail_of l) ≡ false
  tail_ne xs x ys h = ne→== x (tail_of l) λ e. absurd (
      omega (
        arith,
        h.distinct x,
        count-append x (xs ++ (x ∷ ys)) (tail_of l ∷ []),
        count-append x xs (x ∷ ys),
        count-head x ys,
        count-head x [],
        ap (λ (y : ℕ). count x (y ∷ [])) e,
      ))

  abbrev pub is_nil : List ℕ → Bool
  is_nil [] = true
  is_nil (x ∷ xs) = false

  pub list_empty_lem : (xs : List ℕ) → Holds s l xs → list_empty l s ≡ some (is_nil xs)
  unfolding list_empty
  list_empty_lem [] h = rw (list_begin_lem [] h, list_end_lem [] h, ==_refl (tail_of l)) refl
  list_empty_lem (x ∷ xs) h =
      rw (list_begin_lem (x ∷ xs) h, list_end_lem (x ∷ xs) h, tail_ne [] x xs h) refl

  pub list_push_front_lem :
      (xs : List ℕ) (elem : ℕ)
      → Holds s l xs
      → Fresh elem l xs
      → (s' : Links) × (list_push_front l elem s ≡ some s') × Holds s' l (elem ∷ xs)
  unfolding list_push_front
  list_push_front_lem xs elem h f =
      let (s', e, done, same) = list_insert_lem s l [] xs elem h f in
      (s', rw (list_begin_lem xs h) e, done)

  pub list_push_back_lem :
      (xs : List ℕ) (elem : ℕ)
      → Holds s l xs
      → Fresh elem l xs
      → (s' : Links) × (list_push_back l elem s ≡ some s')
        × Holds s' l (xs ++ (elem ∷ []))
        × SameOutside (l ∷ ((xs ++ (elem ∷ [])) ++ (tail_of l ∷ []))) s s'
  unfolding list_push_back
  list_push_back_lem xs elem h f =
      let e0 = append-nil xs in
      let (s', e, done, same) =
        list_insert_lem s l xs [] elem (subst (λ (r : List ℕ). Holds s l r) (sym e0) h)
          (subst (λ (r : List ℕ). Fresh elem l r) (sym e0) f) in
      (s', rw (list_end_lem xs h) e, done, same)

  pub list_pop_front_lem :
      (x : ℕ) (xs : List ℕ)
      → Holds s l (x ∷ xs)
      → (s' : Links) × (list_pop_front l s ≡ some (x, s')) × Holds s' l xs
  unfolding list_pop_front list_front
  list_pop_front_lem x xs h =
      let (s', e, done, same) = list_remove_lem s l [] x xs h in
      (s', rw (list_empty_lem (x ∷ xs) h, h.linked.0, e) refl, done)

  pub list_pop_back_lem :
      (xs : List ℕ) (x : ℕ)
      → Holds s l (xs ++ (x ∷ []))
      → (s' : Links) × (list_pop_back l s ≡ some (x, s')) × Holds s' l xs
  unfolding list_pop_back list_back
  list_pop_back_lem xs x h =
      let (s', e, done, same) = list_remove_lem s l xs x [] h in
      (
        s',
        rw
            (
              list_empty_lem (xs ++ (x ∷ [])) h,
              tail_prev (xs ++ (x ∷ [])) h,
              last-append l xs x [],
              is_nil-append xs x,
              e,
            )
            refl,
        subst (λ (r : List ℕ). Holds s' l r) (append-nil xs) done,
      )
    where
      is_nil-append : (xs : List ℕ) (x : ℕ) → is_nil (xs ++ (x ∷ [])) ≡ false
      is_nil-append [] x = refl
      is_nil-append (y ∷ ys) x = refl

  -- On an empty list the assertion of list_front() and list_back() fails.
  pub list_pop_empty : Holds s l [] → (list_pop_front l s ≡ none) × (list_pop_back l s ≡ none)
  unfolding list_pop_front list_pop_back list_front list_back
  list_pop_empty h = rw (list_empty_lem [] h) (refl, refl)
