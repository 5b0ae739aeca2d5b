-- ===== src/KernelList/Walk/Unique.antt =====
-- lib/kernel/list.c: list_unique().
use turbo_baker.Prelude.{
  ℕ, zero, suc, ◌+◌, ◌<◌, ◌≡◌, refl, sym, ap, subst, inl, inr, Bool, some, List, [], ◌∷◌, ◌++◌,
  arith, ==_refl, Bool-cases, length, count, count-append,
}
use mathlib.Core.List.{append_assoc, append-nil}
use turbo_baker.KernelList.{Links, tail_of}
use turbo_baker.KernelList.Chain.{Holds, count-head}
use turbo_baker.KernelList.Ops.{Fresh, list_remove_lem}
use turbo_baker.KernelList.Ends.{
  Holds-ne, tail_ne, list_begin_lem, list_end_lem, list_empty_lem, list_push_back_lem,
}
use turbo_baker.KernelList.Steps.{next_at, shift_at}
use turbo_baker.KernelList.Splice.{Apart, Linked-frame}
use turbo_baker.KernelList.Walk.{drop_next, unique_loop, list_unique}
use turbo_baker.KernelList.Walk.Kept.{equal_to, kept, dropped, IsUnique, kept-IsUnique}

module _ (less : ℕ → ℕ → Bool) where
  unique_alone :
      (fuel : ℕ) (s : Links) (l : ℕ) (ws : List ℕ) (x : ℕ) (ys : List ℕ)
      → Holds s l (ws ++ (x ∷ ys))
      → length ys < fuel
      → (s' : Links) × (unique_loop less fuel (tail_of l) 0 x s ≡ some s')
        × Holds s' l (ws ++ (x ∷ kept less x ys))
  unfolding unique_loop kept drop_next
  unique_alone zero s l ws x ys h n = absurd (omega arith)
  unique_alone (suc fuel) s l ws x [] h n =
      (s, rw (next_at s l ws x [] h, ==_refl (tail_of l)) refl, h)
  unique_alone (suc fuel) s l ws x (y ∷ ys) h n =
      let moved = shift_at s l ws x (y ∷ ys) h in
      elim (Bool-cases (equal_to less x y)) [
        | inl e ↦
            let (s1, removed, h1, same) = list_remove_lem s l (ws ++ (x ∷ [])) y ys moved in
            let (s2, done, h2) =
              unique_alone fuel s1 l ws x ys
                (subst (λ (r : List ℕ). Holds s1 l r) (append_assoc ws (x ∷ []) ys) h1)
                (omega arith) in
            (
              s2,
              rw (next_at s l ws x (y ∷ ys) h, tail_ne s l (ws ++ (x ∷ [])) y ys moved, e, removed)
                  done,
              rw e h2,
            )
        | inr e ↦
            let (s2, done, h2) = unique_alone fuel s l (ws ++ (x ∷ [])) y ys moved (omega arith) in
            (
              s2,
              rw (next_at s l ws x (y ∷ ys) h, tail_ne s l (ws ++ (x ∷ [])) y ys moved, e) done,
              rw e (
                  subst (λ (r : List ℕ). Holds s2 l r)
                    (append_assoc ws (x ∷ []) (y ∷ kept less y ys)) h2),
            )
      ]

  -- The chains of two lists, ends included, have no element in common.
  abbrev pub ApartLists : ℕ → List ℕ → ℕ → List ℕ → Type 0
  ApartLists l xs d ds = Apart (l ∷ (xs ++ (tail_of l ∷ []))) (d ∷ (ds ++ (tail_of d ∷ [])))

  without :
      (q t : ℕ) (us : List ℕ) (y : ℕ) (ys : List ℕ)
      → count q ((us ++ (y ∷ ys)) ++ (t ∷ [])) ≡ count q ((us ++ ys) ++ (t ∷ [])) + count q (y ∷ [])
  without q t us y ys = omega (
    arith,
    count-append q (us ++ (y ∷ ys)) (t ∷ []),
    count-append q us (y ∷ ys),
    count-append q (us ++ ys) (t ∷ []),
    count-append q us ys,
  )

  with_last :
      (q t : ℕ) (ds : List ℕ) (y : ℕ)
      → count q ((ds ++ (y ∷ [])) ++ (t ∷ [])) ≡ count q (ds ++ (t ∷ [])) + count q (y ∷ [])
  with_last q t ds y = omega (
    arith,
    count-append q (ds ++ (y ∷ [])) (t ∷ []),
    count-append q ds (y ∷ []),
    count-append q ds (t ∷ []),
  )

  drop_turn :
      (s : Links) (l : ℕ) (us : List ℕ) (y : ℕ) (ys : List ℕ) (d : ℕ) (ds : List ℕ)
      → Holds s l (us ++ (y ∷ ys))
      → Holds s d ds
      → ApartLists l (us ++ (y ∷ ys)) d ds
      → (s' : Links) × (drop_next d y s ≡ some s')
        × Holds s' l (us ++ ys)
        × Holds s' d (ds ++ (y ∷ []))
        × ApartLists l (us ++ ys) d (ds ++ (y ∷ []))
  unfolding drop_next
  drop_turn s l us y ys d ds h k p =
      let (s1, removed, h1, same1) = list_remove_lem s l us y ys h in
      let k1 =
        Linked-frame s s1 d (ds ++ (tail_of d ∷ [])) (l ∷ ((us ++ ys) ++ (tail_of l ∷ []))) same1
          (λ q. omega (arith, p q, without q (tail_of l) us y ys)) k in
      let fresh : Fresh y d ds = (
        λ e. absurd (
            omega (
              arith,
              h.no_null,
              without 0 (tail_of l) us y ys,
              ap (λ (v : ℕ). count v (y ∷ [])) e,
              count-head y [],
            )),
        omega (arith, p y, without y (tail_of l) us y ys, count-head y []),
      ) in
      let (s2, pushed, k2, same2) = list_push_back_lem s1 d ds y k1 fresh in
      let apart : ApartLists l (us ++ ys) d (ds ++ (y ∷ [])) =
        λ q. omega (arith, p q, without q (tail_of l) us y ys, with_last q (tail_of d) ds y) in
      (
        s2,
        rw (removed, Holds-ne s d ds k) pushed,
        Linked-frame s1 s2 l ((us ++ ys) ++ (tail_of l ∷ []))
            (d ∷ ((ds ++ (y ∷ [])) ++ (tail_of d ∷ []))) same2 (λ q. omega (arith, apart q)) h1,
        k2,
        apart,
      )

  unique_into :
      (fuel : ℕ) (s : Links) (l : ℕ) (ws : List ℕ) (x : ℕ) (ys : List ℕ) (d : ℕ) (ds : List ℕ)
      → Holds s l (ws ++ (x ∷ ys))
      → Holds s d ds
      → ApartLists l (ws ++ (x ∷ ys)) d ds
      → length ys < fuel
      → (s' : Links) × (unique_loop less fuel (tail_of l) d x s ≡ some s')
        × Holds s' l (ws ++ (x ∷ kept less x ys))
        × Holds s' d (ds ++ dropped less x ys)
  unfolding unique_loop kept dropped
  unique_into zero s l ws x ys d ds h k p n = absurd (omega arith)
  unique_into (suc fuel) s l ws x [] d ds h k p n = (
    s,
    rw (next_at s l ws x [] h, ==_refl (tail_of l)) refl,
    h,
    subst (λ (r : List ℕ). Holds s d r) (sym (append-nil ds)) k,
  )
  unique_into (suc fuel) s l ws x (y ∷ ys) d ds h k p n =
      let moved = shift_at s l ws x (y ∷ ys) h in
      let apart : ApartLists l ((ws ++ (x ∷ [])) ++ (y ∷ ys)) d ds =
        subst (λ (r : List ℕ). ApartLists l r d ds) (sym (append_assoc ws (x ∷ []) (y ∷ ys))) p in
      elim (Bool-cases (equal_to less x y)) [
        | inl e ↦
            let (s1, turned, h1, k1, p1) = drop_turn s l (ws ++ (x ∷ [])) y ys d ds moved k apart in
            let back = append_assoc ws (x ∷ []) ys in
            let (s2, done, h2, k2) =
              unique_into fuel s1 l ws x ys d (ds ++ (y ∷ []))
                (subst (λ (r : List ℕ). Holds s1 l r) back h1) k1
                (subst (λ (r : List ℕ). ApartLists l r d (ds ++ (y ∷ []))) back p1) (omega arith) in
            (
              s2,
              rw (next_at s l ws x (y ∷ ys) h, tail_ne s l (ws ++ (x ∷ [])) y ys moved, e, turned)
                  done,
              rw e h2,
              rw e (
                  subst (λ (r : List ℕ). Holds s2 d r)
                    (append_assoc ds (y ∷ []) (dropped less x ys)) k2),
            )
        | inr e ↦
            let (s2, done, h2, k2) =
              unique_into fuel s l (ws ++ (x ∷ [])) y ys d ds moved k apart (omega arith) in
            (
              s2,
              rw (next_at s l ws x (y ∷ ys) h, tail_ne s l (ws ++ (x ∷ [])) y ys moved, e) done,
              rw e (
                  subst (λ (r : List ℕ). Holds s2 l r)
                    (append_assoc ws (x ∷ []) (y ∷ kept less y ys)) h2),
              rw e k2,
            )
      ]

  -- list_unique() ends.
  pub list_unique_lem :
      (fuel : ℕ) (s : Links) (l : ℕ) (xs : List ℕ) (d : ℕ) (ds : List ℕ)
      → Holds s l xs
      → Holds s d ds
      → ApartLists l xs d ds
      → length xs < fuel
      → (ks : List ℕ) × (us : List ℕ) × (s' : Links) × IsUnique less xs ks us
        × (list_unique less fuel l d s ≡ some s')
        × Holds s' l ks
        × Holds s' d (ds ++ us)
  unfolding list_unique
  list_unique_lem fuel s l [] d ds h k p n = (
    [],
    [],
    s,
    record { no_repeat = tt; together = λ q. omega arith; repeats = tt },
    rw (list_empty_lem s l [] h, Holds-ne s l [] h) refl,
    h,
    subst (λ (r : List ℕ). Holds s d r) (sym (append-nil ds)) k,
  )
  list_unique_lem fuel s l (x ∷ xs) d ds h k p n =
      let (s', done, h', k') = unique_into fuel s l [] x xs d ds h k p (omega arith) in
      (
        x ∷ kept less x xs,
        dropped less x xs,
        s',
        kept-IsUnique less x xs,
        rw
            (
              list_empty_lem s l (x ∷ xs) h,
              list_begin_lem s l (x ∷ xs) h,
              list_end_lem s l (x ∷ xs) h,
              Holds-ne s l (x ∷ xs) h,
            )
            done,
        h',
        k',
      )

  -- The same with a null pointer for DUPLICATES.
  pub list_unique-null :
      (fuel : ℕ) (s : Links) (l : ℕ) (xs : List ℕ)
      → Holds s l xs
      → length xs < fuel
      → (ks : List ℕ) × (us : List ℕ) × (s' : Links) × IsUnique less xs ks us
        × (list_unique less fuel l 0 s ≡ some s')
        × Holds s' l ks
  unfolding list_unique
  list_unique-null fuel s l [] h n = (
    [],
    [],
    s,
    record { no_repeat = tt; together = λ q. omega arith; repeats = tt },
    rw (list_empty_lem s l [] h, Holds-ne s l [] h) refl,
    h,
  )
  list_unique-null fuel s l (x ∷ xs) h n =
      let (s', done, h') = unique_alone fuel s l [] x xs h (omega arith) in
      (
        x ∷ kept less x xs,
        dropped less x xs,
        s',
        kept-IsUnique less x xs,
        rw
            (
              list_empty_lem s l (x ∷ xs) h,
              list_begin_lem s l (x ∷ xs) h,
              list_end_lem s l (x ∷ xs) h,
              Holds-ne s l (x ∷ xs) h,
            )
            done,
        h',
      )
