-- ===== src/Sort/Order.antt =====
-- lib/stdlib.c: the second loop of sort(), and sort() itself.
use turbo_baker.Prelude.{
  ℕ, zero, suc, ◌+◌, ◌*◌, ◌/◌, ◌^◌, ◌≤◌, ◌<◌, ◌≡◌, refl, ◌∙◌, subst, ◌≢◌, inl, inr, true, false,
  some, arith, ltb, leb, ◌==◌, ltb→lt, ltb→ge, leb→le, leb→gt, ==→eq, ==→ne, Bool-cases, Mem,
  within,
}
use turbo_baker.Str.Block.{Cmp}
use turbo_baker.Sort.{Element, is_greater, do_swap, sort_loop, sort}
use turbo_baker.Sort.Swap.{view, Exchanged, do_swap-Exchanged}
use turbo_baker.Sort.Heap.{IsOrder, Shuffled, same, HeapBut, Heap}
use turbo_baker.Sort.Sift.{at_first, at_second, at_other}
use turbo_baker.Sort.Heapify.{
  Rearranged, Rearranged-refl, Rearranged-trans, do_swap-Rearranged, heapify_lem,
}
use turbo_baker.Sort.Build.{AllBelow, Sorted, Shuffled-below, root_above, build_lem}

module _ (compare : Element → Element → Cmp) (o : IsOrder compare) (array size n : ℕ)
    (small : n < 2 ^ 31) where
  -- What holds when a round of the second loop begins at `i`.
  record Round (m : Mem) (i : ℕ) : Type 0 where
    heap : Heap compare (view m array size) 1 i
    sorted : Sorted compare (view m array size) i n
    bound : i < n → AllBelow compare (view m array size) i (view m array size (i + 1))

  finished : (m : Mem) (i : ℕ) → i ≤ 1 → Round m i → Sorted compare (view m array size) 0 n
  finished m i h r j a b = elim (Bool-cases (ltb i j)) [
    | inl l ↦ r.sorted j (ltb→lt i j l) b
    | inr g ↦
        let at : i ≡ j = omega (arith, ltb→ge i j g) in
        subst (λ z. is_greater (compare (view m array size j) (view m array size (z + 1))) ≡ false)
          at (r.bound (omega arith) j a (omega arith))
  ]

  plus_one : (i : ℕ) → i + 1 ≡ suc i
  plus_one i = omega arith

  module _ (m : Mem) (i : ℕ) (big : 1 ≤ i) (le : suc i ≤ n) (r : Round m (suc i)) where
    m₁ : Mem
    m₁ = do_swap m array 1 (suc i) size

    exchanged : Exchanged (view m array size) 1 (suc i) (view m₁ array size)
    unfolding m₁
    exchanged = do_swap-Exchanged m array 1 (suc i) size (omega arith) (omega arith) (omega arith)

    first_is : view m₁ array size 1 ≡ view m array size (suc i)
    first_is =
        at_first (view m array size) (view m₁ array size) 1 (suc i) exchanged (omega arith)
          (omega arith)

    last_is : view m₁ array size (suc i) ≡ view m array size 1
    last_is =
        at_second (view m array size) (view m₁ array size) 1 (suc i) exchanged (omega arith)
          (omega arith)

    kept : (j : ℕ) → 0 < j → j ≢ 1 → j ≢ suc i → view m₁ array size j ≡ view m array size j
    kept =
        at_other (view m array size) (view m₁ array size) 1 (suc i) exchanged (omega arith)
          (omega arith)

    swapped-HeapBut : HeapBut compare (view m₁ array size) 1 1 i
    swapped-HeapBut = record {
      above = λ p c a b k l.
          rw
            (
              kept c (omega (arith, k)) (omega (arith, k)) (omega arith),
              kept p (omega arith) (omega arith) (omega (arith, k)),
            )
            (r.heap p c a k (omega arith));
      grand = λ q c a cq ci l. absurd (omega (arith, cq));
    }

    below_root : AllBelow compare (view m₁ array size) i (view m array size 1)
    below_root j p l = elim (Bool-cases (j == 1)) [
      | inl e ↦
          rw (==→eq j 1 e, first_is)
            (root_above compare o (view m array size) (suc i) r.heap (suc i) (suc i) (omega arith)
              (omega arith) (omega arith))
      | inr e ↦ rw (kept j p (==→ne j 1 e) (omega arith)) (
          root_above compare o (view m array size) (suc i) r.heap j j (omega arith) p (omega arith))
    ]

    module _ {m₂ : Mem} (h : Heap compare (view m₂ array size) 1 i)
        (re : Rearranged array size n i m₁ m₂) where
      last_kept : view m₂ array size (suc i) ≡ view m array size 1
      last_kept = re.behind (suc i) (omega arith) (omega arith) ∙ last_is

      behind_kept : (j : ℕ) → suc i < j → view m₂ array size j ≡ view m array size j
      behind_kept j l =
          re.behind j (omega arith) (omega arith) ∙ kept j (omega arith) (omega arith) (omega arith)

      next-Sorted : Sorted compare (view m₂ array size) i n
      next-Sorted j a b = elim (Bool-cases (j == suc i)) [
        | inl e ↦
            rw (==→eq j (suc i) e, last_kept, behind_kept (suc i + 1) (omega arith))
              (r.bound (omega (arith, ==→eq j (suc i) e)) 1 (omega arith) (omega arith))
        | inr e ↦
            let ne = ==→ne j (suc i) e in
            rw (behind_kept j (omega (arith, ne)), behind_kept (j + 1) (omega (arith, ne)))
              (r.sorted j (omega (arith, ne)) b)
      ]

      next_bound : AllBelow compare (view m₂ array size) i (view m₂ array size (i + 1))
      next_bound =
          rw (plus_one i, last_kept)
            (Shuffled-below compare o i (view m array size 1) (view m₁ array size)
              (re.shuffled_cnt (view m₁ array size) (same (λ j p. refl))) below_root)

      next_Round : Round m₂ i
      next_Round = record { heap = h; sorted = next-Sorted; bound = λ l. next_bound }

  widen :
      {cnt : ℕ} {m m' : Mem}
      → cnt ≤ n
      → Rearranged array size n cnt m m'
      → Rearranged array size n n m m'
  widen l r = record {
    shuffled = r.shuffled;
    shuffled_cnt = r.shuffled;
    behind = λ j p b. r.behind j p (omega arith);
    outside = r.outside;
  }

  sort_loop_lem :
      (i : ℕ) (m : Mem)
      → i ≤ n
      → Round m i
      → (m' : Mem) × (sort_loop compare array size n m i ≡ some m')
        × Sorted compare (view m' array size) 0 n
        × Rearranged array size n n m m'
  unfolding sort_loop m₁
  sort_loop_lem zero m l r =
      (m, refl, finished m 0 (omega arith) r, Rearranged-refl array size n n m)
  sort_loop_lem (suc i) m l r = elim (Bool-cases (leb (suc i) 1)) [
    | inl e ↦
        (m, rw e refl, finished m (suc i) (leb→le (suc i) 1 e) r, Rearranged-refl array size n n m)
    | inr e ↦
        let big : 1 ≤ i = omega (arith, leb→gt (suc i) 1 e) in
        let (m₂, f, h, re) =
          heapify_lem compare o array size n n (do_swap m array 1 (suc i) size) 1 1 i (omega arith)
            (omega arith) big (omega arith) (omega arith) small (swapped-HeapBut m i big l r) in
        let (m₃, g, sorted, re₂) = sort_loop_lem i m₂ (omega arith) (next_Round m i big l r h re) in
        (
          m₃,
          rw e rw f g,
          sorted,
          Rearranged-trans
              (do_swap-Rearranged m array 1 (suc i) size n n (omega arith) (omega arith)
                (omega arith) l (omega arith) (omega arith))
              (Rearranged-trans (widen (omega arith) re) re₂),
        )
  ]

  -- What sort() leaves: each element is at or below the next, the elements are exchanged among
  -- each other, and nothing outside the array has changed.
  pub SortOutcome : (m m' : Mem) → Type 0
  SortOutcome m m' =
      Sorted compare (view m' array size) 0 n
      × Shuffled n (view m array size) (view m' array size)
      × ((y : ℕ) → within array (n * size) y ≡ false → m' y ≡ m y)

  -- By a comparison that is a total preorder, sort() of an array of elements of positive size, of
  -- which there are less than 2 ^ 31, ends, and leaves the array sorted: each element is at or
  -- below the next one, the elements are those it had, exchanged among each other, and no byte
  -- outside the array has changed.
  pub sort_lem :
      (m : Mem) → 0 < size → (m' : Mem) × (sort compare array size m n ≡ some m') × SortOutcome m m'
  unfolding sort SortOutcome
  sort_lem m pos =
      let (m₂, e, h, r) =
        build_lem compare o array size n small (n / 2) m (omega arith)
          (λ p c a k le. absurd (omega (arith, k))) in
      let (m₃, f, sorted, r₂) = sort_loop_lem n m₂ (omega arith) (record {
        heap = h;
        sorted = λ j a b. absurd (omega arith);
        bound = λ l. absurd (omega arith);
      }) in
      let positive : ltb 0 size ≡ true = ground arith in
      (
        m₃,
        rw positive rw e f,
        (
          sorted,
          r₂.shuffled (view m array size) (r.shuffled (view m array size) (same (λ j p. refl))),
          λ y out. r₂.outside y out ∙ r.outside y out,
        ),
      )
