-- ===== src/KernelList/Merge/Sorting.antt =====
-- lib/kernel/list.c: list_sort().
use turbo_baker.Prelude.{
  ℕ, zero, suc, ◌^◌, ◌<◌, ◌≡◌, refl, ap, ◌∙◌, inl, inr, Bool, some, List, [], arith, ltb, ltb→lt,
  ltb→ge, Bool-cases, length, count,
}
use turbo_baker.KernelList.{Links, tail_of}
use turbo_baker.KernelList.Chain.{first, Holds}
use turbo_baker.KernelList.Ends.{Holds-ne, list_begin_lem, list_end_lem}
use turbo_baker.KernelList.Less.{StrictWeak, Ordered}
use turbo_baker.KernelList.Merge.{pass_loop, passes, list_sort}
use turbo_baker.KernelList.Merge.Runs.{runs, runs-le-length, sorted_end, Ordered-of_runs}
use turbo_baker.KernelList.Merge.Passes.{pass_walk}

module _ (less : ℕ → ℕ → Bool) (o : StrictWeak less) where
  passes_walk :
      (turns fuel : ℕ) (s : Links) (l : ℕ) (xs : List ℕ)
      → Holds s l xs
      → runs less xs < turns
      → length xs < fuel
      → length xs < 2 ^ 32
      → (ys : List ℕ) × (s' : Links) × (passes less turns fuel l s ≡ some s')
        × Holds s' l ys
        × Ordered less ys
        × ((q : ℕ) → count q ys ≡ count q xs)
        × (length ys ≡ length xs)
  unfolding passes
  passes_walk zero fuel s l xs h n m b = absurd (omega arith)
  passes_walk (suc turns) fuel s l xs h n m b =
      let (out, k, s1, passed, h1, p) =
        pass_walk less o fuel fuel s l [] xs 0 h (list_end_lem s l xs h) m m (omega arith) in
      let passed' : pass_loop less fuel fuel l (first xs (tail_of l)) 0 s ≡ some (k, s1) =
        passed ∙ ap (λ (j : ℕ). some (j, s1)) (omega arith) in
      elim (Bool-cases (ltb 1 k)) [
        | inl e ↦
            let (ys, s2, done, h2, ordered, together, same_length) =
              passes_walk turns fuel s1 l out h1 (omega (arith, p.few, p.half, n, ltb→lt 1 k e))
                (omega (arith, p.same_length)) (omega (arith, p.same_length)) in
            (
              ys,
              s2,
              rw (list_begin_lem s l xs h, passed', e) done,
              h2,
              ordered,
              (λ q. together q ∙ p.together q),
              same_length ∙ p.same_length,
            )
        | inr e ↦ (
          out,
          s1,
          rw (list_begin_lem s l xs h, passed', e) refl,
          h1,
          Ordered-of_runs less out (omega (arith, p.few, ltb→ge 1 k e)),
          p.together,
          p.same_length,
        )
      ]

-- list_sort() ends.
pub list_sort_lem :
    (less : ℕ → ℕ → Bool) (fuel : ℕ) (s : Links) (l : ℕ) (xs : List ℕ)
    → StrictWeak less
    → Holds s l xs
    → length xs < fuel
    → length xs < 2 ^ 32
    → (ys : List ℕ) × (s' : Links) × (list_sort less fuel l s ≡ some s')
      × Holds s' l ys
      × Ordered less ys
      × ((q : ℕ) → count q ys ≡ count q xs)
unfolding list_sort
list_sort_lem less fuel s l xs o h n b =
    let (ys, s', done, h', ordered, together, same_length) =
      passes_walk less o fuel fuel s l xs h (omega (arith, runs-le-length less xs)) n b in
    (
      ys,
      s',
      rw
          (
            Holds-ne s l xs h,
            done,
            list_begin_lem s' l ys h',
            list_end_lem s' l ys h',
            sorted_end less fuel s' l ys h' (omega (arith, same_length)) ordered,
          )
          refl,
      h',
      ordered,
      together,
    )
