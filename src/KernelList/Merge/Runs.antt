-- ===== src/KernelList/Merge/Runs.antt =====
-- lib/kernel/list.c: is_sorted() and find_end_of_run() on a range of a list.
use turbo_baker.Prelude.{
  ℕ, zero, suc, ◌+◌, ◌≤◌, ◌<◌, ◌≡◌, refl, sym, ap, subst, inl, inr, Bool, true, some, List, [], ◌∷◌,
  ◌++◌, arith, if◌then◌else◌, ne→==, ==_refl, Bool-cases, length,
}
use mathlib.Core.List.{append_assoc}
use turbo_baker.KernelList.{Links, tail_of}
use turbo_baker.KernelList.Chain.{first, Linked, Holds}
use turbo_baker.KernelList.Positions.{before_IsPlaced}
use turbo_baker.KernelList.Splice.{first_ne_end}
use turbo_baker.KernelList.Steps.{list_next_lem, list_prev_lem}
use turbo_baker.KernelList.Less.{Ordered}
use turbo_baker.KernelList.Merge.{sorted_loop, is_sorted, run_loop, find_end_of_run}

pub shift_Linked :
    (s : Links) (a : ℕ) (ws : List ℕ) (x : ℕ) (r : List ℕ)
    → Linked s a (ws ++ (x ∷ r))
    → Linked s a ((ws ++ (x ∷ [])) ++ r)
shift_Linked s a ws x r h =
    subst (λ (v : List ℕ). Linked s a v) (sym (append_assoc ws (x ∷ []) r)) h

module _ (less : ℕ → ℕ → Bool) where
  -- How many elements are less than the one in front of them, and the number of runs.
  pub descents : ℕ → List ℕ → ℕ
  descents x [] = 0
  descents x (y ∷ ys) = (if less y x then 1 else 0) + descents y ys

  pub runs : List ℕ → ℕ
  runs [] = 0
  runs (x ∷ xs) = suc (descents x xs)

  sorted_walk :
      (fuel : ℕ) (s : Links) (a : ℕ) (ws : List ℕ) (x : ℕ) (ys : List ℕ) (c : ℕ) (zs : List ℕ)
      → Linked s a (ws ++ (x ∷ (ys ++ (c ∷ zs))))
      → length ys < fuel
      → Ordered less (x ∷ ys)
      → sorted_loop less fuel s x c ≡ some true
  unfolding sorted_loop
  sorted_walk zero s a ws x ys c zs h n o = absurd (omega arith)
  sorted_walk (suc fuel) s a ws x [] c zs h n o = rw (list_next_lem s a ws x c zs h, ==_refl c) refl
  sorted_walk (suc fuel) s a ws x (y ∷ ys) c zs h n (b, o) =
      let moved = shift_Linked s a ws x (y ∷ (ys ++ (c ∷ zs))) h in
      rw
        (
          list_next_lem s a ws x y (ys ++ (c ∷ zs)) h,
          first_ne_end s a (ws ++ (x ∷ [])) y ys c zs moved,
          list_prev_lem s a ws x y (ys ++ (c ∷ zs)) h,
          b,
        )
        (sorted_walk fuel s a (ws ++ (x ∷ [])) y ys c zs moved (omega arith) o)

  pub is_sorted_lem :
      (fuel : ℕ) (s : Links) (a : ℕ) (ws : List ℕ) (x : ℕ) (ys : List ℕ) (c : ℕ) (zs : List ℕ)
      → Linked s a (ws ++ (x ∷ (ys ++ (c ∷ zs))))
      → length ys < fuel
      → Ordered less (x ∷ ys)
      → is_sorted less fuel s x c ≡ some true
  unfolding is_sorted
  is_sorted_lem fuel s a ws x ys c zs h n o =
      rw (first_ne_end s a ws x ys c zs h) (sorted_walk fuel s a ws x ys c zs h n o)

  -- The elements of a longest run from `x` on are `x` and `us`; `vs` stands behind.
  pub record IsRun (x : ℕ) (us vs : List ℕ) : Type 0 where
    pub ordered : Ordered less (x ∷ us)
    pub counted : runs (x ∷ (us ++ vs)) ≡ suc (runs vs)

  IsRun-walk :
      (fuel : ℕ) (s : Links) (a : ℕ) (ws : List ℕ) (x : ℕ) (ys : List ℕ) (c : ℕ) (zs : List ℕ)
      → Linked s a (ws ++ (x ∷ (ys ++ (c ∷ zs))))
      → length ys < fuel
      → (us : List ℕ) × (vs : List ℕ) × (ys ≡ us ++ vs)
        × IsRun x us vs
        × (run_loop less fuel s x c ≡ some (first vs c))
  unfolding run_loop descents runs
  IsRun-walk zero s a ws x ys c zs h n = absurd (omega arith)
  IsRun-walk (suc fuel) s a ws x [] c zs h n = (
    [],
    [],
    refl,
    record { ordered = (tt, tt); counted = refl },
    rw (list_next_lem s a ws x c zs h, ==_refl c) refl,
  )
  IsRun-walk (suc fuel) s a ws x (y ∷ ys) c zs h n =
      let moved = shift_Linked s a ws x (y ∷ (ys ++ (c ∷ zs))) h in
      let at = list_next_lem s a ws x y (ys ++ (c ∷ zs)) h in
      let ne = first_ne_end s a (ws ++ (x ∷ [])) y ys c zs moved in
      let before = list_prev_lem s a ws x y (ys ++ (c ∷ zs)) h in
      elim (Bool-cases (less y x)) [
        | inl e ↦ (
          [],
          y ∷ ys,
          refl,
          record { ordered = (tt, tt); counted = rw e (omega arith) },
          rw (at, ne, before, e) refl,
        )
        | inr e ↦
            let (us, vs, parts, run, found) =
              IsRun-walk fuel s a (ws ++ (x ∷ [])) y ys c zs moved (omega arith) in
            (
              y ∷ us,
              vs,
              ap (λ (r : List ℕ). y ∷ r) parts,
              record { ordered = (e, run.ordered); counted = rw e (omega (arith, run.counted)) },
              rw (at, ne, before, e) found,
            )
      ]

  pub find_end_of_run_lem :
      (fuel : ℕ) (s : Links) (a : ℕ) (ws : List ℕ) (x : ℕ) (ys : List ℕ) (c : ℕ) (zs : List ℕ)
      → Linked s a (ws ++ (x ∷ (ys ++ (c ∷ zs))))
      → length ys < fuel
      → (us : List ℕ) × (vs : List ℕ) × (ys ≡ us ++ vs)
        × IsRun x us vs
        × (find_end_of_run less fuel s x c ≡ some (first vs c))
  unfolding find_end_of_run
  find_end_of_run_lem fuel s a ws x ys c zs h n =
      let (us, vs, parts, run, found) = IsRun-walk fuel s a ws x ys c zs h n in
      let whole = append_assoc ws (x ∷ ys) (c ∷ zs) in
      let x_ne = (before_IsPlaced s a ws x (ys ++ (c ∷ zs)) h).1 in
      let c_ne =
        (before_IsPlaced s a (ws ++ (x ∷ ys)) c zs
          (subst (λ (v : List ℕ). Linked s a v) (sym whole) h)).1 in
      (
        us,
        vs,
        parts,
        run,
        rw (ne→== x 0 x_ne, ne→== c 0 c_ne, first_ne_end s a ws x ys c zs h) found,
      )

  pub runs-append : (xs ys : List ℕ) → runs (xs ++ ys) ≤ runs xs + runs ys
  unfolding runs descents
  runs-append [] ys = omega arith
  runs-append (x ∷ []) [] = omega arith
  runs-append (x ∷ []) (y ∷ ys) = ground arith
  runs-append (x ∷ (x' ∷ xs)) ys = omega (arith, runs-append (x' ∷ xs) ys)

  pub runs-Ordered : (xs : List ℕ) → Ordered less xs → runs xs ≤ 1
  unfolding runs descents
  runs-Ordered [] o = omega arith
  runs-Ordered (x ∷ []) o = omega arith
  runs-Ordered (x ∷ (y ∷ xs)) (b, o) = rw b (omega (arith, runs-Ordered (y ∷ xs) o))

  pub Ordered-of_runs : (xs : List ℕ) → runs xs ≤ 1 → Ordered less xs
  unfolding runs descents
  Ordered-of_runs [] n = tt
  Ordered-of_runs (x ∷ []) n = (tt, tt)
  Ordered-of_runs (x ∷ (y ∷ xs)) n = (ground arith, Ordered-of_runs (y ∷ xs) (ground arith))

  pub runs-nil : runs [] ≤ 0
  unfolding runs
  runs-nil = omega arith

  pub runs-le-length : (xs : List ℕ) → runs xs ≤ length xs
  unfolding runs descents
  runs-le-length [] = omega arith
  runs-le-length (x ∷ []) = omega arith
  runs-le-length (x ∷ (y ∷ xs)) = ground (arith, runs-le-length (y ∷ xs))

  -- is_sorted() on the whole list.
  pub sorted_end :
      (fuel : ℕ) (s : Links) (l : ℕ) (xs : List ℕ)
      → Holds s l xs
      → length xs < fuel
      → Ordered less xs
      → is_sorted less fuel s (first xs (tail_of l)) (tail_of l) ≡ some true
  unfolding is_sorted
  sorted_end fuel s l [] h n o = rw (==_refl (tail_of l)) refl
  sorted_end fuel s l (x ∷ xs) h n o =
      is_sorted_lem fuel s l [] x xs (tail_of l) [] h (omega arith) o
