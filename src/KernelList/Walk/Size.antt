-- ===== src/KernelList/Walk/Size.antt =====
-- lib/kernel/list.c: list_size().
use turbo_baker.Prelude.{
  ℕ, zero, suc, ◌+◌, ◌%◌, ◌^◌, ◌<◌, ◌≡◌, ap, ◌∙◌, some, List, [], ◌∷◌, ◌++◌, arith, ==_refl, length,
}
use turbo_baker.KernelList.{Links, tail_of}
use turbo_baker.KernelList.Chain.{first, Holds}
use turbo_baker.KernelList.Ends.{tail_ne, list_begin_lem, list_end_lem}
use turbo_baker.KernelList.Steps.{next_at, shift_at}
use turbo_baker.KernelList.Walk.{size_loop, list_size}

size_walk :
    (fuel : ℕ) (s : Links) (l : ℕ) (ws ys : List ℕ) (cnt : ℕ)
    → Holds s l (ws ++ ys)
    → length ys < fuel
    → cnt + length ys < 2 ^ 32
    → size_loop fuel s (tail_of l) (first ys (tail_of l)) cnt ≡ some (cnt + length ys)
unfolding size_loop
size_walk zero s l ws ys cnt h n k = absurd (omega arith)
size_walk (suc fuel) s l ws [] cnt h n k = rw (==_refl (tail_of l)) (ap some (omega arith))
size_walk (suc fuel) s l ws (y ∷ ys) cnt h n k =
    let small : (cnt + 1) % 2 ^ 32 ≡ cnt + 1 = omega arith in
    rw (tail_ne s l ws y ys h, next_at s l ws y ys h, small)
      (size_walk fuel s l (ws ++ (y ∷ [])) ys (cnt + 1) (shift_at s l ws y ys h) (omega arith)
          (omega arith)
        ∙ ap some (omega arith))

-- list_size() ends, and returns the number of elements.
pub list_size_lem :
    (fuel : ℕ) (s : Links) (l : ℕ) (xs : List ℕ)
    → Holds s l xs
    → length xs < fuel
    → length xs < 2 ^ 32
    → list_size fuel l s ≡ some (length xs)
unfolding list_size
list_size_lem fuel s l xs h n k =
    rw (list_begin_lem s l xs h, list_end_lem s l xs h)
      (size_walk fuel s l [] xs 0 h n (omega arith) ∙ ap some (omega arith))
