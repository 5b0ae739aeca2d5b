-- ===== src/KernelList/Merge.antt =====
-- lib/kernel/list.c: list_sort(), a natural merge sort in place, and its parts. Each loop takes
-- the same fuel, one unit for a turn.
pub mod Runs
pub mod Merged
pub mod Passes
pub mod Sorting
use turbo_baker.Prelude.{
  ℕ, zero, suc, ◌+◌, ◌%◌, ◌^◌, Bool, true, false, not, ◌&&◌, Option, none, some, ltb, ◌==◌,
  if◌then◌else◌, ◌>>=◌,
}
use turbo_baker.Bitmap.{assert}
use turbo_baker.KernelList.{Links, list_begin, list_next, list_prev, list_end, list_splice}

module _ (less : ℕ → ℕ → Bool) where
  pub sorted_loop : (fuel : ℕ) → Links → (a b : ℕ) → Option Bool
  sorted_loop zero s a b = none
  sorted_loop (suc fuel) s a b = list_next a s >>= λ a'.
      let more =
        (list_prev a' s >>= λ p.
        let rest = sorted_loop fuel s a' b in if less a' p then some false else rest) in
      if a' == b then some true else more

  pub is_sorted : (fuel : ℕ) → Links → (a b : ℕ) → Option Bool
  is_sorted fuel s a b = if not (a == b) then sorted_loop fuel s a b else some true

  pub run_loop : (fuel : ℕ) → Links → (a b : ℕ) → Option ℕ
  run_loop zero s a b = none
  run_loop (suc fuel) s a b = list_next a s >>= λ a'.
      let more =
        (list_prev a' s >>= λ p.
        let rest = run_loop fuel s a' b in if not (less a' p) then rest else some a') in
      if a' == b then some a' else more

  pub find_end_of_run : (fuel : ℕ) → Links → (a b : ℕ) → Option ℕ
  find_end_of_run fuel s a b =
      assert (not (a == 0)) (assert (not (b == 0)) (assert (not (a == b)) (run_loop fuel s a b)))

  pub merge_loop : (fuel : ℕ) → (a0 a1b0 b1 : ℕ) → Links → Option Links
  merge_loop zero a0 a1b0 b1 s = none
  merge_loop (suc fuel) a0 a1b0 b1 s =
      let stay = (list_next a0 s >>= λ a0'. merge_loop fuel a0' a1b0 b1 s) in
      let move =
        (list_next a1b0 s >>= λ a1b0'. list_prev a1b0' s >>= λ moved.
        list_splice a0 moved a1b0' s >>= λ s'. merge_loop fuel a0 a1b0' b1 s') in
      if not (a0 == a1b0) && not (a1b0 == b1)
      then (if not (less a1b0 a0) then stay else move)
      else some s

  pub inplace_merge : (fuel : ℕ) → (a0 a1b0 b1 : ℕ) → Links → Option Links
  inplace_merge fuel a0 a1b0 b1 s = assert (not (a0 == 0)) (
      assert (not (a1b0 == 0)) (
        assert (not (b1 == 0)) (
          is_sorted fuel s a0 a1b0 >>= λ first_sorted. assert first_sorted (
            is_sorted fuel s a1b0 b1 >>= λ second_sorted.
            assert second_sorted (merge_loop fuel a0 a1b0 b1 s)))))

  -- A pass over the list; it returns the number of runs that it has left.
  pub pass_loop : (turns fuel : ℕ) → (l a0 output_run_cnt : ℕ) → Links → Option (ℕ × Links)
  pass_loop zero fuel l a0 output_run_cnt s = none
  pass_loop (suc turns) fuel l a0 output_run_cnt s = list_end l >>= λ end_.
      let cnt = (output_run_cnt + 1) % 2 ^ 32 in
      let turn =
        (find_end_of_run fuel s a0 end_ >>= λ a1b0.
        let merge =
          (find_end_of_run fuel s a1b0 end_ >>= λ b1.
          inplace_merge fuel a0 a1b0 b1 s >>= λ s'. pass_loop turns fuel l b1 cnt s') in
        if a1b0 == end_ then some (cnt, s) else merge) in
      if a0 == end_ then some (output_run_cnt, s) else turn

  pub passes : (turns fuel : ℕ) → ℕ → Links → Option Links
  passes zero fuel l s = none
  passes (suc turns) fuel l s = list_begin l s >>= λ a0. pass_loop fuel fuel l a0 0 s >>= λ r.
      let again = passes turns fuel l r.1 in if ltb 1 r.0 then again else some r.1

  pub list_sort : (fuel : ℕ) → ℕ → Links → Option Links
  list_sort fuel l s = assert (not (l == 0)) (
      passes fuel fuel l s >>= λ s'. list_begin l s' >>= λ b.
      list_end l >>= λ end_. is_sorted fuel s' b end_ >>= λ sorted. assert sorted (some s'))
