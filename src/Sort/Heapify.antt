-- ===== src/Sort/Heapify.antt =====
-- lib/stdlib.c: heapify() on an array in memory.
use turbo_baker.Prelude.{
  ℕ, zero, suc, ◌+◌, ◌*◌, ◌%◌, ◌^◌, ◌≤◌, ◌<◌, ◌≡◌, refl, ◌∙◌, subst, ◌≢◌, ◌⊎◌, inl, inr, false,
  some, arith, ◌==◌, ==→eq, ==→ne, ==_refl, Bool-cases, Mem, within,
}
use turbo_baker.Str.Block.{Cmp}
use turbo_baker.Sort.{Element, do_swap, do_compare, max_of, heapify}
use turbo_baker.Sort.Swap.{view, do_swap-Exchanged, do_swap-outside}
use turbo_baker.Sort.Heap.{
  IsOrder, Shuffled, exchange, Child, HeapBut, Heap, pick, Largest, pick-Largest,
}
use turbo_baker.Sort.Sift.{sift-HeapBut, settled-Heap, at_other}

-- What a call leaves behind when it works on the first `cnt` of `n` elements: they are exchanged
-- among each other, and all else in memory is as it was.
pub record Rearranged (array size n cnt : ℕ) (m m' : Mem) : Type 0 where
  pub shuffled :
      (v : ℕ → Element) → Shuffled n v (view m array size) → Shuffled n v (view m' array size)
  pub shuffled_cnt :
      (v : ℕ → Element) → Shuffled cnt v (view m array size) → Shuffled cnt v (view m' array size)
  pub behind : (j : ℕ) → 0 < j → cnt < j → view m' array size j ≡ view m array size j
  pub outside : (y : ℕ) → within array (n * size) y ≡ false → m' y ≡ m y

pub Rearranged-refl : (array size n cnt : ℕ) (m : Mem) → Rearranged array size n cnt m m
Rearranged-refl array size n cnt m = record {
  shuffled = λ v s. s;
  shuffled_cnt = λ v s. s;
  behind = λ j p l. refl;
  outside = λ y o. refl;
}

pub Rearranged-trans :
    {array size n cnt : ℕ} {m m' m'' : Mem}
    → Rearranged array size n cnt m m'
    → Rearranged array size n cnt m' m''
    → Rearranged array size n cnt m m''
Rearranged-trans r s = record {
  shuffled = λ v x. s.shuffled v (r.shuffled v x);
  shuffled_cnt = λ v x. s.shuffled_cnt v (r.shuffled_cnt v x);
  behind = λ j p l. s.behind j p l ∙ r.behind j p l;
  outside = λ y o. s.outside y o ∙ r.outside y o;
}

pub do_swap-Rearranged :
    (m : Mem) (array a b size n cnt : ℕ)
    → 0 < a
    → a ≤ cnt
    → 0 < b
    → b ≤ cnt
    → cnt ≤ n
    → a ≢ b
    → Rearranged array size n cnt m (do_swap m array a b size)
do_swap-Rearranged m array a b size n cnt pa la pb lb le ne =
    let x = do_swap-Exchanged m array a b size pa pb ne in
    record {
      shuffled = λ v s. exchange a b pa (omega arith) pb (omega arith) s x;
      shuffled_cnt = λ v s. exchange a b pa la pb lb s x;
      behind = λ j p l.
          at_other (view m array size) (view (do_swap m array a b size) array size) a b x pa pb j p
            (omega arith) (omega arith);
      outside = λ y o. do_swap-outside m array a b size n y pa (omega arith) pb (omega arith) o;
    }

module _ (compare : Element → Element → Cmp) (o : IsOrder compare) (array size n : ℕ) where
  max_of-pick :
      (m : Mem) (i cnt : ℕ)
      → 2 * i + 1 < 2 ^ 32
      → max_of compare array size m i cnt ≡ pick compare (view m array size) i cnt
  unfolding max_of do_compare pick
  max_of-pick m i cnt h =
      let l : 2 * i % 2 ^ 32 ≡ 2 * i = omega arith in
      let r : (2 * i + 1) % 2 ^ 32 ≡ 2 * i + 1 = omega arith in rw (l, r) refl

  heapify-stop :
      (limit : ℕ) (m : Mem) (i cnt : ℕ)
      → max_of compare array size m i cnt ≡ i
      → heapify compare array size (suc limit) m i cnt ≡ some m
  unfolding heapify
  heapify-stop limit m i cnt e = rw e rw (==_refl i) refl

  heapify-go :
      (limit : ℕ) (m : Mem) (i cnt mx : ℕ)
      → max_of compare array size m i cnt ≡ mx
      → (mx == i) ≡ false
      → heapify compare array size (suc limit) m i cnt
        ≡ heapify compare array size limit (do_swap m array i mx size) mx cnt
  unfolding heapify
  heapify-go limit m i cnt mx e ne = rw e rw ne refl

  place-Child :
      (i cnt mx : ℕ)
      → (mx ≡ i) ⊎ (Child compare mx i × (mx ≤ cnt))
      → mx ≢ i
      → Child compare mx i × (mx ≤ cnt)
  place-Child i cnt mx (inl e) ne = absurd (ne e)
  place-Child i cnt mx (inr h) ne = h

  pub heapify_lem :
      (limit : ℕ) (m : Mem) (lo i cnt : ℕ)
      → 0 < lo
      → lo ≤ i
      → i ≤ cnt
      → cnt ≤ n
      → cnt < i + limit
      → n < 2 ^ 31
      → HeapBut compare (view m array size) lo i cnt
      → (m' : Mem) × (heapify compare array size limit m i cnt ≡ some m')
        × Heap compare (view m' array size) lo cnt
        × Rearranged array size n cnt m m'
  heapify_lem zero m lo i cnt a b c d e f h = absurd (omega arith)
  heapify_lem (suc limit) m lo i cnt a b c d e f h =
      let l = pick-Largest compare o (view m array size) i cnt in
      let mx = pick compare (view m array size) i cnt in
      let picked : max_of compare array size m i cnt ≡ mx = max_of-pick m i cnt (omega arith) in
      elim (Bool-cases (mx == i)) [
        | inl stays ↦
            let at : mx ≡ i = ==→eq mx i stays in
            (
              m,
              heapify-stop limit m i cnt (picked ∙ at),
              settled-Heap compare h (subst (Largest compare (view m array size) i cnt) at l),
              Rearranged-refl array size n cnt m,
            )
        | inr moves ↦
            let (child, inside) = place-Child i cnt mx l.place (==→ne mx i moves) in
            let x =
              do_swap-Exchanged m array i mx size (omega arith) (omega (arith, child))
                (omega (arith, child)) in
            let (m', r, heap, re) =
              heapify_lem limit (do_swap m array i mx size) lo mx cnt a (omega (arith, child))
                inside d (omega (arith, child)) f (sift-HeapBut compare h l child inside x b a) in
            (
              m',
              heapify-go limit m i cnt mx picked moves ∙ r,
              heap,
              Rearranged-trans
                  (do_swap-Rearranged m array i mx size n cnt (omega arith) c (omega (arith, child))
                    inside d (omega (arith, child)))
                  re,
            )
      ]
