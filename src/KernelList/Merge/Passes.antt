-- ===== src/KernelList/Merge/Passes.antt =====
-- lib/kernel/list.c: a pass of list_sort() over the list.
use turbo_baker.Prelude.{
  ℕ, zero, suc, ◌+◌, ◌%◌, ◌^◌, ◌≤◌, ◌<◌, ◌≡◌, refl, sym, ap, ◌∙◌, subst, Bool, false, some, List,
  [], ◌∷◌, ◌++◌, arith, ◌==◌, ==_refl, length, length-append, count, count-append,
}
use mathlib.Core.List.{append_assoc}
use turbo_baker.KernelList.{Links, tail_of, list_end}
use turbo_baker.KernelList.Chain.{first, Linked}
use turbo_baker.KernelList.Splice.{first_ne_end}
use turbo_baker.KernelList.Less.{StrictWeak}
use turbo_baker.KernelList.Merge.{find_end_of_run, inplace_merge, pass_loop}
use turbo_baker.KernelList.Merge.Runs.{
  runs, runs-nil, IsRun, find_end_of_run_lem, runs-append, runs-Ordered,
}
use turbo_baker.KernelList.Merge.Merged.{
  behind, first-behind, merge, count-merge, length-merge, merge-Ordered, inplace_merge_lem,
}

module _ (less : ℕ → ℕ → Bool) (o : StrictWeak less) where
  -- `out` is a rearrangement of `before`, in at most `k` runs, and `k` is about half of those before.
  pub record IsPass (before out : List ℕ) (k : ℕ) : Type 0 where
    pub together : (q : ℕ) → count q out ≡ count q before
    pub same_length : length out ≡ length before
    pub few : runs less out ≤ k
    pub half : k + k ≤ runs less before + 1

  abbrev pub Passed : (turns fuel : ℕ) → Links → ℕ → List ℕ → List ℕ → ℕ → Type 0
  Passed turns fuel s l ws before cnt =
      (out : List ℕ) × (k : ℕ) × (s' : Links) × (pass_loop less turns fuel l
          (first before (tail_of l)) cnt s
        ≡ some (cnt + k, s'))
      × Linked s' l (ws ++ (out ++ (tail_of l ∷ [])))
      × IsPass before out k

  abbrev pub PassSpec : ℕ → Type 0
  PassSpec turns =
      (fuel : ℕ) (s : Links) (l : ℕ) (ws before : List ℕ) (cnt : ℕ)
      → Linked s l (ws ++ (before ++ (tail_of l ∷ [])))
      → list_end l ≡ some (tail_of l)
      → length before < turns
      → length before < fuel
      → cnt + length before < 2 ^ 32
      → Passed turns fuel s l ws before cnt

  IsPass-merge :
      (x : ℕ) (us : List ℕ) (v : ℕ) (us' vs' out : List ℕ) (k : ℕ)
      → IsRun less x us (v ∷ (us' ++ vs'))
      → IsRun less v us' vs'
      → IsPass vs' out k
      → IsPass (x ∷ (us ++ (v ∷ (us' ++ vs')))) (merge less (x ∷ us) (v ∷ us') ++ out) (suc k)
  IsPass-merge x us v us' vs' out k r1 r2 p =
      let m = merge less (x ∷ us) (v ∷ us') in
      record {
        together = λ q. omega (
          arith,
          p.together q,
          count-append q m out,
          count-merge less q (x ∷ us) (v ∷ us'),
          count-append q us (v ∷ (us' ++ vs')),
          count-append q us' vs',
        );
        same_length = omega (
          arith,
          p.same_length,
          length-append m out,
          length-merge less (x ∷ us) (v ∷ us'),
          length-append us (v ∷ (us' ++ vs')),
          length-append us' vs',
        );
        few = omega (
          arith,
          p.few,
          runs-append less m out,
          runs-Ordered less m (merge-Ordered less o (x ∷ us) (v ∷ us') r1.ordered r2.ordered),
        );
        half = omega (arith, p.half, r1.counted, r2.counted);
      }

  suc-out : (cnt k : ℕ) → cnt + suc k ≡ cnt + 1 + k
  suc-out cnt k = omega arith

  two_step :
      (turns fuel : ℕ) (s : Links) (l x v c cnt : ℕ) (s1 : Links)
      → cnt + 1 < 2 ^ 32
      → list_end l ≡ some (tail_of l)
      → (x == tail_of l) ≡ false
      → find_end_of_run less fuel s x (tail_of l) ≡ some v
      → (v == tail_of l) ≡ false
      → find_end_of_run less fuel s v (tail_of l) ≡ some c
      → inplace_merge less fuel x v c s ≡ some s1
      → pass_loop less (suc turns) fuel l x cnt s ≡ pass_loop less turns fuel l c (cnt + 1) s1
  unfolding pass_loop
  two_step turns fuel s l x v c cnt s1 b e x_ne f1 v_ne f2 merged =
      let wrap : (cnt + 1) % 2 ^ 32 ≡ cnt + 1 = omega arith in
      rw (e, x_ne, f1, v_ne, f2, merged, wrap) refl

  -- A turn that finds two runs.
  pass_two :
      (turns fuel : ℕ) (s : Links) (l : ℕ) (ws : List ℕ) (x : ℕ) (us : List ℕ) (v : ℕ)
      (us' vs' : List ℕ) (cnt : ℕ)
      → PassSpec turns
      → Linked s l (ws ++ ((x ∷ (us ++ (v ∷ (us' ++ vs')))) ++ (tail_of l ∷ [])))
      → list_end l ≡ some (tail_of l)
      → length (x ∷ (us ++ (v ∷ (us' ++ vs')))) < suc turns
      → length (x ∷ (us ++ (v ∷ (us' ++ vs')))) < fuel
      → cnt + length (x ∷ (us ++ (v ∷ (us' ++ vs')))) < 2 ^ 32
      → (find_end_of_run less fuel s x (tail_of l) ≡ some v)
      → (find_end_of_run less fuel s v (tail_of l) ≡ some (first vs' (tail_of l)))
      → IsRun less x us (v ∷ (us' ++ vs'))
      → IsRun less v us' vs'
      → Passed (suc turns) fuel s l ws (x ∷ (us ++ (v ∷ (us' ++ vs')))) cnt
  pass_two turns fuel s l ws x us v us' vs' cnt ih h e n m b f1 f2 r1 r2 =
      let t = tail_of l in
      let h0 : Linked s l (ws ++ (x ∷ (us ++ (v ∷ (us' ++ (vs' ++ (t ∷ []))))))) =
        subst (λ (r : List ℕ). Linked s l (ws ++ (x ∷ r)))
          (append_assoc us (v ∷ (us' ++ vs')) (t ∷ [])
            ∙ ap (λ (r : List ℕ). us ++ (v ∷ r)) (append_assoc us' vs' (t ∷ [])))
          h in
      let at_v =
        subst (λ (r : List ℕ). Linked s l r)
          (sym (append_assoc ws (x ∷ us) (v ∷ (us' ++ (vs' ++ (t ∷ [])))))) h0 in
      let x_ne = first_ne_end s l ws x (us ++ (v ∷ (us' ++ vs'))) t [] h in
      let v_ne = first_ne_end s l (ws ++ (x ∷ us)) v (us' ++ vs') t [] (
        subst (λ (r : List ℕ). Linked s l ((ws ++ (x ∷ us)) ++ (v ∷ r)))
          (sym (append_assoc us' vs' (t ∷ []))) at_v) in
      let split = first-behind vs' t [] in
      let c = first vs' t in
      let zs = behind vs' [] t in
      let (s1, merged, h1) =
        inplace_merge_lem less fuel s l ws x us v us' c zs
          (subst (λ (r : List ℕ). Linked s l (ws ++ (x ∷ (us ++ (v ∷ (us' ++ r)))))) split h0)
          (omega (arith, length-append us (v ∷ (us' ++ vs')), length-append us' vs')) r1.ordered
          r2.ordered in
      let ms = merge less (x ∷ us) (v ∷ us') in
      let h2 =
        subst (λ (r : List ℕ). Linked s1 l r) (sym (append_assoc ws ms (vs' ++ (t ∷ []))))
          (subst (λ (r : List ℕ). Linked s1 l (ws ++ (ms ++ r))) (sym split) h1) in
      let (out, k, s2, passed, h3, p) =
        ih fuel s1 l (ws ++ ms) vs' (cnt + 1) h2 e
          (omega (arith, length-append us (v ∷ (us' ++ vs')), length-append us' vs'))
          (omega (arith, length-append us (v ∷ (us' ++ vs')), length-append us' vs'))
          (omega (arith, length-append us (v ∷ (us' ++ vs')), length-append us' vs')) in
      (
        ms ++ out,
        suc k,
        s2,
        two_step turns fuel s l x v c cnt s1 (omega (arith, b)) e x_ne f1 v_ne f2 merged
            ∙ (passed ∙ ap (λ (j : ℕ). some (j, s2)) (sym (suc-out cnt k))),
        subst (λ (r : List ℕ). Linked s2 l r)
            (append_assoc ws ms (out ++ (t ∷ []))
              ∙ ap (λ (r : List ℕ). ws ++ r) (sym (append_assoc ms out (t ∷ []))))
            h3,
        IsPass-merge x us v us' vs' out k r1 r2 p,
      )

  -- A turn from `x`, where a run of `x` and `us` ends at `vs`.
  pass_turn :
      (turns fuel : ℕ) (s : Links) (l : ℕ) (ws : List ℕ) (x : ℕ) (us vs : List ℕ) (cnt : ℕ)
      → PassSpec turns
      → Linked s l (ws ++ ((x ∷ (us ++ vs)) ++ (tail_of l ∷ [])))
      → list_end l ≡ some (tail_of l)
      → length (x ∷ (us ++ vs)) < suc turns
      → length (x ∷ (us ++ vs)) < fuel
      → cnt + length (x ∷ (us ++ vs)) < 2 ^ 32
      → find_end_of_run less fuel s x (tail_of l) ≡ some (first vs (tail_of l))
      → IsRun less x us vs
      → Passed (suc turns) fuel s l ws (x ∷ (us ++ vs)) cnt
  unfolding pass_loop
  pass_turn turns fuel s l ws x us [] cnt ih h e n m b f r = (
    x ∷ (us ++ []),
    1,
    s,
    rw (e, first_ne_end s l ws x (us ++ []) (tail_of l) [] h, f, ==_refl (tail_of l))
        (ap (λ (j : ℕ). some (j, s)) (omega arith)),
    h,
    record {
      together = λ q. refl;
      same_length = refl;
      few = ground (arith, r.counted, runs-nil less);
      half = ground (arith, r.counted, runs-nil less);
    },
  )
  pass_turn turns fuel s l ws x us (v ∷ vs) cnt ih h e n m b f r =
      let t = tail_of l in
      let at_v : Linked s l ((ws ++ (x ∷ us)) ++ (v ∷ (vs ++ (t ∷ [])))) =
        subst (λ (r : List ℕ). Linked s l r)
          (ap (λ (r : List ℕ). ws ++ (x ∷ r)) (append_assoc us (v ∷ vs) (t ∷ []))
            ∙ sym (append_assoc ws (x ∷ us) (v ∷ (vs ++ (t ∷ [])))))
          h in
      let (us', vs', parts, r', f') =
        find_end_of_run_lem less fuel s l (ws ++ (x ∷ us)) v vs t [] at_v
          (omega (arith, length-append us (v ∷ vs))) in
      subst
        (λ (r : List ℕ).
          Linked s l (ws ++ ((x ∷ (us ++ (v ∷ r))) ++ (tail_of l ∷ [])))
          → length (x ∷ (us ++ (v ∷ r))) < suc turns
          → length (x ∷ (us ++ (v ∷ r))) < fuel
          → cnt + length (x ∷ (us ++ (v ∷ r))) < 2 ^ 32
          → IsRun less x us (v ∷ r)
          → Passed (suc turns) fuel s l ws (x ∷ (us ++ (v ∷ r))) cnt)
        (sym parts)
        (λ h' n' m' b' r1.
          pass_two turns fuel s l ws x us v us' vs' cnt ih h' e n' m' b' f f' r1 r')
        h n m b r

  pub pass_walk : (turns : ℕ) → PassSpec turns
  unfolding pass_loop
  pass_walk zero fuel s l ws before cnt h e n m b = absurd (omega arith)
  pass_walk (suc turns) fuel s l ws [] cnt h e n m b = (
    [],
    0,
    s,
    rw (e, ==_refl (tail_of l)) (ap (λ (j : ℕ). some (j, s)) (omega arith)),
    h,
    record {
      together = λ q. refl;
      same_length = refl;
      few = runs-nil less;
      half = omega (arith, runs-nil less);
    },
  )
  pass_walk (suc turns) fuel s l ws (x ∷ ys) cnt h e n m b =
      let (us, vs, parts, r, f) =
        find_end_of_run_lem less fuel s l ws x ys (tail_of l) [] h (omega arith) in
      subst
        (λ (r : List ℕ).
          Linked s l (ws ++ ((x ∷ r) ++ (tail_of l ∷ [])))
          → length (x ∷ r) < suc turns
          → length (x ∷ r) < fuel
          → cnt + length (x ∷ r) < 2 ^ 32
          → Passed (suc turns) fuel s l ws (x ∷ r) cnt)
        (sym parts)
        (λ h' n' m' b'. pass_turn turns fuel s l ws x us vs cnt (pass_walk turns) h' e n' m' b' f r)
        h n m b
