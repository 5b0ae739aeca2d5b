-- ===== src/KernelList/Splice.antt =====
-- lib/kernel/list.c: list_splice(), within a list and from one list into another.
use turbo_baker.Prelude.{
  ℕ, ◌+◌, ◌≤◌, ◌≡◌, refl, sym, ap, ◌∙◌, subst, true, false, ◌||◌, some, List, [], ◌∷◌, ◌++◌, arith,
  ◌==◌, ne→==, count, count-append,
}
use mathlib.Core.List.{append_assoc}
use turbo_baker.KernelList.{
  Links, tail_of, detach, attach, is_interior, is_tail, list_prev, list_splice,
}
use turbo_baker.KernelList.Chain.{
  last, first, Distinct, Linked, Holds, SameOutside, count-head, count-last, last-append,
  Chain-split, Chain-frame,
}
use turbo_baker.KernelList.Positions.{
  rest, whole-split, last_ne, before_IsPlaced, before_lem, interior_lem, prev_last_ne,
}
use turbo_baker.KernelList.Detach.{detach-Linked, detach-SameOutside}
use turbo_baker.KernelList.Attach.{attach-Linked, attach-SameOutside}

-- Two chains have no element in common, nor has one of them an element twice.
abbrev pub Apart : List ℕ → List ℕ → Type 0
Apart zs ws = (q : ℕ) → count q zs + count q ws ≤ 1

pub Linked-frame :
    (s s' : Links) (a : ℕ) (ws zs : List ℕ)
    → SameOutside zs s s'
    → Apart zs (a ∷ ws)
    → Linked s a ws
    → Linked s' a ws
Linked-frame s s' a ws zs same ap' h = record {
  front = (same a (omega (arith, ap' a, count-head a ws))).0 ∙ h.front;
  back = (same (last a ws) (omega (arith, ap' (last a ws), count-last a ws))).1 ∙ h.back;
  linked =
      Chain-frame s s' a ws h.distinct (λ q k. (same q (omega (arith, ap' q, k))).0)
        (λ q k n. (same q (omega (arith, ap' q, k))).1) h.linked;
  distinct = h.distinct;
  no_null = h.no_null;
}

module _ (s : Links) (a : ℕ) (ws : List ℕ) (f : ℕ) (ms : List ℕ) (c : ℕ) (zs : List ℕ)
    (h : Linked s a (ws ++ (f ∷ (ms ++ (c ∷ zs))))) where
  first_interior : is_interior s f ≡ true
  first_interior = of_cases ms h
    where
      of_cases : (ms : List ℕ) → Linked s a (ws ++ (f ∷ (ms ++ (c ∷ zs)))) → is_interior s f ≡ true
      of_cases [] k = interior_lem s a ws f c zs k
      of_cases (m ∷ ms) k = interior_lem s a ws f m (ms ++ (c ∷ zs)) k

  shifted : (ws ++ (f ∷ ms)) ++ (c ∷ zs) ≡ ws ++ (f ∷ (ms ++ (c ∷ zs)))
  shifted = append_assoc ws (f ∷ ms) (c ∷ zs)

  at_last : Linked s a ((ws ++ (f ∷ ms)) ++ (c ∷ zs))
  at_last = subst (λ (r : List ℕ). Linked s a r) (sym shifted) h

  prev_end : list_prev c s ≡ some (last f ms)
  unfolding list_prev
  prev_end =
      rw
        (
          before_lem s a (ws ++ (f ∷ ms)) c zs at_last,
          (before_IsPlaced s a (ws ++ (f ∷ ms)) c zs at_last).0,
        )
        (ap some (last-append a ws f ms))

  last_interior : is_interior s (last f ms) ≡ true
  unfolding is_interior
  last_interior =
      let (l, (fn, fp, r)) = Chain-split s a ws (f ∷ (ms ++ (c ∷ zs))) h.linked in
      let (m, (cn, cp, z)) = Chain-split s f ms (c ∷ zs) r in
      let n : count 0 (last a ws ∷ (f ∷ ms)) ≡ 0 = ground (
        arith,
        h.no_null,
        last_ne s a ws (ground (arith, h.no_null, count-append 0 ws (f ∷ (ms ++ (c ∷ zs))))),
        count-append 0 ws (f ∷ (ms ++ (c ∷ zs))),
        count-append 0 ms (c ∷ zs),
      ) in
      ground (
        arith,
        last_ne s f ms (omega (arith, n)),
        prev_last_ne s (last a ws) f ms n (fn, fp, m),
        cn,
        (before_IsPlaced s a (ws ++ (f ∷ ms)) c zs at_last).1,
      )

  pub first_ne_end : (f == c) ≡ false
  first_ne_end = ne→== f c λ e. absurd (
      omega (
        arith,
        h.distinct f,
        count-append f ws (f ∷ (ms ++ (c ∷ zs))),
        count-append f ms (c ∷ zs),
        count-head f (ms ++ (c ∷ zs)),
        count-head c zs,
        ap (λ (y : ℕ). count y (c ∷ zs)) e,
      ))

  -- The assertions of list_splice() hold.
  pub list_splice-some :
      (b : ℕ)
      → (is_interior s b || is_tail s b) ≡ true
      → list_splice b f c s ≡ some (attach b f (last f ms) (detach f (last f ms) s))
  unfolding list_splice
  list_splice-some b e = rw (e, first_ne_end, prev_end, first_interior, last_interior) refl

-- From further back in the same list.
pub splice_back :
    (s : Links) (a : ℕ) (ws : List ℕ) (b : ℕ) (bs : List ℕ) (f : ℕ) (ms : List ℕ) (c : ℕ)
    (zs : List ℕ)
    → Linked s a (ws ++ (b ∷ (bs ++ (f ∷ (ms ++ (c ∷ zs))))))
    → (s' : Links) × (list_splice b f c s ≡ some s')
      × Linked s' a (ws ++ (f ∷ (ms ++ (b ∷ (bs ++ (c ∷ zs))))))
splice_back s a ws b bs f ms c zs h =
    let r = bs ++ (f ∷ (ms ++ (c ∷ zs))) in
    let vs = ws ++ (b ∷ bs) in
    let e1 : vs ++ (f ∷ (ms ++ (c ∷ zs))) ≡ ws ++ (b ∷ r) =
      append_assoc ws (b ∷ bs) (f ∷ (ms ++ (c ∷ zs))) in
    let e2 : vs ++ (c ∷ zs) ≡ ws ++ (b ∷ (bs ++ (c ∷ zs))) = append_assoc ws (b ∷ bs) (c ∷ zs) in
    let h1 = subst (λ (r : List ℕ). Linked s a r) (sym e1) h in
    let (done, m) = detach-Linked s a vs f ms c zs h1 in
    let s1 = detach f (last f ms) s in
    let h2 = subst (λ (r : List ℕ). Linked s1 a r) e2 done in
    let d : Distinct (a ∷ (ws ++ (f ∷ (ms ++ (b ∷ (bs ++ (c ∷ zs))))))) = λ q. omega (
      arith,
      h.distinct q,
      count-append q ws (b ∷ r),
      count-append q bs (f ∷ (ms ++ (c ∷ zs))),
      count-append q ms (c ∷ zs),
      count-append q ws (f ∷ (ms ++ (b ∷ (bs ++ (c ∷ zs))))),
      count-append q ms (b ∷ (bs ++ (c ∷ zs))),
      count-append q bs (c ∷ zs),
    ) in
    (
      attach b f (last f ms) s1,
      list_splice-some s a vs f ms c zs h1 b (before_lem s a ws b r h),
      attach-Linked s1 a ws f ms b (bs ++ (c ∷ zs)) h2 d m (
          omega (
            arith,
            h.no_null,
            count-append 0 ws (b ∷ r),
            count-append 0 bs (f ∷ (ms ++ (c ∷ zs))),
            count-append 0 ms (c ∷ zs),
          )),
    )

-- From one list into another one.
pub splice_across :
    (s : Links) (a : ℕ) (ws : List ℕ) (f : ℕ) (ms : List ℕ) (c : ℕ) (zs : List ℕ) (a' : ℕ)
    (vs : List ℕ) (b : ℕ) (us : List ℕ)
    → Linked s a (ws ++ (f ∷ (ms ++ (c ∷ zs))))
    → Linked s a' (vs ++ (b ∷ us))
    → Apart (a ∷ (ws ++ (f ∷ (ms ++ (c ∷ zs))))) (a' ∷ (vs ++ (b ∷ us)))
    → (s' : Links) × (list_splice b f c s ≡ some s')
      × Linked s' a (ws ++ (c ∷ zs))
      × Linked s' a' (vs ++ (f ∷ (ms ++ (b ∷ us))))
splice_across s a ws f ms c zs a' vs b us h k p =
    let s1 = detach f (last f ms) s in
    let s2 = attach b f (last f ms) s1 in
    let (done, m) = detach-Linked s a ws f ms c zs h in
    let wide : (q : ℕ)
        → count q (ws ++ (f ∷ (ms ++ (c ∷ zs)))) ≡ count q (ws ++ (c ∷ zs)) + count q (f ∷ ms) =
      λ q. omega (
        arith,
        count-append q ws (f ∷ (ms ++ (c ∷ zs))),
        count-append q ms (c ∷ zs),
        count-append q ws (c ∷ zs),
      ) in
    let wide' : (q : ℕ)
        → count q (vs ++ (f ∷ (ms ++ (b ∷ us)))) ≡ count q (vs ++ (b ∷ us)) + count q (f ∷ ms) =
      λ q. omega (
        arith,
        count-append q vs (f ∷ (ms ++ (b ∷ us))),
        count-append q ms (b ∷ us),
        count-append q vs (b ∷ us),
      ) in
    let other =
      Linked-frame s s1 a' (vs ++ (b ∷ us)) (a ∷ (ws ++ (c ∷ zs)))
        (detach-SameOutside s a ws f ms c zs h) (λ q. omega (arith, p q, wide q)) k in
    let d : Distinct (a' ∷ (vs ++ (f ∷ (ms ++ (b ∷ us))))) =
      λ q. omega (arith, p q, wide q, wide' q) in
    (
      s2,
      list_splice-some s a ws f ms c zs h b (before_lem s a' vs b us k),
      Linked-frame s1 s2 a (ws ++ (c ∷ zs)) (a' ∷ (vs ++ (f ∷ (ms ++ (b ∷ us)))))
          (attach-SameOutside s1 a' vs f ms b us other d) (λ q. omega (arith, p q, wide q, wide' q))
          done,
      attach-Linked s1 a' vs f ms b us other d m (omega (arith, h.no_null, wide 0)),
    )

-- list_splice() of a range of one list to a place in another list, the two having no link in
-- common, passes its assertions; the range has left the first list and stands in order at that
-- place of the second one.
pub list_splice_lem :
    (s : Links) (l : ℕ) (xs : List ℕ) (f : ℕ) (ms ys : List ℕ) (l' : ℕ) (vs us : List ℕ)
    → Holds s l (xs ++ (f ∷ (ms ++ ys)))
    → Holds s l' (vs ++ us)
    → Apart
        (l ∷ ((xs ++ (f ∷ (ms ++ ys))) ++ (tail_of l ∷ [])))
        (l' ∷ ((vs ++ us) ++ (tail_of l' ∷ [])))
    → (s' : Links) × (list_splice (first us (tail_of l')) f (first ys (tail_of l)) s ≡ some s')
      × Holds s' l (xs ++ ys)
      × Holds s' l' (vs ++ (f ∷ (ms ++ us)))
list_splice_lem s l xs f ms ys l' vs us h k p =
    let t = tail_of l in
    let t' = tail_of l' in
    let e1 : (xs ++ (f ∷ (ms ++ ys))) ++ (t ∷ []) ≡ xs ++ (f ∷ (ms ++ (first ys t ∷ rest ys t))) =
      append_assoc xs (f ∷ (ms ++ ys)) (t ∷ [])
      ∙ ap (λ (r : List ℕ). xs ++ (f ∷ r)) (whole-split ms ys t) in
    let e2 = whole-split vs us t' in
    let e3 : (vs ++ (f ∷ (ms ++ us))) ++ (t' ∷ [])
        ≡ vs ++ (f ∷ (ms ++ (first us t' ∷ rest us t'))) =
      append_assoc vs (f ∷ (ms ++ us)) (t' ∷ [])
      ∙ ap (λ (r : List ℕ). vs ++ (f ∷ r)) (whole-split ms us t') in
    let (s', done, h', k') =
      splice_across s l xs f ms (first ys t) (rest ys t) l' vs (first us t') (rest us t')
        (subst (λ (r : List ℕ). Linked s l r) e1 h) (subst (λ (r : List ℕ). Linked s l' r) e2 k)
        (subst (λ (r : List ℕ). Apart (l ∷ r) (l' ∷ (vs ++ (first us t' ∷ rest us t')))) e1
          (subst (λ (r : List ℕ). Apart (l ∷ ((xs ++ (f ∷ (ms ++ ys))) ++ (t ∷ []))) (l' ∷ r)) e2
            p)) in
    (
      s',
      done,
      subst (λ (r : List ℕ). Linked s' l r) (sym (whole-split xs ys t)) h',
      subst (λ (r : List ℕ). Linked s' l' r) (sym e3) k',
    )
