-- ===== src/KernelList/Detach.antt =====
-- lib/kernel/list.c: the assignments that take a range of elements out of a chain.
use turbo_baker.Prelude.{
  ℕ, ◌+◌, ◌≡◌, ap, ◌∙◌, List, ◌∷◌, ◌++◌, arith, ◌==◌, if◌then◌else◌, count, count-append,
}
use turbo_baker.KernelList.{Links, detach}
use turbo_baker.KernelList.Chain.{
  Chain, last, Distinct, Linked, SameOutside, count-head, count-last, last-append, Chain-append,
  Chain-split, Chain-frame,
}

-- `s'` is `s` with the link between `p` and `c` set in both directions.
abbrev Joined : Links → Links → ℕ → ℕ → Type 0
Joined s s' p c =
    ((q : ℕ) → s'.prev q ≡ (if c == q then p else s.prev q))
    × ((q : ℕ) → s'.next q ≡ (if p == q then c else s.next q))

module _ (s s' : Links) (a : ℕ) (ws : List ℕ) (f : ℕ) (ms : List ℕ) (c : ℕ) (zs : List ℕ) where
  module _ (d : Distinct (a ∷ (ws ++ (f ∷ (ms ++ (c ∷ zs)))))) (j : Joined s s' (last a ws) c) where
    split_count :
        (q : ℕ)
        → count q (a ∷ ws) + count q (f ∷ ms) + count q (c ∷ zs)
          ≡ count q (a ∷ (ws ++ (f ∷ (ms ++ (c ∷ zs)))))
    split_count q =
        omega (arith, count-append q ws (f ∷ (ms ++ (c ∷ zs))), count-append q ms (c ∷ zs))

    detach_before : Chain s a ws → Chain s' a ws
    detach_before =
        Chain-frame s s' a ws (λ q. omega (arith, d q, split_count q))
          (λ q h. ground (arith, j.0 q, d q, split_count q, count-head c zs))
          (λ q h k. ground (arith, j.1 q))

    detach_middle : Chain s f ms → Chain s' f ms
    detach_middle =
        Chain-frame s s' f ms (λ q. omega (arith, d q, split_count q))
          (λ q h. ground (arith, j.0 q, d q, split_count q, count-head c zs))
          (λ q h k. ground (arith, j.1 q, d q, split_count q, count-last a ws))

    detach_after : Chain s c zs → Chain s' c zs
    detach_after =
        Chain-frame s s' c zs (λ q. omega (arith, d q, split_count q))
          (λ q h. ground (
            arith,
            j.0 q,
            d q,
            count-append q ws (f ∷ (ms ++ (c ∷ zs))),
            count-append q ms (c ∷ zs),
            count-head c zs,
          ))
          (λ q h k. ground (arith, j.1 q, d q, split_count q, count-last a ws))

    detach_joined :
        Linked s a (ws ++ (f ∷ (ms ++ (c ∷ zs)))) → Linked s' a (ws ++ (c ∷ zs)) × Chain s' f ms
    detach_joined h =
        let (l, (fn, fp, r)) = Chain-split s a ws (f ∷ (ms ++ (c ∷ zs))) h.linked in
        let (m, (cn, cp, z)) = Chain-split s f ms (c ∷ zs) r in
        let at_end : last a (ws ++ (f ∷ (ms ++ (c ∷ zs)))) ≡ last c zs =
          last-append a ws f (ms ++ (c ∷ zs)) ∙ last-append f ms c zs in
        (
          record {
            front =
                ground
                  (arith, j.0 a, d a, split_count a, count-head c zs, count-head a ws, h.front);
            back = rw (last-append a ws c zs) (
                ground (
                  arith,
                  j.1 (last c zs),
                  d (last c zs),
                  split_count (last c zs),
                  count-last a ws,
                  count-last c zs,
                  h.back,
                  ap (λ (x : ℕ). s.next x) at_end,
                ));
            linked =
                Chain-append s' a ws (c ∷ zs) (detach_before l)
                  (ground (arith, j.1 (last a ws)), ground (arith, j.0 c), detach_after z);
            distinct = λ q. omega (arith, d q, split_count q, count-append q ws (c ∷ zs));
            no_null = omega (arith, h.no_null, split_count 0, count-append 0 ws (c ∷ zs));
          },
          detach_middle m,
        )

module _ (s : Links) (a : ℕ) (ws : List ℕ) (f : ℕ) (ms : List ℕ) (c : ℕ) (zs : List ℕ)
    (h : Linked s a (ws ++ (f ∷ (ms ++ (c ∷ zs))))) where
  detach-Joined : Joined s (detach f (last f ms) s) (last a ws) c
  unfolding detach
  detach-Joined =
      let (l, (fn, fp, r)) = Chain-split s a ws (f ∷ (ms ++ (c ∷ zs))) h.linked in
      let (m, (cn, cp, z)) = Chain-split s f ms (c ∷ zs) r in
      rw (fp, cn) ((λ q. ground (arith, fp)), (λ q. ground arith))

  pub detach-Linked :
      Linked (detach f (last f ms) s) a (ws ++ (c ∷ zs)) × Chain (detach f (last f ms) s) f ms
  detach-Linked = detach_joined s (detach f (last f ms) s) a ws f ms c zs h.distinct detach-Joined h

  pub detach-SameOutside : SameOutside (a ∷ (ws ++ (c ∷ zs))) s (detach f (last f ms) s)
  detach-SameOutside q k = ground (
    arith,
    detach-Joined.0 q,
    detach-Joined.1 q,
    count-append q ws (c ∷ zs),
    count-head c zs,
    count-last a ws,
    k,
  )
