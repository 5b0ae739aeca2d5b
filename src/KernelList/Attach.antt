-- ===== src/KernelList/Attach.antt =====
-- lib/kernel/list.c: the assignments that put a range of elements into a chain.
use turbo_baker.Prelude.{
  ℕ, ◌+◌, ◌≡◌, ap, ◌≢◌, List, ◌∷◌, ◌++◌, arith, ◌==◌, if◌then◌else◌, count, count-append,
}
use turbo_baker.KernelList.{Links, attach}
use turbo_baker.KernelList.Chain.{
  Chain, last, Distinct, Linked, SameOutside, count-head, count-last, last-append, Chain-append,
  Chain-split, Chain-frame,
}

-- `s'` is `s` with the range from `f` to `e` linked in between `p` and `b`.
abbrev Attached : Links → Links → ℕ → ℕ → ℕ → ℕ → Type 0
Attached s s' p f e b =
    ((q : ℕ) → s'.prev q ≡ (if b == q then e else if f == q then p else s.prev q))
    × ((q : ℕ) → s'.next q ≡ (if p == q then f else if e == q then b else s.next q))

module _ (s s' : Links) (a : ℕ) (ws : List ℕ) (f : ℕ) (ms : List ℕ) (b : ℕ) (zs : List ℕ) where
  module _ (d : Distinct (a ∷ (ws ++ (f ∷ (ms ++ (b ∷ zs))))))
      (j : Attached s s' (last a ws) f (last f ms) b) where
    split_count :
        (q : ℕ)
        → count q (a ∷ ws) + count q (f ∷ ms) + count q (b ∷ zs)
          ≡ count q (a ∷ (ws ++ (f ∷ (ms ++ (b ∷ zs)))))
    split_count q =
        omega (arith, count-append q ws (f ∷ (ms ++ (b ∷ zs))), count-append q ms (b ∷ zs))

    attach_before : Chain s a ws → Chain s' a ws
    attach_before =
        Chain-frame s s' a ws (λ q. omega (arith, d q, split_count q))
          (λ q h. ground (arith, j.0 q, d q, split_count q, count-head b zs, count-head f ms))
          (λ q h k. ground (arith, j.1 q, d q, split_count q, count-last f ms))

    attach_middle : Chain s f ms → Chain s' f ms
    attach_middle =
        Chain-frame s s' f ms (λ q. omega (arith, d q, split_count q))
          (λ q h. ground (arith, j.0 q, d q, split_count q, count-head b zs, count-head f ms))
          (λ q h k. ground (arith, j.1 q, d q, split_count q, count-last a ws))

    attach_after : Chain s b zs → Chain s' b zs
    attach_after =
        Chain-frame s s' b zs (λ q. omega (arith, d q, split_count q))
          (λ q h. ground (arith, j.0 q, d q, split_count q, count-head b zs, count-head f ms))
          (λ q h k. ground (arith, j.1 q, d q, split_count q, count-last a ws, count-last f ms))

    attach_joined :
        Linked s a (ws ++ (b ∷ zs))
        → Chain s f ms
        → count 0 (f ∷ ms) ≡ 0
        → Linked s' a (ws ++ (f ∷ (ms ++ (b ∷ zs))))
    attach_joined h m n =
        let (l, (bn, bp, z)) = Chain-split s a ws (b ∷ zs) h.linked in
        record {
          front = ground (
            arith,
            j.0 a,
            d a,
            split_count a,
            count-head b zs,
            count-head f ms,
            count-head a ws,
            h.front,
          );
          back =
              rw (last-append a ws f (ms ++ (b ∷ zs)), last-append f ms b zs)
                (ground (
                  arith,
                  j.1 (last b zs),
                  d (last b zs),
                  split_count (last b zs),
                  count-last a ws,
                  count-last f ms,
                  count-last b zs,
                  h.back,
                  ap (λ (x : ℕ). s.next x) (last-append a ws b zs),
                ));
          linked = Chain-append s' a ws (f ∷ (ms ++ (b ∷ zs))) (attach_before l) (
            ground (arith, j.1 (last a ws)),
            ground (arith, j.0 f, d f, split_count f, count-head f ms, count-head b zs),
            Chain-append s' f ms (b ∷ zs) (attach_middle m) (
              ground (
                arith,
                j.1 (last f ms),
                d (last f ms),
                split_count (last f ms),
                count-last a ws,
                count-last f ms,
              ),
              ground (arith, j.0 b),
              attach_after z,
            ),
          );
          distinct = d;
          no_null = omega (arith, h.no_null, split_count 0, count-append 0 ws (b ∷ zs), n);
        }

module _ (s : Links) (a : ℕ) (ws : List ℕ) (f : ℕ) (ms : List ℕ) (b : ℕ) (zs : List ℕ)
    (h : Linked s a (ws ++ (b ∷ zs))) (d : Distinct (a ∷ (ws ++ (f ∷ (ms ++ (b ∷ zs)))))) where
  attach-Attached : Attached s (attach b f (last f ms) s) (last a ws) f (last f ms) b
  unfolding attach
  attach-Attached =
      let (l, (bn, bp, z)) = Chain-split s a ws (b ∷ zs) h.linked in
      let fb : f ≢ b = λ e. absurd (
        omega (
          arith,
          d f,
          count-append f ws (f ∷ (ms ++ (b ∷ zs))),
          count-append f ms (b ∷ zs),
          count-head f (ms ++ (b ∷ zs)),
          count-head b zs,
          ap (λ (x : ℕ). count x (b ∷ zs)) e,
        )) in
      (λ q. ground (arith, bp), λ q. ground (arith, bp, fb))

  pub attach-Linked :
      Chain s f ms
      → count 0 (f ∷ ms) ≡ 0
      → Linked (attach b f (last f ms) s) a (ws ++ (f ∷ (ms ++ (b ∷ zs))))
  attach-Linked m n =
      attach_joined s (attach b f (last f ms) s) a ws f ms b zs d attach-Attached h m n

  pub attach-SameOutside :
      SameOutside (a ∷ (ws ++ (f ∷ (ms ++ (b ∷ zs))))) s (attach b f (last f ms) s)
  attach-SameOutside q k = ground (
    arith,
    attach-Attached.0 q,
    attach-Attached.1 q,
    count-append q ws (f ∷ (ms ++ (b ∷ zs))),
    count-append q ms (b ∷ zs),
    count-head b zs,
    count-head f ms,
    count-last a ws,
    count-last f ms,
    k,
  )
