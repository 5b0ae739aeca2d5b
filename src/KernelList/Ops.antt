-- ===== src/KernelList/Ops.antt =====
-- lib/kernel/list.c: the operations that move elements, on the sequence that a list holds.
use turbo_baker.Prelude.{
  ℕ, ◌≡◌, refl, sym, ap, ◌∙◌, subst, ◌≢◌, some, List, [], ◌∷◌, ◌++◌, arith, ne→==, count,
  count-append,
}
use mathlib.Core.List.{append_assoc}
use turbo_baker.KernelList.{
  Links, set_prev, set_next, tail_of, detach, attach, list_init, list_insert, list_remove,
}
use turbo_baker.KernelList.Chain.{first, Distinct, Linked, Holds, SameOutside, Chain-split}
use turbo_baker.KernelList.Positions.{rest, first-rest, whole-split, before_lem, interior_lem}
use turbo_baker.KernelList.Detach.{detach-Linked, detach-SameOutside}
use turbo_baker.KernelList.Attach.{attach-Linked, attach-SameOutside}

pub list_init_lem :
    (l : ℕ) (s : Links)
    → l ≢ 0
    → (s' : Links) × (list_init l s ≡ some s')
      × Holds s' l []
      × SameOutside (l ∷ (tail_of l ∷ [])) s s'
unfolding list_init
list_init_lem l s h = (
  set_next (set_prev (set_next (set_prev s l 0) l (tail_of l)) (tail_of l) l) (tail_of l) 0,
  ground (arith, h),
  record {
    front = ground arith;
    back = ground arith;
    linked = (ground arith, ground arith, tt);
    distinct = λ q. ground arith;
    no_null = ground (arith, h);
  },
  λ q k. ground (arith, k),
)

-- `elem` joins neither the list's ends nor its elements.
abbrev pub Fresh : ℕ → ℕ → List ℕ → Type 0
Fresh elem l xs = (elem ≢ 0) × (count elem (l ∷ (xs ++ (tail_of l ∷ []))) ≡ 0)

insert-Linked :
    (s : Links) (a : ℕ) (ws : List ℕ) (b : ℕ) (zs : List ℕ) (e : ℕ)
    → Linked s a (ws ++ (b ∷ zs))
    → e ≢ 0
    → count e (a ∷ (ws ++ (b ∷ zs))) ≡ 0
    → Linked (attach b e e s) a (ws ++ (e ∷ (b ∷ zs)))
      × SameOutside (a ∷ (ws ++ (e ∷ (b ∷ zs)))) s (attach b e e s)
insert-Linked s a ws b zs e h n k =
    let d : Distinct (a ∷ (ws ++ (e ∷ (b ∷ zs)))) = λ q.
      ground
        (arith, h.distinct q, k, count-append q ws (e ∷ (b ∷ zs)), count-append q ws (b ∷ zs)) in
    (
      attach-Linked s a ws e [] b zs h d tt (ground (arith, n)),
      attach-SameOutside s a ws e [] b zs h d,
    )

pub list_insert_lem :
    (s : Links) (l : ℕ) (xs ys : List ℕ) (elem : ℕ)
    → Holds s l (xs ++ ys)
    → Fresh elem l (xs ++ ys)
    → (s' : Links) × (list_insert (first ys (tail_of l)) elem s ≡ some s')
      × Holds s' l (xs ++ (elem ∷ ys))
      × SameOutside (l ∷ ((xs ++ (elem ∷ ys)) ++ (tail_of l ∷ []))) s s'
unfolding list_insert
list_insert_lem s l xs ys elem h (n, k) =
    let t = tail_of l in
    let b = first ys t in
    let zs = rest ys t in
    let e1 = whole-split xs ys t in
    let e2 : (xs ++ (elem ∷ ys)) ++ (t ∷ []) ≡ xs ++ (elem ∷ (b ∷ zs)) =
      append_assoc xs (elem ∷ ys) (t ∷ [])
      ∙ ap (λ (r : List ℕ). xs ++ (elem ∷ r)) (first-rest ys t) in
    let h' = subst (λ (r : List ℕ). Linked s l r) e1 h in
    let (done, same) =
      insert-Linked s l xs b zs elem h' n (subst (λ (r : List ℕ). count elem (l ∷ r) ≡ 0) e1 k) in
    (
      attach b elem elem s,
      rw (before_lem s l xs b zs h', ne→== elem 0 n) refl,
      subst (λ (r : List ℕ). Linked (attach b elem elem s) l r) (sym e2) done,
      subst (λ (r : List ℕ). SameOutside (l ∷ r) s (attach b elem elem s)) (sym e2) same,
    )

detach-next : (e : ℕ) (s : Links) → (detach e e s).next e ≡ s.next e
unfolding detach
detach-next e s = ground arith

pub list_remove_lem :
    (s : Links) (l : ℕ) (xs : List ℕ) (elem : ℕ) (ys : List ℕ)
    → Holds s l (xs ++ (elem ∷ ys))
    → (s' : Links) × (list_remove elem s ≡ some (first ys (tail_of l), s'))
      × Holds s' l (xs ++ ys)
      × SameOutside (l ∷ ((xs ++ ys) ++ (tail_of l ∷ []))) s s'
unfolding list_remove
list_remove_lem s l xs elem ys h =
    let t = tail_of l in
    let b = first ys t in
    let zs = rest ys t in
    let e1 = whole-split xs ys t in
    let e2 : (xs ++ (elem ∷ ys)) ++ (t ∷ []) ≡ xs ++ (elem ∷ (b ∷ zs)) =
      append_assoc xs (elem ∷ ys) (t ∷ [])
      ∙ ap (λ (r : List ℕ). xs ++ (elem ∷ r)) (first-rest ys t) in
    let h' = subst (λ (r : List ℕ). Linked s l r) e2 h in
    let (done, m) = detach-Linked s l xs elem [] b zs h' in
    let same = detach-SameOutside s l xs elem [] b zs h' in
    let (c, (nx, pv, r)) = Chain-split s l xs (elem ∷ (b ∷ zs)) h'.linked in
    (
      detach elem elem s,
      rw (interior_lem s l xs elem b zs h', detach-next elem s, r.0) refl,
      subst (λ (r : List ℕ). Linked (detach elem elem s) l r) (sym e1) done,
      subst (λ (r : List ℕ). SameOutside (l ∷ r) s (detach elem elem s)) (sym e1) same,
    )
