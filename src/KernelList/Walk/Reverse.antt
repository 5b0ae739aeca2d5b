-- ===== src/KernelList/Walk/Reverse.antt =====
-- lib/kernel/list.c: list_reverse().
use turbo_baker.Prelude.{
  ℕ, zero, suc, ◌+◌, ◌≤◌, ◌<◌, ◌≡◌, refl, sym, ap, ◌∙◌, subst, ◌≢◌, Bool, false, not, some, List,
  [], ◌∷◌, ◌++◌, arith, ◌==◌, if◌then◌else◌, ne→==, ==_refl, length, count, count-append,
}
use mathlib.Core.List.{reverse, reverse-append}
use turbo_baker.KernelList.{Links, tail_of}
use turbo_baker.KernelList.Chain.{
  Chain, last, Distinct, Holds, count-head, count-last, last-append, Chain-append, Chain-split,
  Chain-frame,
}
use turbo_baker.KernelList.Ends.{list_begin_lem, list_end_lem, list_empty_lem}
use turbo_baker.KernelList.Walk.{reverse_loop, swap_links, swap_ends, list_reverse}

abbrev among : ℕ → List ℕ → Bool
among q xs = not (count q xs == 0)

-- `s'` is `s` with the two links of each of `xs` exchanged.
abbrev Swapped : Links → Links → List ℕ → Type 0
Swapped s s' xs =
    ((q : ℕ) → s'.prev q ≡ (if among q xs then s.next q else s.prev q))
    × ((q : ℕ) → s'.next q ≡ (if among q xs then s.prev q else s.next q))

reverse_turn :
    (fuel : ℕ) (s : Links) (t y : ℕ)
    → (y == t) ≡ false
    → reverse_loop (suc fuel) t y s ≡ reverse_loop fuel t (s.next y) (swap_links y s)
unfolding reverse_loop
reverse_turn fuel s t y ne = rw (ne, ==_refl y) refl

reverse_walk :
    (fuel : ℕ) (s : Links) (t y : ℕ) (ys : List ℕ)
    → Chain s y (ys ++ (t ∷ []))
    → Distinct (y ∷ (ys ++ (t ∷ [])))
    → suc (length ys) < fuel
    → (s' : Links) × (reverse_loop fuel t y s ≡ some s') × Swapped s s' (y ∷ ys)
unfolding reverse_loop
reverse_walk zero s t y ys c d n = absurd (omega arith)
reverse_walk (suc zero) s t y ys c d n = absurd (omega arith)
reverse_walk (suc (suc fuel)) s t y [] c d n =
    let ne : (y == t) ≡ false = ne→== y t (λ e. absurd (ground (arith, d y, e))) in
    (
      swap_links y s,
      rw (ne, ==_refl y, c.0, ==_refl t) refl,
      (λ q. ground arith, λ q. ground arith),
    )
reverse_walk (suc (suc fuel)) s t y (z ∷ zs) c d n =
    let ne : (y == t) ≡ false =
      ne→== y t (λ e. absurd (ground (arith, d y, e, count-append y zs (t ∷ [])))) in
    let s1 = swap_links y s in
    let rest =
      Chain-frame s s1 z (zs ++ (t ∷ [])) (λ q. omega (arith, d q)) (λ q h. ground (arith, d q))
        (λ q h k. ground (arith, d q)) c.2 in
    let (s', found, swapped) =
      reverse_walk (suc fuel) s1 t z zs rest (λ q. omega (arith, d q)) (omega arith) in
    (
      s',
      reverse_turn (suc fuel) s t y ne ∙ ap (λ (v : ℕ). reverse_loop (suc fuel) t v s1) c.0 ∙ found,
      (
        λ q. ground (arith, swapped.0 q, d q, count-append q zs (t ∷ [])),
        λ q. ground (arith, swapped.1 q, d q, count-append q zs (t ∷ [])),
      ),
    )

swap_ends_lem :
    (l x z : ℕ) (s : Links)
    → s.prev (tail_of l) ≡ z
    → s.next l ≡ x
    → s.prev z ≡ tail_of l
    → s.next x ≡ l
    → x ≢ l
    → z ≢ tail_of l
    → ((q : ℕ)
        → (swap_ends l s).prev q ≡ (if z == q then l else if tail_of l == q then x else s.prev q))
      × ((q : ℕ)
          → (swap_ends l s).next q ≡ (if x == q then tail_of l else if l == q then z else s.next q))
unfolding swap_ends
swap_ends_lem l x z s e1 e2 e3 e4 n1 n2 =
    rw (e1, e2) ((λ q. ground (arith, e3, e4, n1, n2)), (λ q. ground (arith, e3, e4, n1, n2)))

reverse-cons : (x : ℕ) (xs : List ℕ) → reverse (x ∷ xs) ≡ reverse xs ++ (x ∷ [])
reverse-cons x xs = reverse-append (x ∷ []) xs

count-reverse : (q : ℕ) (xs : List ℕ) → count q (reverse xs) ≡ count q xs
count-reverse q [] = refl
count-reverse q (x ∷ xs) =
    rw (reverse-cons x xs) (omega (arith, count-append q (reverse xs) (x ∷ []), count-reverse q xs))

last-reverse : (a x : ℕ) (xs : List ℕ) → last a (reverse (x ∷ xs)) ≡ x
last-reverse a x xs = rw (reverse-cons x xs) (last-append a (reverse xs) x [])

-- With the links of its elements exchanged, a chain runs backwards.
flip-Chain :
    (s s' : Links) (a x : ℕ) (ys : List ℕ)
    → Chain s x ys
    → Distinct (x ∷ ys)
    → s'.next a ≡ last x ys
    → s'.prev (last x ys) ≡ a
    → ((q : ℕ) → 0 < count q (x ∷ ys) → q ≢ last x ys → s'.prev q ≡ s.next q)
    → ((q : ℕ) → 0 < count q ys → s'.next q ≡ s.prev q)
    → Chain s' a (reverse (x ∷ ys))
flip-Chain s s' a x [] c d en ep hp hn = (en, ep, tt)
flip-Chain s s' a x (y ∷ ys) c d en ep hp hn =
    let back =
      flip-Chain s s' a y ys c.2 (λ q. omega (arith, d q)) en ep (λ q h k. hp q (omega arith) k)
        (λ q h. hn q (omega arith)) in
    let step : Chain s' y (x ∷ []) = (
      hn y (omega (arith, count-head y ys)) ∙ c.1,
      hp x (omega (arith, count-head x (y ∷ ys))) (λ e. absurd (
            omega (
              arith,
              d x,
              count-head x (y ∷ ys),
              count-last y ys,
              ap (λ (v : ℕ). count v (y ∷ ys)) e,
            )))
          ∙ c.0,
      tt,
    ) in
    subst (λ (r : List ℕ). Chain s' a r) (sym (reverse-cons x (y ∷ ys)))
      (Chain-append s' a (reverse (y ∷ ys)) (x ∷ []) back
        (subst (λ (v : ℕ). Chain s' v (x ∷ [])) (sym (last-reverse a y ys)) step))

module _ (s : Links) (l x : ℕ) (xs : List ℕ) (h : Holds s l (x ∷ xs)) (s' : Links)
    (w : Swapped s s' (x ∷ xs)) where
  ends_apart : (q : ℕ) → count q (l ∷ []) + count q (x ∷ xs) + count q (tail_of l ∷ []) ≤ 1
  ends_apart q = omega (arith, h.distinct q, count-append q xs (tail_of l ∷ []))

  abbrev z : ℕ
  z = last x xs

  last_links : (s.next z ≡ tail_of l) × (s.prev (tail_of l) ≡ z)
  last_links = let (inner, (zn, tp, e)) = Chain-split s x xs (tail_of l ∷ []) h.linked.2 in (zn, tp)

  last_next : s.next (tail_of l) ≡ 0
  last_next = ap (λ (v : ℕ). s.next v) (sym (last-append l (x ∷ xs) (tail_of l) [])) ∙ h.back

  ends_lem :
      ((q : ℕ)
        → (swap_ends l s').prev q ≡ (if z == q then l else if tail_of l == q then x else s'.prev q))
      × ((q : ℕ)
          → (swap_ends l s').next q
            ≡ (if x == q then tail_of l else if l == q then z else s'.next q))
  ends_lem =
      swap_ends_lem l x z s' (w.0 (tail_of l) ∙ ground (arith, last_links, ends_apart (tail_of l)))
        (w.1 l ∙ ground (arith, h.linked.0, ends_apart l))
        (w.0 z ∙ ground (arith, last_links, count-last x xs)) (w.1 x ∙ ground (arith, h.linked.1))
        (λ e. absurd (ground (arith, ends_apart l, e)))
        (λ e. absurd (ground (arith, ends_apart z, count-last x xs, e)))

  ends_after :
      ((swap_ends l s').prev l ≡ 0)
      × ((swap_ends l s').next (tail_of l) ≡ 0)
      × ((swap_ends l s').next x ≡ tail_of l)
      × ((swap_ends l s').prev (tail_of l) ≡ x)
      × ((swap_ends l s').next l ≡ z)
      × ((swap_ends l s').prev z ≡ l)
  ends_after = (
    ground (arith, ends_lem.0 l, w.0 l, ends_apart l, count-last x xs, h.front),
    ground (arith, ends_lem.1 (tail_of l), w.1 (tail_of l), ends_apart (tail_of l), last_next),
    ground (arith, ends_lem.1 x),
    ground (arith, ends_lem.0 (tail_of l), ends_apart (tail_of l), count-last x xs),
    ground (arith, ends_lem.1 l, ends_apart l),
    ground (arith, ends_lem.0 z),
  )

  flipped : Chain (swap_ends l s') l (reverse (x ∷ xs))
  flipped =
      flip-Chain s (swap_ends l s') l x xs (Chain-split s x xs (tail_of l ∷ []) h.linked.2).0
        (λ q. omega (arith, ends_apart q)) ends_after.4 ends_after.5
        (λ q k n. ground (arith, ends_lem.0 q, w.0 q, ends_apart q))
        (λ q k. ground (arith, ends_lem.1 q, w.1 q, ends_apart q))

  whole_count :
      (q : ℕ)
      → count q (l ∷ (reverse (x ∷ xs) ++ (tail_of l ∷ [])))
        ≡ count q (l ∷ ((x ∷ xs) ++ (tail_of l ∷ [])))
  whole_count q = omega (
    arith,
    count-append q (reverse (x ∷ xs)) (tail_of l ∷ []),
    count-reverse q (x ∷ xs),
    count-append q (x ∷ xs) (tail_of l ∷ []),
  )

  reversed : Holds (swap_ends l s') l (reverse (x ∷ xs))
  reversed = record {
    front = ends_after.0;
    back = rw (last-append l (reverse (x ∷ xs)) (tail_of l) []) ends_after.1;
    linked = Chain-append (swap_ends l s') l (reverse (x ∷ xs)) (tail_of l ∷ []) flipped (
        subst (λ (v : ℕ). Chain (swap_ends l s') v (tail_of l ∷ [])) (sym (last-reverse l x xs))
          (ends_after.2, ends_after.3, tt));
    distinct = λ q. omega (arith, h.distinct q, whole_count q);
    no_null = omega (arith, h.no_null, whole_count 0);
  }

-- list_reverse() ends.
pub list_reverse_lem :
    (fuel : ℕ) (s : Links) (l : ℕ) (xs : List ℕ)
    → Holds s l xs
    → length xs < fuel
    → (s' : Links) × (list_reverse fuel l s ≡ some s') × Holds s' l (reverse xs)
unfolding list_reverse
list_reverse_lem fuel s l [] h n = (s, rw (list_empty_lem s l [] h) refl, h)
list_reverse_lem fuel s l (x ∷ xs) h n =
    let (s', found, w) =
      reverse_walk fuel s (tail_of l) x xs h.linked.2 (λ q. omega (arith, h.distinct q)) n in
    (
      swap_ends l s',
      rw
          (
            list_empty_lem s l (x ∷ xs) h,
            list_begin_lem s l (x ∷ xs) h,
            list_end_lem s l (x ∷ xs) h,
            found,
          )
          refl,
      reversed s l x xs h s' w,
    )
