-- ===== src/Search/Found.antt =====
-- lib/stdlib.c: what binary_search() finds.
use turbo_baker.Prelude.{
  ℕ, zero, suc, ◌+◌, ◌-◌, ◌*◌, ◌/◌, ◌≤◌, ◌<◌, ◌≡◌, refl, sym, ap, ◌∙◌, subst, ◌≢◌, ◌⊎◌, inl, inr,
  true, false, Option, none, some, arith, ltb, ltb→lt, ltb→ge, Bool-cases, Mem,
}
use native.Mathlib.Nat.{mul_comm, add-mul, mul-div_cancel}
use turbo_baker.Str.Block.{Cmp, less, equal, greater}
use turbo_baker.Sort.{Element, element}
use turbo_baker.Sort.Swap.{mul_apart}
use turbo_baker.Search.{search_loop, binary_search}

-- The element at a 0-based index.
abbrev pub item : Mem → (array size i : ℕ) → Element
item m array size i = element m (array + i * size) size

-- The keys of the first elements are below the key, and those of the last ones above it.
pub record Ordered (compare : Element → Cmp) (m : Mem) (array size n : ℕ) : Type 0 where
  pub down :
      (i j : ℕ)
      → i ≤ j
      → j < n
      → compare (item m array size j) ≡ greater
      → compare (item m array size i) ≡ greater
  pub up :
      (i j : ℕ)
      → i ≤ j
      → j < n
      → compare (item m array size i) ≡ less
      → compare (item m array size j) ≡ less

-- The address of an element that equals the key, or null if none does.
pub Found : (compare : Element → Cmp) (m : Mem) (array size n : ℕ) → Option ℕ → Type 0
Found compare m array size n none = (i : ℕ) → i < n → compare (item m array size i) ≢ equal
Found compare m array size n (some p) =
    (i : ℕ) × (i < n) × (p ≡ array + i * size) × (compare (item m array size i) ≡ equal)

equal_ne_greater : equal ≢ greater
equal_ne_greater e = cc

equal_ne_less : equal ≢ less
equal_ne_less e = cc

Cmp-cases : (c : Cmp) → (c ≡ less) ⊎ ((c ≡ equal) ⊎ (c ≡ greater))
Cmp-cases less = inl refl
Cmp-cases equal = inr (inl refl)
Cmp-cases greater = inr (inr refl)

range_lem :
    (array lo hi size : ℕ)
    → 0 < size
    → lo ≤ hi
    → (array + hi * size - (array + lo * size)) / size ≡ hi - lo
range_lem array lo hi size pos le =
    let split : hi * size ≡ lo * size + (hi - lo) * size =
      ap (λ x. x * size) (omega arith) ∙ add-mul lo (hi - lo) size in
    ap (λ x. x / size) (omega (arith, split)) ∙ mul-div_cancel (hi - lo) pos

middle_lem : (array lo k size : ℕ) → array + lo * size + k * size ≡ array + (lo + k) * size
middle_lem array lo k size = omega (arith, add-mul lo k size)

after_lem : (array i size : ℕ) → array + i * size + size ≡ array + (i + 1) * size
after_lem array i size = omega (arith, add-mul i 1 size)

-- One round of the loop, by what it meets.
module _ (compare : Element → Cmp) (m : Mem) (size first last : ℕ) where
  loop-stop :
      (limit : ℕ)
      → ltb first last ≡ false
      → search_loop compare (suc limit) m size first last ≡ some none
  unfolding search_loop
  loop-stop limit e = rw e refl

  module _ (limit mid : ℕ) (inside : ltb first last ≡ true)
      (at : first + (last - first) / size / 2 * size ≡ mid) where
    loop-less :
        compare (element m mid size) ≡ less
        → search_loop compare (suc limit) m size first last
          ≡ search_loop compare limit m size first mid
    unfolding search_loop
    loop-less c =
        let c' : compare (element m (first + (last - first) / size / 2 * size) size) ≡ less =
          subst (λ z. compare (element m z size) ≡ less) (sym at) c in
        rw inside rw c' (ap (λ z. search_loop compare limit m size first z) at)

    loop-equal :
        compare (element m mid size) ≡ equal
        → search_loop compare (suc limit) m size first last ≡ some (some mid)
    unfolding search_loop
    loop-equal c =
        let c' : compare (element m (first + (last - first) / size / 2 * size) size) ≡ equal =
          subst (λ z. compare (element m z size) ≡ equal) (sym at) c in
        rw inside rw c' (ap (λ z. some (some z)) at)

    loop-greater :
        compare (element m mid size) ≡ greater
        → search_loop compare (suc limit) m size first last
          ≡ search_loop compare limit m size (mid + size) last
    unfolding search_loop
    loop-greater c =
        let c' : compare (element m (first + (last - first) / size / 2 * size) size) ≡ greater =
          subst (λ z. compare (element m z size) ≡ greater) (sym at) c in
        rw inside rw c' (ap (λ z. search_loop compare limit m size (z + size) last) at)

module _ (compare : Element → Cmp) (m : Mem) (array size n : ℕ) (pos : 0 < size)
    (o : Ordered compare m array size n) where
  neither :
      (lo i : ℕ)
      → lo ≤ n
      → i < n
      → ((j : ℕ) → j < lo → compare (item m array size j) ≡ greater)
      → ((j : ℕ) → lo ≤ j → j < n → compare (item m array size j) ≡ less)
      → compare (item m array size i) ≢ equal
  neither lo i le l below above e = elim (Bool-cases (ltb i lo)) [
    | inl y ↦ equal_ne_greater (sym e ∙ below i (ltb→lt i lo y))
    | inr y ↦ equal_ne_less (sym e ∙ above i (ltb→ge i lo y) l)
  ]

  search_loop_lem :
      (limit lo hi : ℕ)
      → hi < lo + limit
      → lo ≤ hi
      → hi ≤ n
      → ((i : ℕ) → i < lo → compare (item m array size i) ≡ greater)
      → ((i : ℕ) → hi ≤ i → i < n → compare (item m array size i) ≡ less)
      → (r : Option ℕ) × (search_loop compare limit m size (array + lo * size) (array + hi * size)
          ≡ some r)
        × Found compare m array size n r
  unfolding Found
  search_loop_lem zero lo hi f le le' below above = absurd (omega arith)
  search_loop_lem (suc limit) lo hi f le le' below above = elim (Bool-cases (ltb lo hi)) [
    | inr e ↦
        let at : hi ≡ lo = omega (arith, ltb→ge lo hi e) in
        (
          none,
          loop-stop compare m size (array + lo * size) (array + hi * size) limit
              (ground (arith, at)),
          λ i l e.
              neither lo i (omega (arith, at)) l below (λ j a b. above j (omega (arith, at)) b) e,
        )
    | inl e ↦
        let mid = lo + (hi - lo) / 2 in
        let inside : ltb (array + lo * size) (array + hi * size) ≡ true =
          ground (arith, mul_apart lo hi size (ltb→lt lo hi e), pos) in
        let at_mid : array + lo * size + (array + hi * size - (array + lo * size)) / size / 2 * size
            ≡ array + mid * size =
          rw (range_lem array lo hi size pos le) (middle_lem array lo ((hi - lo) / 2) size) in
        elim (Cmp-cases (compare (item m array size mid))) [
          | inl c ↦
              let (r, s, t) =
                search_loop_lem limit lo mid (omega (arith, ltb→lt lo hi e)) (omega arith)
                  (omega arith) below (λ i a b. o.up mid i a b c) in
              (
                r,
                loop-less compare m size (array + lo * size) (array + hi * size) limit
                      (array + mid * size) inside at_mid c
                    ∙ s,
                t,
              )
          | inr (inl c) ↦ (
            some (array + mid * size),
            loop-equal compare m size (array + lo * size) (array + hi * size) limit
                (array + mid * size) inside at_mid c,
            (mid, omega (arith, ltb→lt lo hi e), refl, c),
          )
          | inr (inr c) ↦
              let (r, s, t) =
                search_loop_lem limit (mid + 1) hi (omega arith) (omega (arith, ltb→lt lo hi e)) le'
                  (λ i a. o.down i mid (omega arith) (omega (arith, ltb→lt lo hi e)) c) above in
              (
                r,
                loop-greater compare m size (array + lo * size) (array + hi * size) limit
                      (array + mid * size) inside at_mid c
                    ∙ ap (λ z. search_loop compare limit m size z (array + hi * size))
                        (after_lem array mid size)
                    ∙ s,
                t,
              )
        ]
  ]

  -- binary_search() in an array whose elements are in the order of the comparison, of positive size,
  -- ends: it returns the address of an element that equals the key, and null only if none does.
  pub binary_search_lem :
      (r : Option ℕ) × (binary_search compare m array n size ≡ some r)
      × Found compare m array size n r
  unfolding binary_search
  binary_search_lem =
      let (r, e, f) =
        search_loop_lem (n + 1) 0 n (omega arith) (omega arith) (omega arith)
          (λ i l. absurd (omega arith)) (λ i a b. absurd (omega arith)) in
      (r, ends ∙ e, f)
    where
      ends :
          search_loop compare (n + 1) m size array (array + size * n)
          ≡ search_loop compare (n + 1) m size (array + 0 * size) (array + n * size)
      ends =
          rw (mul_comm size n)
            (ap (λ z. search_loop compare (n + 1) m size z (array + n * size)) (omega arith))
