-- ===== src/Search/Tests.antt =====
-- lib/stdlib.c: binary_search() at three elements of two bytes each, in the order of their first byte.
use turbo_baker.Prelude.{
  ℕ, zero, suc, ◌≤◌, ◌<◌, ◌≡◌, refl, Option, some, [], ◌∷◌, arith, ltb, if◌then◌else◌, get_or, Mem,
}
use turbo_baker.Str.Block.{Cmp, less, equal, greater}
use turbo_baker.Sort.{Element, element}
use turbo_baker.Search.{binary_search}
use turbo_baker.Search.Found.{item, Ordered, Found, binary_search_lem}

-- The comparison of the key 5.
five : Element → Cmp
five x = if ltb 5 (get_or x 0 0) then less else if ltb (get_or x 0 0) 5 then greater else equal

abbrev three : Mem
three a = get_or (2 ∷ 0 ∷ 5 ∷ 1 ∷ 9 ∷ 2 ∷ []) a 0

three_down :
    (i j : ℕ)
    → i ≤ j
    → j < 3
    → five (item three 0 2 j) ≡ greater
    → five (item three 0 2 i) ≡ greater
unfolding five element
three_down zero j a b c = refl
three_down (suc i) zero a b c = absurd (omega arith)
three_down (suc i) (suc zero) a b c = cc
three_down (suc i) (suc (suc zero)) a b c = cc
three_down (suc i) (suc (suc (suc j))) a b c = absurd (omega arith)

three_up :
    (i j : ℕ) → i ≤ j → j < 3 → five (item three 0 2 i) ≡ less → five (item three 0 2 j) ≡ less
unfolding five element
three_up zero j a b c = cc
three_up (suc zero) j a b c = cc
three_up (suc (suc i)) zero a b c = absurd (omega arith)
three_up (suc (suc i)) (suc zero) a b c = absurd (omega arith)
three_up (suc (suc i)) (suc (suc zero)) a b c = refl
three_up (suc (suc i)) (suc (suc (suc j))) a b c = absurd (omega arith)

three-Ordered : Ordered five three 0 2 3
three-Ordered = record { down = three_down; up = three_up }

binary_search_lem_example :
    (r : Option ℕ) × (binary_search five three 0 3 2 ≡ some r) × Found five three 0 2 3 r
binary_search_lem_example = binary_search_lem five three 0 2 3 (omega arith) three-Ordered
