-- ===== src/Sort/Tests.antt =====
-- lib/stdlib.c at five elements of two bytes each, which are ordered by their first byte.
use turbo_baker.Prelude.{◌≡◌, some, [], ◌∷◌, arith, ltb, if◌then◌else◌, get_or, Mem}
use turbo_baker.Str.Block.{Cmp, less, equal, greater}
use turbo_baker.Sort.{Element, sort}
use turbo_baker.Sort.Heap.{IsOrder}
use turbo_baker.Sort.Order.{SortOutcome, sort_lem}

by_first : Element → Element → Cmp
by_first x y =
    if ltb (get_or y 0 0) (get_or x 0 0)
    then greater
    else if ltb (get_or x 0 0) (get_or y 0 0)
    then less
    else equal

by_first-IsOrder : IsOrder by_first
unfolding by_first
by_first-IsOrder = record {
  reflexive = λ x. ground (arith);
  total = λ x y h. ground (arith, h);
  transitive = λ x y z h k. ground (arith, h, k);
}

abbrev numbers : Mem
numbers a = get_or (9 ∷ 0 ∷ 5 ∷ 1 ∷ 7 ∷ 2 ∷ 5 ∷ 3 ∷ 2 ∷ 4 ∷ []) a 0

sort_lem_example :
    (m' : Mem) × (sort by_first 0 2 numbers 5 ≡ some m')
    × SortOutcome by_first by_first-IsOrder 0 2 5 (omega arith) numbers m'
sort_lem_example = sort_lem by_first by_first-IsOrder 0 2 5 (omega arith) numbers (omega arith)
