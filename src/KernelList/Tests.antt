-- ===== src/KernelList/Tests.antt =====
-- lib/kernel/list.c: a list at 1 that holds 3, 5 and 4, and one at 20 that holds 22.
use turbo_baker.Prelude.{
  ℕ, ◌≡◌, refl, false, some, List, [], ◌∷◌, ◌++◌, arith, ltb, ◌==◌, if◌then◌else◌, get_or, count,
}
use turbo_baker.KernelList.{Links, list_splice}
use turbo_baker.KernelList.Chain.{Holds}
use turbo_baker.KernelList.Less.{StrictWeak, All, Ordered}
use turbo_baker.KernelList.Splice.{list_splice_lem}
use turbo_baker.KernelList.Walk.{list_reverse, list_insert_ordered, list_unique}
use turbo_baker.KernelList.Walk.Place.{list_insert_ordered_lem}
use turbo_baker.KernelList.Walk.Kept.{IsUnique}
use turbo_baker.KernelList.Walk.Unique.{list_unique_lem}
use turbo_baker.KernelList.Walk.Reverse.{list_reverse_lem}
use turbo_baker.KernelList.Merge.{list_sort}
use turbo_baker.KernelList.Merge.Sorting.{list_sort_lem}

-- Entry `i` is the link of the element at `i`.
abbrev nexts : List ℕ
nexts =
    0 ∷ 3 ∷ 0 ∷ 5 ∷ 9 ∷ 4 ∷ 0 ∷ 0 ∷ 0 ∷ 0 ∷ 0 ∷ 0 ∷ 0 ∷ 0 ∷ 0 ∷ 0 ∷ 0 ∷ 0 ∷ 0 ∷ 0 ∷ 22 ∷ 0 ∷ 28 ∷ 0
    ∷ 0 ∷ 0 ∷ 0 ∷ 0 ∷ 0 ∷ []

abbrev prevs : List ℕ
prevs =
    0 ∷ 0 ∷ 0 ∷ 1 ∷ 5 ∷ 3 ∷ 0 ∷ 0 ∷ 0 ∷ 4 ∷ 0 ∷ 0 ∷ 0 ∷ 0 ∷ 0 ∷ 0 ∷ 0 ∷ 0 ∷ 0 ∷ 0 ∷ 0 ∷ 0 ∷ 20 ∷ 0
    ∷ 0 ∷ 0 ∷ 0 ∷ 0 ∷ 22 ∷ []

abbrev two_lists : Links
two_lists = record { prev = λ e. get_or prevs e 0; next = λ e. get_or nexts e 0 }

three_held : Holds two_lists 1 (3 ∷ 5 ∷ 4 ∷ [])
three_held = record {
  front = refl;
  back = refl;
  linked = (refl, refl, (refl, refl, (refl, refl, (refl, refl, tt))));
  distinct = λ q. ground arith;
  no_null = refl;
}

one_held : Holds two_lists 20 (22 ∷ [])
one_held = record {
  front = refl;
  back = refl;
  linked = (refl, refl, (refl, refl, tt));
  distinct = λ q. ground arith;
  no_null = refl;
}

-- An empty list at 2.
abbrev empty_list : Links
empty_list = record { prev = λ e. if e == 10 then 2 else 0; next = λ e. if e == 2 then 10 else 0 }

none_held : Holds empty_list 2 []
none_held = record {
  front = refl;
  back = refl;
  linked = (refl, refl, tt);
  distinct = λ q. ground arith;
  no_null = refl;
}

address_order : StrictWeak ltb
address_order = record { asym = λ a b h. ground arith; split = λ a b c h k. ground arith }

list_splice_lem_example :
    (s' : Links) × (list_splice 28 3 4 two_lists ≡ some s')
    × Holds s' 1 (4 ∷ [])
    × Holds s' 20 (22 ∷ 3 ∷ 5 ∷ [])
list_splice_lem_example =
    list_splice_lem two_lists 1 [] 3 (5 ∷ []) (4 ∷ []) 20 (22 ∷ []) [] three_held one_held
      (λ q. ground arith)

list_reverse_lem_example :
    (s' : Links) × (list_reverse 4 1 two_lists ≡ some s') × Holds s' 1 (4 ∷ 5 ∷ 3 ∷ [])
list_reverse_lem_example = list_reverse_lem 4 two_lists 1 (3 ∷ 5 ∷ 4 ∷ []) three_held (omega arith)

list_insert_ordered_lem_example :
    (us : List ℕ) × (vs : List ℕ) × (s' : Links) × (22 ∷ [] ≡ us ++ vs)
    × All (λ x. ltb 21 x ≡ false) us
    × (list_insert_ordered ltb 2 20 21 two_lists ≡ some s')
    × Holds s' 20 (us ++ (21 ∷ vs))
    × Ordered ltb (us ++ (21 ∷ vs))
list_insert_ordered_lem_example =
    list_insert_ordered_lem ltb 2 two_lists 20 (22 ∷ []) 21 address_order one_held
      (λ e. absurd (omega arith), refl) (omega arith) (tt, tt)

list_unique_lem_example :
    (ks : List ℕ) × (us : List ℕ) × (s' : Links) × IsUnique (λ a b. false) (3 ∷ 5 ∷ 4 ∷ []) ks us
    × (list_unique (λ a b. false) 4 1 20 two_lists ≡ some s')
    × Holds s' 1 ks
    × Holds s' 20 (22 ∷ us)
list_unique_lem_example =
    list_unique_lem (λ a b. false) 4 two_lists 1 (3 ∷ 5 ∷ 4 ∷ []) 20 (22 ∷ []) three_held one_held
      (λ q. ground arith) (omega arith)

list_sort_lem_example :
    (ys : List ℕ) × (s' : Links) × (list_sort ltb 4 1 two_lists ≡ some s')
    × Holds s' 1 ys
    × Ordered ltb ys
    × ((q : ℕ) → count q ys ≡ count q (3 ∷ 5 ∷ 4 ∷ []))
list_sort_lem_example =
    list_sort_lem ltb 4 two_lists 1 (3 ∷ 5 ∷ 4 ∷ []) address_order three_held (omega arith)
      (omega arith)
