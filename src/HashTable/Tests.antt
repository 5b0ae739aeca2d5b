-- ===== src/HashTable/Tests.antt =====
-- lib/kernel/hash.c: a table of addresses in their own order, hashed by themselves.
use turbo_baker.Prelude.{
  ℕ, ◌+◌, ◌-◌, ◌≤◌, ◌≡◌, true, false, not, ◌&&◌, none, some, arith, ltb, ◌==◌, if◌then◌else◌,
  ltb→ge, length, Mem, is_some,
}
use turbo_baker.HashTable.{
  Hash, alike, find_elem, hash_find, hash_insert, hash_replace, hash_delete, hash_first, hash_apply,
}
use turbo_baker.HashTable.Find.{Respects, count_alike}
use turbo_baker.HashTable.Buckets.{IsValid}
use turbo_baker.HashTable.Views.{
  Answers, hash_init_lem, hash_insert_lem, hash_replace_lem, hash_delete_lem,
}
use turbo_baker.HashTable.Iterate.{iterate, iterate-hash_find}

abbrev itself : ℕ → ℕ
itself a = a

by_address : Respects itself ltb
by_address = record {
  order = record { asym = λ a b h. ground arith; split = λ a b c h k. ground arith };
  same_hash = λ a b h k. omega (arith, ltb→ge a b h, ltb→ge b a k);
}

empty : Hash
empty = (hash_init_lem itself ltb by_address).0

empty-IsValid : IsValid itself ltb by_address empty
unfolding empty
empty-IsValid = (hash_init_lem itself ltb by_address).2.valid

empty_size : empty.elem_cnt ≡ 0
unfolding empty
empty_size = (hash_init_lem itself ltb by_address).2.size

-- With the element 5.
one : Hash
one = (hash_insert itself ltb true empty 5).1

one-IsValid : IsValid itself ltb by_address one
unfolding one
one-IsValid =
    (hash_insert_lem itself ltb by_address true empty empty-IsValid 5
      (omega (arith, empty_size))).1.valid

one_size : one.elem_cnt ≤ 1
unfolding one
one_size = ground (
  arith,
  empty_size,
  (hash_insert_lem itself ltb by_address true empty empty-IsValid 5
      (omega (arith, empty_size))).1.size,
)

hash_insert_lem_example :
    let out = hash_insert itself ltb true one 9 in
    (out.0 ≡ hash_find itself ltb one 9)
    × Answers itself ltb by_address out.1
        (λ q. if not (is_some out.0) && alike ltb 9 q then some 9 else hash_find itself ltb one q)
        (if is_some out.0 then one.elem_cnt else one.elem_cnt + 1)
hash_insert_lem_example =
    hash_insert_lem itself ltb by_address true one one-IsValid 9 (omega (arith, one_size))

hash_replace_lem_example :
    let out = hash_replace itself ltb false one 5 in
    (out.0 ≡ hash_find itself ltb one 5)
    × Answers itself ltb by_address out.1
        (λ q. if alike ltb 5 q then some 5 else hash_find itself ltb one q)
        (if is_some out.0 then one.elem_cnt else one.elem_cnt + 1)
hash_replace_lem_example =
    hash_replace_lem itself ltb by_address false one one-IsValid 5 (omega (arith, one_size))

hash_delete_lem_example :
    let out = hash_delete itself ltb true one 5 in
    (out.0 ≡ hash_find itself ltb one 5)
    × Answers itself ltb by_address out.1
        (λ q. if alike ltb 5 q then none else hash_find itself ltb one q)
        (if is_some out.0 then one.elem_cnt - 1 else one.elem_cnt)
hash_delete_lem_example = hash_delete_lem itself ltb by_address true one one-IsValid 5

iterate-hash_find_example :
    let es = iterate 2 one (hash_first one) in
    (es ≡ hash_apply one)
    × (length es ≡ one.elem_cnt)
    × ((q : ℕ) → find_elem ltb es q ≡ hash_find itself ltb one q)
    × ((q : ℕ) → count_alike itself ltb by_address q es ≤ 1)
iterate-hash_find_example =
    iterate-hash_find itself ltb by_address one one-IsValid 2 (omega (arith, one_size))

-- The string "ab" at 7.
abbrev ab : Mem
ab a = if a == 7 then 97 else if a == 8 then 98 else 0
