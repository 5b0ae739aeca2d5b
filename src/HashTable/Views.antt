-- ===== src/HashTable/Views.antt =====
-- lib/kernel/hash.c: the operations of the table, seen through hash_find(), from any table on which
-- the invariant holds.
use turbo_baker.Prelude.{
  ℕ, ◌+◌, ◌-◌, ◌^◌, ◌<◌, ◌≡◌, refl, sym, ap, ◌∙◌, inl, inr, Bool, true, not, ◌&&◌, Option, none,
  some, [], arith, if◌then◌else◌, Bool-cases, Option-cases, get_or, length-replicate, is_some,
}
use turbo_baker.HashTable.{
  Hash, alike, find_bucket, list_inits, is_power_of_2, turn_off_least_1bit, rehash, remove_elem,
  insert_elem, hash_init, hash_clear, hash_find, hash_insert, hash_replace, hash_delete,
}
use turbo_baker.HashTable.Find.{
  Respects, alike_congr, count_alike, find_elem-none, find_elem-some, count_alike_congr,
  count_alike-none,
}
use turbo_baker.HashTable.Buckets.{IsValid}
use turbo_baker.HashTable.Move.{home_congr}
use turbo_baker.HashTable.Rehash.{rehash_lem, inits_empty, total-list_inits}
use turbo_baker.HashTable.Laws.{
  insert_elem-IsValid, hash_find-insert_elem, remove_elem-IsValid, hash_find-remove_elem,
  elem_cnt-remove_elem, removed_absent,
}

four : is_power_of_2 4 ≡ true
unfolding is_power_of_2 turn_off_least_1bit
four = refl

module _ (hash : ℕ → ℕ) (less : ℕ → ℕ → Bool) (r : Respects hash less) where
  -- A table `h'` that is well formed, answers searches as `f` says, and counts `n` elements.
  pub record Answers (h' : Hash) (f : ℕ → Option ℕ) (n : ℕ) : Type 0 where
    pub valid : IsValid hash less r h'
    pub reads : (q : ℕ) → hash_find hash less h' q ≡ f q
    pub size : h'.elem_cnt ≡ n

  rehash-Answers :
      (granted : Bool) (h : Hash) (f : ℕ → Option ℕ) (n : ℕ)
      → Answers h f n
      → Answers (rehash hash granted h) f n
  rehash-Answers granted h f n a =
      let (v, same, size) = rehash_lem hash less r h a.valid granted in
      record { valid = v; reads = λ q. same q ∙ a.reads q; size = size ∙ a.size }

  module _ (granted : Bool) (h : Hash) (v : IsValid hash less r h) (e : ℕ) where
    -- A search that finds nothing finds nothing for an equal element either.
    find_none-alike :
        hash_find hash less h e ≡ none
        → (q : ℕ) → alike less e q ≡ true
        → hash_find hash less h q ≡ none
    unfolding hash_find
    find_none-alike n q s =
        let b = get_or h.buckets (find_bucket hash h.bucket_cnt e) [] in
        rw (sym (home_congr hash less r h.bucket_cnt e q s)) (
          find_elem-none hash less r q b
            (sym (count_alike_congr hash less r e q b s) ∙ count_alike-none hash less r e b n))

    no_count :
        hash_find hash less h e ≡ none
        → count_alike hash less r e (get_or h.buckets (find_bucket hash h.bucket_cnt e) []) ≡ 0
    unfolding hash_find
    no_count n =
        count_alike-none hash less r e (get_or h.buckets (find_bucket hash h.bucket_cnt e) []) n

    found_alike : (x : ℕ) → hash_find hash less h e ≡ some x → alike less x e ≡ true
    unfolding hash_find
    found_alike x f =
        (find_elem-some hash less r e (get_or h.buckets (find_bucket hash h.bucket_cnt e) []) x f).0

    insert_elem-Answers :
        h.elem_cnt + 1 < 2 ^ 32
        → hash_find hash less h e ≡ none
        → Answers
            (insert_elem h (find_bucket hash h.bucket_cnt e) e)
            (λ q. if alike less e q then some e else hash_find hash less h q)
            (h.elem_cnt + 1)
    unfolding insert_elem
    insert_elem-Answers room n = record {
      valid = insert_elem-IsValid hash less r h v e room (no_count n);
      reads = hash_find-insert_elem hash less r h v e room (no_count n);
      size = omega arith;
    }

    -- In a well-formed table of fewer than 2 ^ 32 - 1 elements, whether or not rehash() gets
    -- memory, hash_insert() returns what hash_find() finds for the new element; the table is then
    -- well formed, has one element more if that was nothing, and finds the new element for what
    -- equals it then, and else what it found before.
    pub hash_insert_lem :
        h.elem_cnt + 1 < 2 ^ 32
        → let out = hash_insert hash less granted h e in
          (out.0 ≡ hash_find hash less h e)
          × Answers out.1
              (λ q.
                if not (is_some out.0) && alike less e q then some e else hash_find hash less h q)
              (if is_some out.0 then h.elem_cnt else h.elem_cnt + 1)
    unfolding hash_insert hash_find
    hash_insert_lem room = elim (Option-cases (hash_find hash less h e)) [
      | inl n ↦ rw n (refl, rehash-Answers granted _ _ _ (insert_elem-Answers room n))
      | inr (x, f) ↦ rw f (
        refl,
        rehash-Answers granted h _ _ (record { valid = v; reads = λ q. refl; size = refl }),
      )
    ]

    remove_elem-Answers :
        (x : ℕ)
        → hash_find hash less h e ≡ some x
        → Answers
            (remove_elem h x)
            (λ q. if alike less e q then none else hash_find hash less h q)
            (h.elem_cnt - 1)
    remove_elem-Answers x f = record {
      valid = remove_elem-IsValid hash less r h v e x f;
      reads = λ q.
          hash_find-remove_elem hash less r h v e x f q
          ∙ ap (λ (b : Bool). if b then none else hash_find hash less h q)
              (alike_congr hash less r x e q (found_alike x f));
      size = omega (arith, elem_cnt-remove_elem hash less r h v e x f);
    }

    -- hash_delete() behind the search.
    delete_found :
        (found : Option ℕ)
        → hash_find hash less h e ≡ found
        → Answers
            (elim found as (λ o. Hash) [
              | none ↦ h
              | some x ↦ rehash hash granted (remove_elem h x)
            ])
            (λ q. if alike less e q then none else hash_find hash less h q)
            (if is_some found then h.elem_cnt - 1 else h.elem_cnt)
    delete_found none n = record {
      valid = v;
      reads = λ q. elim (Bool-cases (alike less e q)) [
        | inl s ↦ rw s (find_none-alike n q s)
        | inr s ↦ rw s refl
      ];
      size = refl;
    }
    delete_found (some x) f = rehash-Answers granted _ _ _ (remove_elem-Answers x f)

    -- In a well-formed table hash_delete() returns what hash_find() finds; the table is then well
    -- formed, finds nothing for what equals the element, and else what it found before, and has
    -- one element less if one was found.
    pub hash_delete_lem :
        let out = hash_delete hash less granted h e in
        (out.0 ≡ hash_find hash less h e)
        × Answers out.1
            (λ q. if alike less e q then none else hash_find hash less h q)
            (if is_some out.0 then h.elem_cnt - 1 else h.elem_cnt)
    unfolding hash_delete hash_find
    hash_delete_lem = (refl, delete_found (hash_find hash less h e) refl)

    -- hash_replace() behind the removal of an equal element `x`.
    replace_found :
        (x : ℕ)
        → h.elem_cnt + 1 < 2 ^ 32
        → hash_find hash less h e ≡ some x
        → Answers
            (insert_elem (remove_elem h x) (find_bucket hash h.bucket_cnt e) e)
            (λ q. if alike less e q then some e else hash_find hash less h q)
            h.elem_cnt
    unfolding insert_elem remove_elem
    replace_found x room f =
        let h' = remove_elem h x in
        let a = remove_elem-Answers x f in
        let absent = removed_absent hash less r h v e x f e (found_alike x f) in
        let size = elem_cnt-remove_elem hash less r h v e x f in
        let room' : h'.elem_cnt + 1 < 2 ^ 32 = omega arith in
        record {
          valid = insert_elem-IsValid hash less r h' a.valid e room' absent;
          reads = λ q.
              hash_find-insert_elem hash less r h' a.valid e room' absent q
              ∙ (elim (Bool-cases (alike less e q)) [
                | inl s ↦ rw s refl
                | inr s ↦ rw s (a.reads q ∙ rw s refl)
              ]);
          size = omega arith;
        }

    -- In a well-formed table of fewer than 2 ^ 32 - 1 elements, whether or not rehash() gets
    -- memory, hash_replace() returns what hash_find() finds for the new element; the table is then
    -- well formed, finds the new element for what equals it and else what it found before, and has
    -- one element more only if there was none to replace.
    pub hash_replace_lem :
        h.elem_cnt + 1 < 2 ^ 32
        → let out = hash_replace hash less granted h e in
          (out.0 ≡ hash_find hash less h e)
          × Answers out.1
              (λ q. if alike less e q then some e else hash_find hash less h q)
              (if is_some out.0 then h.elem_cnt else h.elem_cnt + 1)
    unfolding hash_replace hash_find
    hash_replace_lem room = elim (Option-cases (hash_find hash less h e)) [
      | inl n ↦ rw n (refl, rehash-Answers granted _ _ _ (insert_elem-Answers room n))
      | inr (x, f) ↦ rw f (refl, rehash-Answers granted _ _ _ (replace_found x room f))
    ]

  empty-Answers :
      (n : ℕ)
      → 0 < n
      → n < 2 ^ 32
      → is_power_of_2 n ≡ true
      → Answers (record { elem_cnt = 0; bucket_cnt = n; buckets = list_inits n }) (λ q. none) 0
  unfolding hash_find list_inits
  empty-Answers n p b t = record {
    valid = record {
      positive = p;
      bounded = b;
      size_bounded = omega arith;
      width = length-replicate n [];
      power = t;
      placed = λ q i.
          (omega (arith, inits_empty hash less r n q i), λ ne. inits_empty hash less r n q i);
      counted = total-list_inits hash less r n;
    };
    reads = λ q.
        find_elem-none hash less r q (get_or (list_inits n) (find_bucket hash n q) [])
          (inits_empty hash less r n q (find_bucket hash n q));
    size = refl;
  }

  pub hash_clear_lem : (h : Hash) → IsValid hash less r h → Answers (hash_clear h).1 (λ q. none) 0
  unfolding hash_clear
  hash_clear_lem h v = empty-Answers h.bucket_cnt v.positive v.bounded v.power

  pub hash_init_lem : (h : Hash) × (hash_init true ≡ some h) × Answers h (λ q. none) 0
  unfolding hash_init
  hash_init_lem = (
    record { elem_cnt = 0; bucket_cnt = 4; buckets = list_inits 4 },
    refl,
    empty-Answers 4 (omega arith) (omega arith) four,
  )
