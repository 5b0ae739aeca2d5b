-- ===== src/HashTable/Laws.antt =====
-- lib/kernel/hash.c: hash_insert(), hash_replace() and hash_delete(), seen through hash_find().
use turbo_baker.Prelude.{
  ℕ, suc, ◌+◌, ◌^◌, ◌<◌, ◌≡◌, refl, sym, ◌∙◌, ◌≢◌, inl, inr, Bool, true, none, some, [], ◌∷◌, map,
  arith, ◌==◌, if◌then◌else◌, ==→eq, ==→ne, Bool-cases, length, get_or, length-set, count,
}
use turbo_baker.HashTable.{
  Hash, alike, find_elem, find_bucket, take_out, remove_elem, insert_elem, hash_find,
}
use turbo_baker.HashTable.Find.{
  Respects, count_alike, find_elem-none, find_elem-some, count-count_alike, count_alike_congr,
  take_out-absent, count_alike-take_out, find_elem-take_out,
}
use turbo_baker.HashTable.Buckets.{
  total, get_or-set, total-set, get_or-map-take_out, length-map-take_out, total-take_out,
  find_bucket-lt, IsValid,
}
use turbo_baker.HashTable.Move.{home_congr}

module _ (hash : ℕ → ℕ) (less : ℕ → ℕ → Bool) (r : Respects hash less) (h : Hash)
    (v : IsValid hash less r h) where
  abbrev home : ℕ → ℕ
  home q = find_bucket hash h.bucket_cnt q

  module _ (e : ℕ) (room : h.elem_cnt + 1 < 2 ^ 32)
      (absent : count_alike hash less r e (get_or h.buckets (home e) []) ≡ 0) where
    abbrev inserted : Hash
    inserted = insert_elem h (home e) e

    inserted_bucket :
        (i : ℕ)
        → get_or (inserted.buckets) i []
          ≡ (if home e == i then e ∷ get_or h.buckets (home e) [] else get_or h.buckets i [])
    unfolding insert_elem
    inserted_bucket i =
        get_or-set h.buckets (home e) i (e ∷ get_or h.buckets (home e) []) []
          (omega (arith, v.width, find_bucket-lt hash h.bucket_cnt e v.positive v.bounded))

    inserted_count :
        (q i : ℕ)
        → count_alike hash less r q (get_or (inserted.buckets) i [])
          ≡ (if home e == i then (if alike less e q then 1 else 0) else 0)
            + count_alike hash less r q (get_or h.buckets i [])
    unfolding count_alike
    inserted_count q i = elim (Bool-cases (home e == i)) [
      | inl same ↦ rw (inserted_bucket i, same, sym (==→eq (home e) i same)) refl
      | inr other ↦ rw (inserted_bucket i, other) (omega arith)
    ]

    pub insert_elem-IsValid : IsValid hash less r inserted
    unfolding insert_elem
    insert_elem-IsValid =
        let inside : home e < length h.buckets =
          omega (arith, v.width, find_bucket-lt hash h.bucket_cnt e v.positive v.bounded) in
        record {
          positive = v.positive;
          bounded = v.bounded;
          size_bounded = omega arith;
          width = length-set h.buckets (home e) (e ∷ get_or h.buckets (home e) []) ∙ v.width;
          power = v.power;
          placed = λ q i. (
            ground (
              arith,
              inserted_count q i,
              v.placed q i,
              absent,
              count_alike_congr hash less r e q (get_or h.buckets i []),
            ),
            λ ne.
                ground (
                  arith,
                  inserted_count q i,
                  v.placed q i,
                  home_congr hash less r h.bucket_cnt e q,
                ),
          );
          counted = omega (
            arith,
            total-set h.buckets (home e) (e ∷ get_or h.buckets (home e) []) inside,
            v.counted,
            room,
          );
        }

    pub hash_find-insert_elem :
        (q : ℕ)
        → hash_find hash less inserted q
          ≡ (if alike less e q then some e else hash_find hash less h q)
    unfolding hash_find find_elem insert_elem
    hash_find-insert_elem q =
        rw (inserted_bucket (home q)) (ground (arith, home_congr hash less r h.bucket_cnt e q))

  module _ (e x : ℕ) (found : hash_find hash less h e ≡ some x) where
    here : (alike less x e ≡ true) × (0 < count x (get_or h.buckets (home e) []))
    unfolding hash_find
    here = find_elem-some hash less r e (get_or h.buckets (home e) []) x found

    elsewhere : (i : ℕ) → home e ≢ i → count x (get_or h.buckets i []) ≡ 0
    elsewhere i ne = omega (
      arith,
      count-count_alike hash less r x (get_or h.buckets i []),
      (v.placed x i).1 (λ p. ne (sym (home_congr hash less r h.bucket_cnt x e here.0) ∙ p)),
    )

    removed_count :
        (q i : ℕ)
        → count_alike hash less r q (get_or ((remove_elem h x).buckets) i [])
            + (if home e == i then (if alike less x q then 1 else 0) else 0)
          ≡ count_alike hash less r q (get_or h.buckets i [])
    unfolding remove_elem
    removed_count q i = elim (Bool-cases (home e == i)) [
      | inl same ↦
          rw (get_or-map-take_out x h.buckets i, same, sym (==→eq (home e) i same))
            (count_alike-take_out hash less r q x (get_or h.buckets (home e) []) here.1)
      | inr other ↦
          rw
            (
              get_or-map-take_out x h.buckets i,
              other,
              take_out-absent hash less r x (get_or h.buckets i [])
                  (elsewhere i (==→ne (home e) i other)),
            )
            (omega arith)
    ]

    removed_total : suc (total ((remove_elem h x).buckets)) ≡ h.elem_cnt
    unfolding remove_elem
    removed_total = total-take_out hash less r x h.buckets (home e) here.1 elsewhere ∙ v.counted

    pub elem_cnt-remove_elem : suc ((remove_elem h x).elem_cnt) ≡ h.elem_cnt
    unfolding remove_elem
    elem_cnt-remove_elem = omega (arith, removed_total, v.size_bounded)

    pub remove_elem-IsValid : IsValid hash less r (remove_elem h x)
    unfolding remove_elem
    remove_elem-IsValid = record {
      positive = v.positive;
      bounded = v.bounded;
      size_bounded = omega (arith, v.size_bounded, removed_total);
      width = length-map-take_out x h.buckets ∙ v.width;
      power = v.power;
      placed = λ q i. (
        omega (arith, removed_count q i, v.placed q i),
        λ ne. omega (arith, removed_count q i, (v.placed q i).1 ne),
      );
      counted = omega (arith, removed_total, v.size_bounded);
    }

    pub hash_find-remove_elem :
        (q : ℕ)
        → hash_find hash less (remove_elem h x) q
          ≡ (if alike less x q then none else hash_find hash less h q)
    unfolding hash_find remove_elem
    hash_find-remove_elem q = elim (Bool-cases (alike less x q)) [
      | inl e' ↦ rw e' (
          find_elem-none hash less r q (get_or (map (take_out x) h.buckets) (home q) []) (
            ground (
              arith,
              removed_count q (home q),
              (v.placed q (home q)).0,
              home_congr hash less r h.bucket_cnt x e,
              home_congr hash less r h.bucket_cnt x q,
              here,
            )))
      | inr e' ↦
          rw (e', get_or-map-take_out x h.buckets (home q))
            (find_elem-take_out hash less r q x (get_or h.buckets (home q) []) e')
    ]

    -- Nothing equal to `x` is left.
    pub removed_absent :
        (q : ℕ)
        → alike less x q ≡ true
        → count_alike hash less r q (get_or ((remove_elem h x).buckets) (home q) []) ≡ 0
    removed_absent q e' = ground (
      arith,
      removed_count q (home q),
      (v.placed q (home q)).0,
      home_congr hash less r h.bucket_cnt x e,
      home_congr hash less r h.bucket_cnt x q,
      here,
    )
