-- ===== src/HashTable/Rehash.antt =====
-- lib/kernel/hash.c: rehash().
use turbo_baker.Prelude.{
  ℕ, zero, suc, ◌+◌, ◌/◌, ◌^◌, ◌≤◌, ◌<◌, ◌≡◌, refl, sym, ap, ◌∙◌, ◌≢◌, inl, inr, Bool, true, Option,
  none, some, List, [], ◌∷◌, ◌++◌, arith, ltb, ◌==◌, if◌then◌else◌, ==→eq, ==→ne, Bool-cases,
  get_or, length-append, length-replicate,
}
use mathlib.Core.Option.{or_else}
use turbo_baker.HashTable.{
  Hash, alike, find_elem, find_bucket, clear_buckets, list_inits, is_power_of_2, new_bucket_cnt,
  move_bucket, move_all, rehash, hash_find,
}
use turbo_baker.HashTable.Find.{Respects, count_alike, find_elem-none}
use turbo_baker.HashTable.Buckets.{total, IsValid}
use turbo_baker.HashTable.Move.{round_down_lem, Moved, Movable, move_bucket_lem}

or_else-none : (x : Option ℕ) → or_else x none ≡ x
unfolding or_else
or_else-none none = refl
or_else-none (some a) = refl

none-or_else : (x : Option ℕ) → or_else none x ≡ x
unfolding or_else
none-or_else x = refl

or_else_assoc : (x y z : Option ℕ) → or_else (or_else x y) z ≡ or_else x (or_else y z)
unfolding or_else
or_else_assoc none y z = refl
or_else_assoc (some a) y z = refl

module _ (hash : ℕ → ℕ) (less : ℕ → ℕ → Bool) (r : Respects hash less) where
  count_alike-append :
      (q : ℕ) (xs ys : List ℕ)
      → count_alike hash less r q (xs ++ ys)
        ≡ count_alike hash less r q xs + count_alike hash less r q ys
  unfolding count_alike
  count_alike-append q [] ys = omega arith
  count_alike-append q (x ∷ xs) ys = omega (arith, count_alike-append q xs ys)

  find_elem-append :
      (q : ℕ) (xs ys : List ℕ)
      → find_elem less (xs ++ ys) q ≡ or_else (find_elem less xs q) (find_elem less ys q)
  unfolding find_elem or_else
  find_elem-append q [] ys = refl
  find_elem-append q (x ∷ xs) ys = elim (Bool-cases (alike less x q)) [
    | inl e ↦ rw e refl
    | inr e ↦ rw e (find_elem-append q xs ys)
  ]

  -- Of two sequences of which at most one has an element equal to `q`, the order is of no account.
  find_elem_swap :
      (q : ℕ) (xs ys : List ℕ)
      → count_alike hash less r q xs + count_alike hash less r q ys ≤ 1
      → or_else (find_elem less ys q) (find_elem less xs q) ≡ find_elem less (xs ++ ys) q
  find_elem_swap q xs ys h = elim (Bool-cases (count_alike hash less r q xs == 0)) [
    | inl e ↦
        rw (find_elem-append q xs ys, find_elem-none hash less r q xs (==→eq _ 0 e))
          (or_else-none _ ∙ sym (none-or_else _))
    | inr e ↦
        rw
          (
            find_elem-append q xs ys,
            find_elem-none hash less r q ys
                (omega (arith, h, ==→ne (count_alike hash less r q xs) 0 e)),
          )
          (none-or_else _ ∙ sym (or_else-none _))
  ]

  module _ (n : ℕ) (pos : 0 < n) (bound : n < 2 ^ 32) where
    move_all_lem :
        (bs new : List (List ℕ))
        → Movable hash less r n (clear_buckets bs) new
        → Moved hash less r n (clear_buckets bs) new (move_all hash n bs new)
    unfolding move_all clear_buckets
    move_all_lem [] new m = record {
      width = refl;
      elsewhere = m.elsewhere;
      here = λ q. count_alike-append q [] (get_or new (find_bucket hash n q) []);
      sum = omega arith;
      reads = λ q. find_elem-append q [] (get_or new (find_bucket hash n q) []);
    }
    move_all_lem (b ∷ bs) new m =
        let es = clear_buckets bs in
        let first = move_bucket_lem hash less r n pos bound b new (record {
          width = m.width;
          elsewhere = m.elsewhere;
          few = λ q. omega (arith, m.few q, count_alike-append q b es);
        }) in
        let out = move_bucket hash n b new in
        let then_ = move_all_lem bs out (record {
          width = first.width ∙ m.width;
          elsewhere = first.elsewhere;
          few = λ q. omega (arith, m.few q, first.here q, count_alike-append q b es);
        }) in
        record {
          width = then_.width ∙ first.width;
          elsewhere = then_.elsewhere;
          here = λ q. omega (arith, then_.here q, first.here q, count_alike-append q b es);
          sum = omega (arith, then_.sum, first.sum, length-append b es);
          reads = λ q.
              then_.reads q
              ∙ ap (λ (o : Option ℕ). or_else (find_elem less es q) o) (first.reads q)
              ∙ sym (
                  or_else_assoc (find_elem less es q) (find_elem less b q)
                    (find_elem less (get_or new (find_bucket hash n q) []) q))
              ∙ ap
                  (λ (o : Option ℕ).
                    or_else o (find_elem less (get_or new (find_bucket hash n q) []) q))
                  (find_elem_swap q b es (omega (arith, m.few q, count_alike-append q b es)));
        }

  flat_none :
      (q : ℕ) (bs : List (List ℕ))
      → ((i : ℕ) → count_alike hash less r q (get_or bs i []) ≡ 0)
      → count_alike hash less r q (clear_buckets bs) ≡ 0
  unfolding clear_buckets count_alike
  flat_none q [] h = refl
  flat_none q (b ∷ bs) h =
      omega (arith, count_alike-append q b (clear_buckets bs), h 0, flat_none q bs (λ i. h (suc i)))

  -- All the buckets together hold of `q` what its own bucket does.
  pub flat_lem :
      (q : ℕ) (bs : List (List ℕ)) (j : ℕ)
      → ((i : ℕ) → j ≢ i → count_alike hash less r q (get_or bs i []) ≡ 0)
      → (count_alike hash less r q (clear_buckets bs) ≡ count_alike hash less r q (get_or bs j []))
        × (find_elem less (clear_buckets bs) q ≡ find_elem less (get_or bs j []) q)
  unfolding clear_buckets
  flat_lem q [] j h = (refl, refl)
  flat_lem q (b ∷ bs) zero h =
      let none_left = flat_none q bs (λ i. h (suc i) (omega arith)) in
      (
        omega (arith, count_alike-append q b (clear_buckets bs), none_left),
        rw
            (
              find_elem-append q b (clear_buckets bs),
              find_elem-none hash less r q (clear_buckets bs) none_left,
            )
            (or_else-none _),
      )
  flat_lem q (b ∷ bs) (suc j) h =
      let none_here = h 0 (omega arith) in
      let (counted, found) = flat_lem q bs j (λ i ne. h (suc i) (λ e. ne (omega (arith, e)))) in
      (
        omega (arith, count_alike-append q b (clear_buckets bs), none_here, counted),
        rw
            (
              find_elem-append q b (clear_buckets bs),
              find_elem-none hash less r q b none_here,
              found,
            )
            (none-or_else _),
      )

  get_or-list_inits : (n i : ℕ) → get_or (list_inits n) i [] ≡ []
  unfolding list_inits
  get_or-list_inits zero i = refl
  get_or-list_inits (suc n) zero = refl
  get_or-list_inits (suc n) (suc i) = get_or-list_inits n i

  pub total-list_inits : (n : ℕ) → total (list_inits n) ≡ 0
  unfolding list_inits clear_buckets
  total-list_inits zero = refl
  total-list_inits (suc n) = total-list_inits n

  pub inits_empty : (n q i : ℕ) → count_alike hash less r q (get_or (list_inits n) i []) ≡ 0
  unfolding count_alike
  inits_empty n q i = rw (get_or-list_inits n i) refl

  new_bucket_cnt_lem :
      (h : Hash)
      → h.elem_cnt < 2 ^ 32
      → (0 < new_bucket_cnt h)
        × (new_bucket_cnt h < 2 ^ 32)
        × (is_power_of_2 (new_bucket_cnt h) ≡ true)
  unfolding new_bucket_cnt
  new_bucket_cnt_lem h b =
      let least : ℕ = if ltb (h.elem_cnt / 2) 4 then 4 else h.elem_cnt / 2 in
      let (p, l, t) =
        round_down_lem (suc least) least (omega arith) (ground arith) (ground arith) in
      (p, ground arith, t)

  module _ (h : Hash) (v : IsValid hash less r h) where
    abbrev fresh : ℕ
    fresh = new_bucket_cnt h

    start_Movable : Movable hash less r fresh (clear_buckets h.buckets) (list_inits fresh)
    unfolding list_inits
    start_Movable = record {
      width = length-replicate fresh [];
      elsewhere = λ q i ne. inits_empty fresh q i;
      few = λ q. omega (
        arith,
        inits_empty fresh q (find_bucket hash fresh q),
        (flat_lem q h.buckets (find_bucket hash h.bucket_cnt q) (λ i ne. (v.placed q i).1 ne)).0,
        (v.placed q (find_bucket hash h.bucket_cnt q)).0,
      );
    }

    abbrev moved : Hash
    moved = record h {
      bucket_cnt = fresh;
      buckets = move_all hash fresh h.buckets (list_inits fresh);
    }

    moved_lem :
        IsValid hash less r moved
        × ((q : ℕ) → hash_find hash less moved q ≡ hash_find hash less h q)
    unfolding hash_find list_inits find_elem
    moved_lem =
        let (p, b, t) = new_bucket_cnt_lem h v.size_bounded in
        let m = move_all_lem fresh p b h.buckets (list_inits fresh) start_Movable in
        let flat = λ (q : ℕ).
          flat_lem q h.buckets (find_bucket hash h.bucket_cnt q) (λ i ne. (v.placed q i).1 ne) in
        (
          record {
            positive = p;
            bounded = b;
            size_bounded = v.size_bounded;
            width = m.width ∙ length-replicate fresh [];
            power = t;
            placed = λ q i. (
              ground (
                arith,
                m.elsewhere q i,
                m.here q,
                (flat q).0,
                (v.placed q (find_bucket hash h.bucket_cnt q)).0,
                inits_empty fresh q i,
              ),
              λ ne. m.elsewhere q i ne,
            );
            counted = omega (arith, m.sum, total-list_inits fresh, v.counted);
          },
          λ q.
              m.reads q
              ∙ ap
                  (λ (l : List ℕ).
                    or_else (find_elem less (clear_buckets h.buckets) q) (find_elem less l q))
                  (get_or-list_inits fresh (find_bucket hash fresh q))
              ∙ or_else-none (find_elem less (clear_buckets h.buckets) q)
              ∙ (flat q).1,
        )

    -- rehash() keeps a table well formed, and every search finds what it found.
    pub rehash_lem :
        (granted : Bool)
        → IsValid hash less r (rehash hash granted h)
          × ((q : ℕ) → hash_find hash less (rehash hash granted h) q ≡ hash_find hash less h q)
          × ((rehash hash granted h).elem_cnt ≡ h.elem_cnt)
    unfolding rehash
    rehash_lem granted = elim (Bool-cases (new_bucket_cnt h == h.bucket_cnt)) [
      | inl e ↦ rw e (v, (λ q. refl), refl)
      | inr e ↦ elim (Bool-cases granted) [
        | inl g ↦ rw (e, g) (moved_lem.0, moved_lem.1, refl)
        | inr g ↦ rw (e, g) (v, (λ q. refl), refl)
      ]
    ]
