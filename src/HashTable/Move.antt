-- ===== src/HashTable/Move.antt =====
-- lib/kernel/hash.c: the loops of rehash(): the number of buckets, and a bucket that moves.
use turbo_baker.Prelude.{
  ℕ, zero, suc, ◌+◌, ◌^◌, ◌≤◌, ◌<◌, ◌≡◌, refl, ◌∙◌, ◌≢◌, inl, inr, Bool, true, false, some, List,
  [], ◌∷◌, arith, if◌then◌else◌, Bool-cases, length, get_or, set, length-set,
}
use mathlib.Core.Option.{or_else}
use turbo_baker.Prelude.Bits.{bit_and-le}
use turbo_baker.HashTable.{
  pred32, alike, find_elem, find_bucket, turn_off_least_1bit, is_power_of_2, round_down,
  move_bucket,
}
use turbo_baker.HashTable.Find.{Respects, alike-hash, count_alike, find_elem-none}
use turbo_baker.HashTable.Buckets.{total, get_or-set, total-set, find_bucket-lt}

turn_off-lt : (n : ℕ) → 0 < n → n < 2 ^ 32 → turn_off_least_1bit n < n
unfolding turn_off_least_1bit
turn_off-lt n p b = omega (arith, bit_and-le n (pred32 n))

turned : (n : ℕ) → 0 < n → is_power_of_2 n ≡ false → 0 < turn_off_least_1bit n
unfolding is_power_of_2
turned n p e = ground arith

-- The loop of rehash() ends at a power of two.
pub round_down_lem :
    (fuel n : ℕ)
    → n < fuel
    → 0 < n
    → n < 2 ^ 32
    → (0 < round_down fuel n) × (round_down fuel n ≤ n) × (is_power_of_2 (round_down fuel n) ≡ true)
unfolding round_down
round_down_lem zero n f p b = absurd (omega arith)
round_down_lem (suc fuel) n f p b = elim (Bool-cases (is_power_of_2 n)) [
  | inl e ↦ rw e (p, omega arith, e)
  | inr e ↦
      let lower = turn_off-lt n p b in
      let (q, l, t) =
        round_down_lem fuel (turn_off_least_1bit n) (omega arith) (turned n p e) (omega arith) in
      rw e (q, omega arith, t)
]

module _ (hash : ℕ → ℕ) (less : ℕ → ℕ → Bool) (r : Respects hash less) where
  -- The elements `es` have moved from a list into the buckets `new`, which have become `out`.
  pub record Moved (n : ℕ) (es : List ℕ) (new out : List (List ℕ)) : Type 0 where
    pub width : length out ≡ length new
    pub elsewhere :
        (q i : ℕ) → find_bucket hash n q ≢ i → count_alike hash less r q (get_or out i []) ≡ 0
    pub here :
        (q : ℕ)
        → count_alike hash less r q (get_or out (find_bucket hash n q) [])
          ≡ count_alike hash less r q es
            + count_alike hash less r q (get_or new (find_bucket hash n q) [])
    pub sum : total out ≡ length es + total new
    pub reads :
        (q : ℕ)
        → find_elem less (get_or out (find_bucket hash n q) []) q
          ≡ or_else (find_elem less es q) (find_elem less (get_or new (find_bucket hash n q) []) q)

  -- None of `es` equals another one of them, or one that has moved.
  pub record Movable (n : ℕ) (es : List ℕ) (new : List (List ℕ)) : Type 0 where
    pub width : length new ≡ n
    pub elsewhere :
        (q i : ℕ) → find_bucket hash n q ≢ i → count_alike hash less r q (get_or new i []) ≡ 0
    pub few :
        (q : ℕ)
        → count_alike hash less r q es
            + count_alike hash less r q (get_or new (find_bucket hash n q) [])
          ≤ 1

  pub home_congr : (n a b : ℕ) → alike less a b ≡ true → find_bucket hash n a ≡ find_bucket hash n b
  unfolding find_bucket
  home_congr n a b h = rw (alike-hash hash less r a b h) refl

  module _ (n : ℕ) (pos : 0 < n) (bound : n < 2 ^ 32) where
    abbrev push : ℕ → List (List ℕ) → List (List ℕ)
    push e new = set new (find_bucket hash n e) (e ∷ get_or new (find_bucket hash n e) [])

    push-Movable :
        (e : ℕ) (es : List ℕ) (new : List (List ℕ))
        → Movable n (e ∷ es) new
        → Movable n es (push e new)
    unfolding count_alike
    push-Movable e es new m =
        let inside = find_bucket-lt hash n e pos bound in
        record {
          width =
              length-set new (find_bucket hash n e) (e ∷ get_or new (find_bucket hash n e) [])
              ∙ m.width;
          elsewhere = λ q i ne.
              rw
                (get_or-set new (find_bucket hash n e) i (e ∷ get_or new (find_bucket hash n e) [])
                  [] (omega (arith, m.width, inside)))
                (ground
                  (arith, m.elsewhere q i, m.elsewhere q (find_bucket hash n e), home_congr n e q));
          few = λ q.
              rw
                (get_or-set new (find_bucket hash n e) (find_bucket hash n q)
                  (e ∷ get_or new (find_bucket hash n e) []) [] (omega (arith, m.width, inside)))
                (ground (arith, m.few q, m.elsewhere q (find_bucket hash n e), home_congr n e q));
        }

    push-here :
        (e : ℕ) (es : List ℕ) (new : List (List ℕ))
        → Movable n (e ∷ es) new
        → (q : ℕ)
        → count_alike hash less r q (get_or (push e new) (find_bucket hash n q) [])
          ≡ (if alike less e q then 1 else 0)
            + count_alike hash less r q (get_or new (find_bucket hash n q) [])
    unfolding count_alike
    push-here e es new m q =
        let inside = find_bucket-lt hash n e pos bound in
        rw
          (get_or-set new (find_bucket hash n e) (find_bucket hash n q)
            (e ∷ get_or new (find_bucket hash n e) []) [] (omega (arith, m.width, inside)))
          (ground (arith, m.elsewhere q (find_bucket hash n e), home_congr n e q))

    push-reads :
        (e : ℕ) (es : List ℕ) (new : List (List ℕ))
        → Movable n (e ∷ es) new
        → (q : ℕ)
        → find_elem less (get_or (push e new) (find_bucket hash n q) []) q ≡ (
            if alike less e q
            then some e
            else find_elem less (get_or new (find_bucket hash n q) []) q)
    unfolding find_elem
    push-reads e es new m q =
        let inside = find_bucket-lt hash n e pos bound in
        rw
          (get_or-set new (find_bucket hash n e) (find_bucket hash n q)
            (e ∷ get_or new (find_bucket hash n e) []) [] (omega (arith, m.width, inside)))
          (ground (arith, home_congr n e q))

    pub move_bucket_lem :
        (es : List ℕ) (new : List (List ℕ))
        → Movable n es new
        → Moved n es new (move_bucket hash n es new)
    unfolding move_bucket count_alike find_elem or_else
    move_bucket_lem [] new m = record {
      width = refl;
      elsewhere = m.elsewhere;
      here = λ q. omega arith;
      sum = omega arith;
      reads = λ q. refl;
    }
    move_bucket_lem (e ∷ es) new m =
        let ih = move_bucket_lem es (push e new) (push-Movable e es new m) in
        let i = find_bucket hash n e in
        let inside = find_bucket-lt hash n e pos bound in
        record {
          width = ih.width ∙ length-set new i (e ∷ get_or new i []);
          elsewhere = ih.elsewhere;
          here = λ q. omega (arith, ih.here q, push-here e es new m q);
          sum = omega (
            arith,
            ih.sum,
            total-set new i (e ∷ get_or new i []) (omega (arith, m.width, inside)),
          );
          reads = λ q.
              ih.reads q
              ∙ (rw (push-reads e es new m q)
                  (ground (arith, m.few q, find_elem-none hash less r q es)));
        }
