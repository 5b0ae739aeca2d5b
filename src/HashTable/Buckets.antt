-- ===== src/HashTable/Buckets.antt =====
-- lib/kernel/hash.c: where the elements of a table stand, and writes to one bucket.
use turbo_baker.Prelude.{
  ℕ, zero, suc, ◌+◌, ◌^◌, ◌≤◌, ◌<◌, ◌≡◌, refl, sym, ap, ◌≢◌, inl, inr, Bool, true, List, [], ◌∷◌,
  map, arith, ◌==◌, if◌then◌else◌, ==→eq, ==→ne, Bool-cases, length, get_or, set, length-append,
  get_or-set_self, get_or-set_ne, count,
}
use turbo_baker.Prelude.Bits.{bit_and-le}
use turbo_baker.HashTable.{Hash, pred32, find_bucket, take_out, clear_buckets, is_power_of_2}
use turbo_baker.HashTable.Find.{Respects, count_alike, take_out-absent, length-take_out}

-- How many elements the buckets hold.
abbrev pub total : List (List ℕ) → ℕ
total bs = length (clear_buckets bs)

module _ {A : Type 0} where
  pub get_or-set :
      (bs : List A) (i j : ℕ) (c d : A)
      → i < length bs
      → get_or (set bs i c) j d ≡ (if i == j then c else get_or bs j d)
  get_or-set bs i j c d h = elim (Bool-cases (i == j)) [
    | inl e ↦ rw (e, sym (==→eq i j e)) (get_or-set_self bs i c d h)
    | inr e ↦ rw e (get_or-set_ne bs i j c d (==→ne i j e))
  ]

pub total-set :
    (bs : List (List ℕ)) (i : ℕ) (c : List ℕ)
    → i < length bs
    → total (set bs i c) + length (get_or bs i []) ≡ total bs + length c
unfolding clear_buckets
total-set [] i c h = absurd (omega arith)
total-set (b ∷ bs) zero c h =
    omega (arith, length-append b (clear_buckets bs), length-append c (clear_buckets bs))
total-set (b ∷ bs) (suc i) c h = omega (
  arith,
  length-append b (clear_buckets bs),
  length-append b (clear_buckets (set bs i c)),
  total-set bs i c (omega arith),
)

pub get_or-map-take_out :
    (x : ℕ) (bs : List (List ℕ)) (i : ℕ)
    → get_or (map (take_out x) bs) i [] ≡ take_out x (get_or bs i [])
unfolding take_out
get_or-map-take_out x [] i = refl
get_or-map-take_out x (b ∷ bs) zero = refl
get_or-map-take_out x (b ∷ bs) (suc i) = get_or-map-take_out x bs i

pub length-map-take_out : (x : ℕ) (bs : List (List ℕ)) → length (map (take_out x) bs) ≡ length bs
length-map-take_out x [] = refl
length-map-take_out x (b ∷ bs) = ap suc (length-map-take_out x bs)

pub find_bucket-lt : (hash : ℕ → ℕ) (n e : ℕ) → 0 < n → n < 2 ^ 32 → find_bucket hash n e < n
unfolding find_bucket
find_bucket-lt hash n e p b = omega (arith, bit_and-le (hash e) (pred32 n))

module _ (hash : ℕ → ℕ) (less : ℕ → ℕ → Bool) (r : Respects hash less) where
  -- Each element stands in its own bucket, and no two are equal.
  abbrev pub IsPlaced : ℕ → List (List ℕ) → Type 0
  IsPlaced n bs =
      (q i : ℕ)
      → (count_alike hash less r q (get_or bs i []) ≤ 1)
        × (find_bucket hash n q ≢ i → count_alike hash less r q (get_or bs i []) ≡ 0)

  pub record IsValid (h : Hash) : Type 0 where
    pub positive : 0 < h.bucket_cnt
    pub bounded : h.bucket_cnt < 2 ^ 32
    pub size_bounded : h.elem_cnt < 2 ^ 32
    pub width : length h.buckets ≡ h.bucket_cnt
    pub power : is_power_of_2 h.bucket_cnt ≡ true
    pub placed : IsPlaced h.bucket_cnt h.buckets
    pub counted : total h.buckets ≡ h.elem_cnt

  take_out_none :
      (x : ℕ) (bs : List (List ℕ))
      → ((i : ℕ) → count x (get_or bs i []) ≡ 0)
      → map (take_out x) bs ≡ bs
  take_out_none x [] h = refl
  take_out_none x (b ∷ bs) h =
      rw (take_out-absent hash less r x b (h 0), take_out_none x bs (λ i. h (suc i))) refl

  pub total-take_out :
      (x : ℕ) (bs : List (List ℕ)) (j : ℕ)
      → 0 < count x (get_or bs j [])
      → ((i : ℕ) → j ≢ i → count x (get_or bs i []) ≡ 0)
      → suc (total (map (take_out x) bs)) ≡ total bs
  unfolding clear_buckets
  total-take_out x [] j h k = absurd (omega (arith, h))
  total-take_out x (b ∷ bs) zero h k = rw (take_out_none x bs (λ i. k (suc i) (omega arith))) (
      omega (
        arith,
        length-append b (clear_buckets bs),
        length-append (take_out x b) (clear_buckets bs),
        length-take_out hash less r x b h,
      ))
  total-take_out x (b ∷ bs) (suc j) h k = rw (take_out-absent hash less r x b (k 0 (omega arith))) (
      omega (
        arith,
        length-append b (clear_buckets bs),
        length-append b (clear_buckets (map (take_out x) bs)),
        total-take_out x bs j h (λ i n. k (suc i) (λ e. n (omega (arith, e)))),
      ))
