-- ===== src/KernelList/Walk/Best.antt =====
-- lib/kernel/list.c: list_max() and list_min().
use turbo_baker.Prelude.{
  ℕ, zero, suc, ◌<◌, ◌≡◌, refl, sym, subst, inl, inr, Bool, true, false, some, List, [], ◌∷◌, ◌++◌,
  arith, if◌then◌else◌, ==_refl, Bool-cases, length,
}
use mathlib.Core.List.{append_assoc, append-nil}
use turbo_baker.KernelList.{Links, tail_of}
use turbo_baker.KernelList.Chain.{first, Holds}
use turbo_baker.KernelList.Ends.{tail_ne, list_begin_lem, list_end_lem}
use turbo_baker.KernelList.Steps.{next_at, shift_at}
use turbo_baker.KernelList.Less.{StrictWeak, All, All-append, All-map, less_trans, flip-StrictWeak}
use turbo_baker.KernelList.Walk.{best_loop, list_best, list_max, list_min}

best_of : (pick : ℕ → ℕ → Bool) → ℕ → List ℕ → ℕ
best_of pick best [] = best
best_of pick best (e ∷ es) = best_of pick (if pick best e then e else best) es

best_walk :
    (less : ℕ → ℕ → Bool) (pick : ℕ → ℕ → Bool) (fuel : ℕ) (s : Links) (l : ℕ) (ws ys : List ℕ)
    (best : ℕ)
    → Holds s l (ws ++ ys)
    → length ys < fuel
    → best_loop less pick fuel s (tail_of l) best (first ys (tail_of l))
      ≡ some (best_of pick best ys)
unfolding best_loop best_of
best_walk less pick zero s l ws ys best h n = absurd (omega arith)
best_walk less pick (suc fuel) s l ws [] best h n = rw (==_refl (tail_of l)) refl
best_walk less pick (suc fuel) s l ws (y ∷ ys) best h n =
    rw (tail_ne s l ws y ys h, next_at s l ws y ys h)
      (best_walk less pick fuel s l (ws ++ (y ∷ [])) ys (if pick best y then y else best)
        (shift_at s l ws y ys h) (omega arith))

-- `m` is the first of the elements of `xs` that none beats: those in front of it are beaten by it,
-- and those behind it do not beat it.
pub record IsBest (pick : ℕ → ℕ → Bool) (m : ℕ) (xs : List ℕ) : Type 0 where
  pub ahead : List ℕ
  pub behind : List ℕ
  pub parts : xs ≡ ahead ++ (m ∷ behind)
  pub beaten : All (λ x. pick x m ≡ true) ahead
  pub unbeaten : All (λ x. pick m x ≡ false) behind

best_of-IsBest :
    (pick : ℕ → ℕ → Bool)
    → StrictWeak pick
    → (best : ℕ) (seen ys : List ℕ) → IsBest pick best seen
    → IsBest pick (best_of pick best ys) (seen ++ ys)
unfolding best_of
best_of-IsBest pick o best seen [] b =
    subst (λ (r : List ℕ). IsBest pick best r) (sym (append-nil seen)) b
best_of-IsBest pick o best seen (e ∷ es) b =
    subst (λ (r : List ℕ). IsBest pick (best_of pick (if pick best e then e else best) es) r)
      (append_assoc seen (e ∷ []) es)
      (best_of-IsBest pick o (if pick best e then e else best) (seen ++ (e ∷ [])) es turn)
  where
    turn : IsBest pick (if pick best e then e else best) (seen ++ (e ∷ []))
    turn = elim (Bool-cases (pick best e)) [
      | inl p ↦ rw p (record {
        ahead = seen;
        behind = [];
        parts = refl;
        beaten = rw b.parts (
            All-append (λ x. pick x e ≡ true) b.ahead (best ∷ b.behind)
              (All-map (λ x. pick x best ≡ true) (λ x. pick x e ≡ true)
                (λ x q. less_trans pick o x best e q p) b.ahead b.beaten)
              (
                p,
                All-map (λ x. pick best x ≡ false) (λ x. pick x e ≡ true)
                    (λ x q. o.split best x e p q) b.behind b.unbeaten,
              ));
        unbeaten = tt;
      })
      | inr p ↦ rw p (record {
        ahead = b.ahead;
        behind = b.behind ++ (e ∷ []);
        parts = rw b.parts (append_assoc b.ahead (best ∷ b.behind) (e ∷ []));
        beaten = b.beaten;
        unbeaten = All-append (λ x. pick best x ≡ false) b.behind (e ∷ []) b.unbeaten (p, tt);
      })
    ]

list_best_lem :
    (less pick : ℕ → ℕ → Bool)
    → StrictWeak pick
    → (fuel : ℕ) (s : Links) (l x : ℕ) (xs : List ℕ) → Holds s l (x ∷ xs)
    → length xs < fuel
    → (m : ℕ) × (list_best less pick fuel l s ≡ some m) × IsBest pick m (x ∷ xs)
unfolding list_best
list_best_lem less pick o fuel s l x xs h n = (
  best_of pick x xs,
  rw
      (
        list_begin_lem s l (x ∷ xs) h,
        list_end_lem s l (x ∷ xs) h,
        tail_ne s l [] x xs h,
        next_at s l [] x xs h,
      )
      (best_walk less pick fuel s l (x ∷ []) xs x h n),
  best_of-IsBest pick o x (x ∷ []) xs
      (record { ahead = []; behind = []; parts = refl; beaten = tt; unbeaten = tt }),
)

module _ (less : ℕ → ℕ → Bool) (o : StrictWeak less) (fuel : ℕ) (s : Links) (l x : ℕ) (xs : List ℕ)
    (h : Holds s l (x ∷ xs)) (n : length xs < fuel) where
  -- Each of the two is list_best() by its own test.
  list_max_lem : (m : ℕ) × (list_max less fuel l s ≡ some m) × IsBest (λ a b. less a b) m (x ∷ xs)
  unfolding list_max
  list_max_lem = list_best_lem less (λ a b. less a b) o fuel s l x xs h n

  list_min_lem : (m : ℕ) × (list_min less fuel l s ≡ some m) × IsBest (λ a b. less b a) m (x ∷ xs)
  unfolding list_min
  list_min_lem = list_best_lem less (λ a b. less b a) (flip-StrictWeak less o) fuel s l x xs h n

  pub max_min_lem :
      (max : ℕ) × (min : ℕ) × (list_max less fuel l s ≡ some max)
      × (list_min less fuel l s ≡ some min)
      × IsBest (λ a b. less a b) max (x ∷ xs)
      × IsBest (λ a b. less b a) min (x ∷ xs)
  max_min_lem = (
    list_max_lem.0, list_min_lem.0, list_max_lem.1, list_min_lem.1, list_max_lem.2, list_min_lem.2,
  )
