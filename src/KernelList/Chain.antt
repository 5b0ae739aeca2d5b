-- ===== src/KernelList/Chain.antt =====
-- lib/kernel/list.c: the chain of links that a list runs through, as a sequence of addresses.
use turbo_baker.Prelude.{
  ℕ, suc, ◌≤◌, ◌<◌, ◌≡◌, ◌∙◌, refl, ap, ◌≢◌, List, [], ◌∷◌, ◌++◌, arith, count,
}
use turbo_baker.KernelList.{Links, tail_of}

-- The elements `zs` follow `a`, linked in both directions.
abbrev pub Chain : Links → ℕ → List ℕ → Type 0
Chain s a [] = Unit {0}
Chain s a (z ∷ zs) = (s.next a ≡ z) × (s.prev z ≡ a) × Chain s z zs

-- The last element of `zs`, or `a` if there is none; and the first one, or `b`.
abbrev pub last : ℕ → List ℕ → ℕ
last a [] = a
last a (z ∷ zs) = last z zs

abbrev pub first : List ℕ → ℕ → ℕ
first [] b = b
first (z ∷ zs) b = z

abbrev pub Distinct : List ℕ → Type 0
Distinct zs = (q : ℕ) → count q zs ≤ 1

-- A chain with both ends, `a` in front of `zs`.
pub record Linked (s : Links) (a : ℕ) (zs : List ℕ) : Type 0 where
  pub front : s.prev a ≡ 0
  pub back : s.next (last a zs) ≡ 0
  pub linked : Chain s a zs
  pub distinct : Distinct (a ∷ zs)
  pub no_null : count 0 (a ∷ zs) ≡ 0

-- The list at `l` holds the elements `xs`.
abbrev pub Holds : Links → ℕ → List ℕ → Type 0
Holds s l xs = Linked s l (xs ++ (tail_of l ∷ []))

-- Outside `zs`, the links are those of `s`.
abbrev pub SameOutside : List ℕ → Links → Links → Type 0
SameOutside zs s s' = (q : ℕ) → count q zs ≡ 0 → (s'.prev q ≡ s.prev q) × (s'.next q ≡ s.next q)

pub count-head : (a : ℕ) (zs : List ℕ) → count a (a ∷ zs) ≡ suc (count a zs)
count-head a zs = ground arith

pub count-last : (a : ℕ) (zs : List ℕ) → 0 < count (last a zs) (a ∷ zs)
count-last a [] = ground arith
count-last a (z ∷ zs) = ground (arith, count-last z zs)

pub last-append : (a : ℕ) (xs : List ℕ) (z : ℕ) (ys : List ℕ) → last a (xs ++ (z ∷ ys)) ≡ last z ys
last-append a [] z ys = refl
last-append a (x ∷ xs) z ys = last-append x xs z ys

pub Chain-append :
    (s : Links) (a : ℕ) (xs ys : List ℕ)
    → Chain s a xs
    → Chain s (last a xs) ys
    → Chain s a (xs ++ ys)
Chain-append s a [] ys h k = k
Chain-append s a (x ∷ xs) ys (n, p, h) k = (n, p, Chain-append s x xs ys h k)

pub Chain-split :
    (s : Links) (a : ℕ) (xs ys : List ℕ)
    → Chain s a (xs ++ ys)
    → Chain s a xs × Chain s (last a xs) ys
Chain-split s a [] ys h = (tt, h)
Chain-split s a (x ∷ xs) ys (n, p, h) = let (l, r) = Chain-split s x xs ys h in ((n, p, l), r)

-- A chain reads the `prev` links of its elements, and the `next` links of all but the last.
pub Chain-frame :
    (s s' : Links) (a : ℕ) (zs : List ℕ)
    → Distinct (a ∷ zs)
    → ((q : ℕ) → 0 < count q zs → s'.prev q ≡ s.prev q)
    → ((q : ℕ) → 0 < count q (a ∷ zs) → q ≢ last a zs → s'.next q ≡ s.next q)
    → Chain s a zs
    → Chain s' a zs
Chain-frame s s' a [] d hp hn c = tt
Chain-frame s s' a (z ∷ zs) d hp hn (n, p, c) = (
  hn a (ground arith) (λ e. absurd (ground (arith, d a, count-last z zs))) ∙ n,
  hp z (ground arith) ∙ p,
  Chain-frame s s' z zs (λ q. omega (arith, d q)) (λ q h. hp q (omega arith))
      (λ q h k. hn q (omega arith) k) c,
)

pub no_null-ne : (q : ℕ) (zs : List ℕ) → count 0 zs ≡ 0 → 0 < count q zs → q ≢ 0
no_null-ne q zs h k e = absurd (omega (arith, h, k, ap (λ (x : ℕ). count x zs) e))
