-- ===== src/Palloc/Regions.antt =====
-- threads/palloc.c: the regions of pages that are in use, and where they lie.
use turbo_baker.Prelude.{
  ℕ, ◌+◌, ◌*◌, ◌≤◌, ◌<◌, max, ◌≡◌, refl, sym, ◌∙◌, ◌⊎◌, inl, inr, Bool, true, false, ◌&&◌, some,
  List, [], ◌∷◌, arith, leb, if◌then◌else◌, same_bool, leb→le, leb→gt, Bool-cases, within,
  true_ne_false,
}
use turbo_baker.Bitmap.Range.{Full}
use turbo_baker.Palloc.{Pools, pgsize, pool_of, palloc_free_multiple}
use turbo_baker.Palloc.Valid.{IsPools, used, Marked}
use turbo_baker.Palloc.Free.{Freed, palloc_free_multiple-Freed}

-- A group of pages that a client holds: the pointer it was given and the number of pages.
pub record Region : Type 0 where
  pub pages : ℕ
  pub cnt : ℕ

-- `rs` without one occurrence of `r` is `rest`.
pub data Picks (r : Region) : List Region → List Region → Type 0 where
  here : {rest : List Region} → Picks r (r ∷ rest) rest
  later : {q : Region} {rs rest : List Region} → Picks r rs rest → Picks r (q ∷ rs) (q ∷ rest)

-- Where a region lies, and that its pages are marked as used.
pub record Held (s : Pools) (r : Region) : Type 0 where
  pub user : Bool
  pub idx : ℕ
  pub positive : 0 < r.cnt
  pub inside : idx + r.cnt ≤ (pool_of user s).used_map.bit_cnt
  pub at : r.pages ≡ (pool_of user s).base + pgsize * idx
  pub full : Full (pool_of user s).used_map idx r.cnt true

-- Two regions share no page.
abbrev pub Apart : Region → Region → Type 0
Apart r q = (r.pages + pgsize * r.cnt ≤ q.pages) ⊎ (q.pages + pgsize * q.cnt ≤ r.pages)

abbrev pub AllHeld : Pools → List Region → Type 0
AllHeld s [] = Unit
AllHeld s (r ∷ rs) = Held s r × AllHeld s rs

abbrev pub ApartFrom : Region → List Region → Type 0
ApartFrom r [] = Unit
ApartFrom r (q ∷ rs) = Apart r q × ApartFrom r rs

abbrev pub AllApart : List Region → Type 0
AllApart [] = Unit
AllApart (r ∷ rs) = ApartFrom r rs × AllApart rs

-- A region that is held keeps its pages when others are marked.
pub Held-grant :
    {s s' : Pools} {u : Bool} {cnt idx : ℕ} {r : Region}
    → Marked s u cnt idx true s'
    → Held s r
    → Held s' r
Held-grant {s} {s'} {u} {cnt} {idx} {r} k h = record {
  user = h.user;
  idx = h.idx;
  positive = h.positive;
  inside = omega (arith, h.inside, k.sizes h.user);
  at = omega (arith, h.at, k.bases h.user);
  full = λ j p q. k.bits h.user j ∙ keep j (h.full j p q);
}
  where
    keep :
        (j : ℕ)
        → used s h.user j ≡ true
        → (if same_bool u h.user && within idx cnt j then true else used s h.user j) ≡ true
    keep j e = rw e (ground arith)

pub AllHeld-grant :
    {s s' : Pools} {u : Bool} {cnt idx : ℕ} (rs : List Region)
    → Marked s u cnt idx true s'
    → AllHeld s rs
    → AllHeld s' rs
AllHeld-grant [] k h = tt
AllHeld-grant (r ∷ rs) k (h, hs) = (Held-grant k h, AllHeld-grant rs k hs)

-- Two groups of pages overlap in memory only if they lie in one pool and share a page there.
pub Apart-of_no_common :
    (s : Pools) (u w : Bool) (cnt idx pages cnt' idx' pages' : ℕ)
    → IsPools s
    → idx + cnt ≤ (pool_of u s).used_map.bit_cnt
    → idx' + cnt' ≤ (pool_of w s).used_map.bit_cnt
    → pages ≡ (pool_of u s).base + pgsize * idx
    → pages' ≡ (pool_of w s).base + pgsize * idx'
    → (same_bool u w ≡ true → (idx + cnt ≤ idx') ⊎ (idx' + cnt' ≤ idx))
    → Apart (record { pages = pages; cnt = cnt }) (record { pages = pages'; cnt = cnt' })
Apart-of_no_common s true true cnt idx pages cnt' idx' pages' v i i' a a' h = omega (arith, h refl)
Apart-of_no_common s true false cnt idx pages cnt' idx' pages' v i i' a a' h =
    omega (arith, v.apart)
Apart-of_no_common s false true cnt idx pages cnt' idx' pages' v i i' a a' h =
    omega (arith, v.apart)
Apart-of_no_common s false false cnt idx pages cnt' idx' pages' v i i' a a' h =
    omega (arith, h refl)

-- A group that is free shares no page with one that is used.
pub no_common :
    (s : Pools) (u w : Bool) (cnt idx cnt' idx' : ℕ)
    → 0 < cnt
    → 0 < cnt'
    → Full (pool_of u s).used_map idx cnt false
    → Full (pool_of w s).used_map idx' cnt' true
    → same_bool u w ≡ true
    → (idx + cnt ≤ idx') ⊎ (idx' + cnt' ≤ idx)
no_common s u w cnt idx cnt' idx' pos pos' blank full e = elim (Bool-cases (leb (idx + cnt) idx')) [
  | inl l ↦ inl (leb→le _ _ l)
  | inr g ↦ elim (Bool-cases (leb (idx' + cnt') idx)) [
    | inl l ↦ inr (leb→le _ _ l)
    | inr g' ↦
        let j = max idx idx' in
        absurd (
          true_ne_false (
            sym (full j (omega arith) (omega (arith, leb→gt _ _ g')))
            ∙ swap u w e j
            ∙ blank j (omega arith) (omega (arith, leb→gt _ _ g))))
  ]
]
  where
    swap : (u w : Bool) → same_bool u w ≡ true → (j : ℕ) → used s w j ≡ used s u j
    swap true true e j = refl
    swap true false e j = cc
    swap false true e j = cc
    swap false false e j = refl

module _ {s : Pools} (v : IsPools s) (u : Bool) (cnt idx pages : ℕ) (pos : 0 < cnt)
    (inside : idx + cnt ≤ (pool_of u s).used_map.bit_cnt)
    (at : pages ≡ (pool_of u s).base + pgsize * idx)
    (blank : Full (pool_of u s).used_map idx cnt false) where
  pub fresh-ApartFrom :
      (rs : List Region) → AllHeld s rs → ApartFrom (record { pages = pages; cnt = cnt }) rs
  fresh-ApartFrom [] h = tt
  fresh-ApartFrom (r ∷ rs) (h, hs) = (
    Apart-of_no_common s u h.user cnt idx pages r.cnt h.idx r.pages v inside h.inside at h.at
        (no_common s u h.user cnt idx r.cnt h.idx pos h.positive blank h.full),
    fresh-ApartFrom rs hs,
  )

pub Apart-sym : (r q : Region) → Apart r q → Apart q r
Apart-sym r q (inl h) = inr h
Apart-sym r q (inr h) = inl h

-- What a picked region has to do with the rest.
pub Picks-Held :
    {s : Pools} {r : Region} {rs rest : List Region} → Picks r rs rest → AllHeld s rs → Held s r
Picks-Held here (h, hs) = h
Picks-Held (later p) (h, hs) = Picks-Held p hs

pub Picks-AllHeld :
    (s : Pools) {r : Region} {rs rest : List Region}
    → Picks r rs rest
    → AllHeld s rs
    → AllHeld s rest
Picks-AllHeld s here (h, hs) = hs
Picks-AllHeld s (later p) (h, hs) = (h, Picks-AllHeld s p hs)

pub Picks-ApartFrom :
    {r : Region} {rs rest : List Region} (q : Region)
    → Picks r rs rest
    → ApartFrom q rs
    → ApartFrom q rest × Apart q r
Picks-ApartFrom q here (a, as') = (as', a)
Picks-ApartFrom q (later p) (a, as') = let (x, y) = Picks-ApartFrom q p as' in ((a, x), y)

pub Picks-AllApart :
    {r : Region} {rs rest : List Region}
    → Picks r rs rest
    → AllApart rs
    → AllApart rest × ApartFrom r rest
Picks-AllApart here (a, as') = (as', a)
Picks-AllApart {r} (later {q} p) (a, as') =
    let (x, y) = Picks-AllApart p as' in
    let (b, c) = Picks-ApartFrom q p a in ((b, x), (Apart-sym q r c, y))

-- A region apart from one that is freed stays held.
pub outside_of_apart :
    (s : Pools) (u w : Bool) (cnt idx cnt' idx' j : ℕ)
    → (((pool_of u s).base + pgsize * idx + pgsize * cnt ≤ (pool_of w s).base + pgsize * idx')
        ⊎ ((pool_of w s).base + pgsize * idx' + pgsize * cnt' ≤ (pool_of u s).base + pgsize * idx))
    → idx' ≤ j
    → j < idx' + cnt'
    → (same_bool u w && within idx cnt j) ≡ false
outside_of_apart s true true cnt idx cnt' idx' j h p q = ground arith
outside_of_apart s true false cnt idx cnt' idx' j h p q = refl
outside_of_apart s false true cnt idx cnt' idx' j h p q = refl
outside_of_apart s false false cnt idx cnt' idx' j h p q = ground arith

pub Held-free :
    {s s' : Pools} {r q : Region} (h : Held s r)
    → Marked s h.user r.cnt h.idx false s'
    → Apart r q
    → Held s q
    → Held s' q
Held-free {s} {s'} {r} {q} h k apart g = record {
  user = g.user;
  idx = g.idx;
  positive = g.positive;
  inside = omega (arith, g.inside, k.sizes g.user);
  at = omega (arith, g.at, k.bases g.user);
  full = λ j a b.
      k.bits g.user j
      ∙ rw
          (outside_of_apart s h.user g.user r.cnt h.idx q.cnt g.idx j (omega (arith, h.at, g.at)) a
            b)
          (g.full j a b);
}

pub AllHeld-free :
    {s s' : Pools} {r : Region} (h : Held s r) (rs : List Region)
    → Marked s h.user r.cnt h.idx false s'
    → ApartFrom r rs
    → AllHeld s rs
    → AllHeld s' rs
AllHeld-free h [] k a hs = tt
AllHeld-free h (q ∷ rs) k (a, as') (g, gs) = (Held-free h k a g, AllHeld-free h rs k as' gs)

-- A region that is held can be freed.
pub Held-can_free :
    {s : Pools} (r : Region)
    → IsPools s
    → (h : Held s r)
    → (s' : Pools) × (palloc_free_multiple r.pages r.cnt s ≡ some s')
      × Freed s h.user r.cnt h.idx s'
Held-can_free r v h =
    palloc_free_multiple-Freed v r.cnt h.idx h.positive h.user r.pages h.inside h.at h.full
