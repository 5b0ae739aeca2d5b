-- ===== src/Palloc/Live.antt =====
-- threads/palloc.c: any sequence of allocations and frees.
use turbo_baker.Prelude.{ℕ, ◌<◌, ◌≡◌, refl, sym, subst, ◌≢◌, Bool, some, List, [], ◌∷◌, arith}
use turbo_baker.Palloc.{
  Pools, flag, pal_user, pal_zero, pal_assert, palloc_get_multiple, palloc_free_multiple,
}
use turbo_baker.Palloc.Valid.{IsPools, pool_of-IsPool}
use turbo_baker.Palloc.Get.{
  Granted, GetOutcome, granted, refused, panic, palloc_get_multiple-GetOutcome,
}
use turbo_baker.Palloc.Free.{Granted-Marked, Freed-Marked, Marked-Full}
use turbo_baker.Palloc.Regions.{
  Held-can_free, Region, Picks, Held, AllHeld, AllApart, AllHeld-grant, fresh-ApartFrom, Picks-Held,
  Picks-AllHeld, Picks-AllApart, AllHeld-free,
}

-- One call: an allocation that was granted, one that was refused, or a free of something held.
pub data Step : Pools → List Region → Pools → List Region → Type 0 where
  grant :
      {s s' : Pools} {rs : List Region} (flags cnt pages : ℕ)
      → 0 < cnt
      → palloc_get_multiple flags cnt s ≡ some (pages, s')
      → pages ≢ 0
      → Step s rs s' (record { pages = pages; cnt = cnt } ∷ rs)
  refuse :
      {s s' : Pools} {rs : List Region} (flags cnt : ℕ)
      → 0 < cnt
      → palloc_get_multiple flags cnt s ≡ some (0, s')
      → Step s rs s' rs
  give_back :
      {s s' : Pools} {rs rest : List Region} {r : Region}
      → Picks r rs rest
      → palloc_free_multiple r.pages r.cnt s ≡ some s'
      → Step s rs s' rest

pub data Reach (s₀ : Pools) : Pools → List Region → Type 0 where
  start : Reach s₀ s₀ []
  next : {s s' : Pools} {rs rs' : List Region} → Reach s₀ s rs → Step s rs s' rs' → Reach s₀ s' rs'

pub record Inv (s : Pools) (rs : List Region) : Type 0 where
  pub valid : IsPools s
  pub held : AllHeld s rs
  pub apart : AllApart rs

grant-Inv :
    {s s' : Pools} {u z : Bool} {cnt pages : ℕ} (rs : List Region)
    → 0 < cnt
    → Inv s rs
    → Granted s u z cnt pages s'
    → Inv s' (record { pages = pages; cnt = cnt } ∷ rs)
grant-Inv {s} {s'} {u} {cnt} {pages} rs pos inv g =
    let k = Granted-Marked g in
    record {
      valid = g.valid;
      held = (
        record {
          user = u;
          idx = g.idx;
          positive = pos;
          inside = omega (arith, g.inside, k.sizes u);
          at = omega (arith, g.at, k.bases u);
          full = Marked-Full k;
        },
        AllHeld-grant rs k inv.held,
      );
      apart = (
        fresh-ApartFrom inv.valid u cnt g.idx pages pos g.inside g.at g.free rs inv.held,
        inv.apart,
      );
    }

free-Inv :
    {s s' : Pools} {r : Region} {rs rest : List Region}
    → Picks r rs rest
    → palloc_free_multiple r.pages r.cnt s ≡ some s'
    → Inv s rs
    → Inv s' rest
free-Inv {s} {s'} {r} {rs} {rest} p e inv =
    let h : Held s r = Picks-Held p inv.held in
    let (s'', e', f) = Held-can_free r inv.valid h in
    let same : s'' ≡ s' = cc in
    let (x, y) = Picks-AllApart p inv.apart in
    subst (λ z. Inv z rest) same
      (record {
        valid = f.valid;
        held = AllHeld-free h rest (Freed-Marked f) y (Picks-AllHeld s p inv.held);
        apart = x;
      })

get-Inv :
    (flags cnt pages : ℕ) {s s' : Pools} {rs : List Region}
    → 0 < cnt
    → palloc_get_multiple flags cnt s ≡ some (pages, s')
    → Inv s rs
    → GetOutcome s
        (flag flags pal_user)
        (flag flags pal_zero)
        (flag flags pal_assert)
        cnt
        (palloc_get_multiple flags cnt s)
    → (pages ≢ 0 → Inv s' (record { pages = pages; cnt = cnt } ∷ rs)) × (pages ≡ 0 → Inv s' rs)
get-Inv flags cnt pages {s} {s'} {rs} pos e inv (granted p t e' g) =
    let pe : p ≡ pages = cc in
    let se : t ≡ s' = cc in
    (
      λ ne.
          subst (λ x. Inv x (record { pages = pages; cnt = cnt } ∷ rs)) se
            (subst (λ x. Inv t (record { pages = x; cnt = cnt } ∷ rs)) pe (grant-Inv rs pos inv g)),
      λ z. absurd (omega (arith, g.at, (pool_of-IsPool (flag flags pal_user) inv.valid).positive)),
    )
get-Inv flags cnt pages {s} {s'} {rs} pos e inv (refused e' may ex) =
    let pe : ◌≡◌ {A = ℕ} 0 pages = cc in
    let se : s ≡ s' = cc in (λ ne. absurd (ne (sym pe)), λ z. subst (λ x. Inv x rs) se inv)
get-Inv flags cnt pages pos e inv (panic e' must ex) = cc

Step-Inv : {s s' : Pools} {rs rs' : List Region} → Step s rs s' rs' → Inv s rs → Inv s' rs'
Step-Inv (grant flags cnt pages pos e ne) inv =
    (get-Inv flags cnt pages pos e inv (palloc_get_multiple-GetOutcome flags cnt inv.valid pos)).0
      ne
Step-Inv (refuse flags cnt pos e) inv =
    (get-Inv flags cnt 0 pos e inv (palloc_get_multiple-GetOutcome flags cnt inv.valid pos)).1 refl
Step-Inv (give_back p e) inv = free-Inv p e inv

-- After any sequence of calls from well-formed pools, the pools are well formed, the pages of every
-- live allocation are marked as used, and no two live allocations share a page.
pub Reach-Inv : {s₀ s : Pools} {rs : List Region} → IsPools s₀ → Reach s₀ s rs → Inv s rs
Reach-Inv v start = record { valid = v; held = tt; apart = tt }
Reach-Inv v (next r st) = Step-Inv st (Reach-Inv v r)

-- After any sequence of calls from well-formed pools, palloc_free_multiple() of any live allocation
-- passes its assertions and succeeds.
pub Reach-can_free :
    {s₀ s : Pools} {rs rest : List Region} {r : Region}
    → IsPools s₀
    → Reach s₀ s rs
    → Picks r rs rest
    → (s' : Pools) × (palloc_free_multiple r.pages r.cnt s ≡ some s')
Reach-can_free {r} v reach p =
    let inv = Reach-Inv v reach in
    let (s', e, f) = Held-can_free r inv.valid (Picks-Held p inv.held) in (s', e)
