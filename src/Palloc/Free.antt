-- ===== src/Palloc/Free.antt =====
-- threads/palloc.c: palloc_free_multiple(), by itself and behind palloc_get_multiple().
use turbo_baker.Prelude.{
  ℕ, ◌+◌, ◌-◌, ◌*◌, ◌≤◌, ◌<◌, ◌≡◌, refl, sym, ap, ◌∙◌, subst, Bool, true, false, ◌&&◌, ◌||◌, some,
  Option, ◌≢◌, arith, ◌==◌, if◌then◌else◌, same_bool, within,
}
use turbo_baker.Str.Block.{memset}
use turbo_baker.Bitmap.{Bitmap}
use turbo_baker.Bitmap.Range.{SetsRange, bitmap_set_multiple-SetsRange, Full, bitmap_all_of_Full}
use turbo_baker.Palloc.{
  Pools, pgsize, pg_no, pg_ofs, pool_of, with_map, page_from_pool, release, palloc_free_multiple,
  palloc_get_multiple, flag, pal_user, pal_zero, pal_assert,
}
use turbo_baker.Palloc.Valid.{
  IsPools, pool_of-IsPool, with_map-IsPools, used, Marked, with_map-Marked,
}
use turbo_baker.Palloc.Get.{
  Granted, GetOutcome, granted, refused, panic, palloc_get_multiple-GetOutcome,
}

-- The `cnt` pages of a pool from its page `idx` on were used and are free now; all other pages are
-- as they were, and memory is too but for the pages.
pub record Freed (s : Pools) (u : Bool) (cnt idx : ℕ) (s' : Pools) : Type 0 where
  pub map' : Bitmap
  pub clears : SetsRange (pool_of u s).used_map idx cnt false map'
  pub after : s' ≡ record (with_map u map' s) { mem = s'.mem }
  pub valid : IsPools s'

module _ {s : Pools} (v : IsPools s) (cnt idx : ℕ) (pos : 0 < cnt) where
  release-Freed :
      (u : Bool) (pages : ℕ)
      → idx + cnt ≤ (pool_of u s).used_map.bit_cnt
      → pages ≡ (pool_of u s).base + pgsize * idx
      → Full (pool_of u s).used_map idx cnt true
      → (s' : Pools) × (release u pages cnt s ≡ some s') × Freed s u cnt idx s'
  unfolding release
  release-Freed u pages inside at full =
      let p = pool_of-IsPool u v in
      let here : pg_no pages - pg_no (pool_of u s).base ≡ idx = omega (arith, p.aligned) in
      let (m, e, r) = bitmap_set_multiple-SetsRange idx cnt false p.bitmap inside in
      let mem = (memset s.mem pages 0xcc (pgsize * cnt)).1 in
      (
        record (with_map u m s) { mem = mem },
        rw (here, bitmap_all_of_Full idx cnt p.bitmap inside full, e) refl,
        record {
          map' = m;
          clears = r;
          after = refl;
          valid = with_map-IsPools u mem v r.valid r.size;
        },
      )

  -- palloc_free_multiple() of pages of a pool that are all in use frees exactly those.
  pub palloc_free_multiple-Freed :
      (u : Bool) (pages : ℕ)
      → idx + cnt ≤ (pool_of u s).used_map.bit_cnt
      → pages ≡ (pool_of u s).base + pgsize * idx
      → Full (pool_of u s).used_map idx cnt true
      → (s' : Pools) × (palloc_free_multiple pages cnt s ≡ some s') × Freed s u cnt idx s'
  unfolding palloc_free_multiple
  palloc_free_multiple-Freed true pages inside at full =
      rw (aligned, nonzero, outside, within_user) (release-Freed true pages inside at full)
    where
      aligned : (pg_ofs pages == 0) ≡ true
      aligned = ground (arith, v.user.aligned)

      nonzero : (pages == 0 || cnt == 0) ≡ false
      nonzero = ground (arith, v.user.positive)

      outside : page_from_pool s.kernel pages ≡ false
      outside = ground (arith, v.apart, v.kernel.aligned, v.user.aligned)

      within_user : page_from_pool s.user pages ≡ true
      within_user = ground (arith, v.user.aligned)
  palloc_free_multiple-Freed false pages inside at full =
      rw (aligned, nonzero, within_kernel) (release-Freed false pages inside at full)
    where
      aligned : (pg_ofs pages == 0) ≡ true
      aligned = ground (arith, v.kernel.aligned)

      nonzero : (pages == 0 || cnt == 0) ≡ false
      nonzero = ground (arith, v.kernel.positive)

      within_kernel : page_from_pool s.kernel pages ≡ true
      within_kernel = ground (arith, v.kernel.aligned)

pub Granted-Marked :
    {s s' : Pools} {u z : Bool} {cnt pages : ℕ} (g : Granted s u z cnt pages s')
    → Marked s u cnt g.idx true s'
Granted-Marked {s} {s'} {u} {cnt} g =
    subst (λ x. Marked s u cnt g.idx true x) (sym g.after)
      (with_map-Marked u s'.mem cnt g.idx true g.marks)

pub Freed-Marked :
    {s s' : Pools} {u : Bool} {cnt idx : ℕ} → Freed s u cnt idx s' → Marked s u cnt idx false s'
Freed-Marked {s} {s'} {u} {cnt} {idx} f =
    subst (λ x. Marked s u cnt idx false x) (sym f.after)
      (with_map-Marked u s'.mem cnt idx false f.clears)

pub Marked-Full :
    {s s' : Pools} {u : Bool} {cnt idx : ℕ}
    → Marked s u cnt idx true s'
    → Full (pool_of u s').used_map idx cnt true
Marked-Full {s} {s'} {u} {cnt} {idx} k j p q = k.bits u j ∙ hit u
  where
    hit : (u : Bool) → (if same_bool u u && within idx cnt j then true else used s u j) ≡ true
    hit true = ground arith
    hit false = ground arith

restored :
    (u w : Bool) (s : Pools) (idx cnt j : ℕ)
    → Full (pool_of u s).used_map idx cnt false
    → (if same_bool u w && within idx cnt j
        then false
        else if same_bool u w && within idx cnt j
        then true
        else used s w j)
      ≡ used s w j
restored true true s idx cnt j free = ground (arith, free j)
restored true false s idx cnt j free = refl
restored false true s idx cnt j free = refl
restored false false s idx cnt j free = ground (arith, free j)

-- Pages that were granted can be given back.
Granted-free :
    {s s' : Pools} {u z : Bool} {cnt pages : ℕ}
    → IsPools s
    → 0 < cnt
    → Granted s u z cnt pages s'
    → (s'' : Pools) × (palloc_free_multiple pages cnt s' ≡ some s'')
      × ((w : Bool) (j : ℕ) → used s'' w j ≡ used s w j)
      × IsPools s''
Granted-free {s} {s'} {u} {cnt} {pages} v pos g =
    let k = Granted-Marked g in
    let (s'', e, f) =
      palloc_free_multiple-Freed g.valid cnt g.idx pos u pages (omega (arith, g.inside, k.sizes u))
        (omega (arith, g.at, k.bases u)) (Marked-Full k) in
    (
      s'',
      e,
      λ w j.
          (Freed-Marked f).bits w j
          ∙ ap (λ x. if same_bool u w && within g.idx cnt j then false else x) (k.bits w j)
          ∙ restored u w s g.idx cnt j g.free,
      f.valid,
    )

-- If a call of palloc_get_multiple() returns pages, they can be freed, and then every page of both
-- pools is used or free as it was before the call, and the pools are well formed.
pub palloc_free-get :
    (flags cnt pages : ℕ) {s s' : Pools}
    → IsPools s
    → 0 < cnt
    → palloc_get_multiple flags cnt s ≡ some (pages, s')
    → pages ≢ 0
    → (s'' : Pools) × (palloc_free_multiple pages cnt s' ≡ some s'')
      × ((w : Bool) (j : ℕ) → used s'' w j ≡ used s w j)
      × IsPools s''
palloc_free-get flags cnt pages {s} {s'} v pos e ne =
    returned (palloc_get_multiple flags cnt s) e (palloc_get_multiple-GetOutcome flags cnt v pos)
  where
    returned :
        (out : Option (ℕ × Pools))
        → out ≡ some (pages, s')
        → GetOutcome s (flag flags pal_user) (flag flags pal_zero) (flag flags pal_assert) cnt out
        → (s'' : Pools) × (palloc_free_multiple pages cnt s' ≡ some s'')
          × ((w : Bool) (j : ℕ) → used s'' w j ≡ used s w j)
          × IsPools s''
    returned out r (granted p t e' g) =
        let pe : p ≡ pages = cc in
        let se : t ≡ s' = cc in
        Granted-free v pos (
          subst (λ x. Granted s (flag flags pal_user) (flag flags pal_zero) cnt pages x) se
            (subst (λ x. Granted s (flag flags pal_user) (flag flags pal_zero) cnt x t) pe g))
    returned out r (refused e' may ex) = let pe : ◌≡◌ {A = ℕ} 0 pages = cc in absurd (ne (sym pe))
    returned out r (panic e' must ex) = cc
