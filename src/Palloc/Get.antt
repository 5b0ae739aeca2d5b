-- ===== src/Palloc/Get.antt =====
-- threads/palloc.c: palloc_get_multiple().
use turbo_baker.Prelude.{
  ℕ, ◌+◌, ◌*◌, ◌%◌, ◌^◌, ◌≤◌, ◌<◌, ◌≡◌, refl, inl, inr, Bool, true, false, not, ◌&&◌, Option, none,
  some, arith, ◌==◌, if◌then◌else◌, ne→==, Bool-cases, within, ◌>>=◌,
}
use turbo_baker.Str.Block.{memset, memset_lem}
use turbo_baker.Bitmap.{Bitmap, bitmap_error, bitmap_scan_and_flip}
use turbo_baker.Bitmap.Range.{SetsRange, Full, Somewhere}
use turbo_baker.Bitmap.Scan.{NoGroup, Flipped, flipped, unchanged, bitmap_scan_and_flip-Flipped}
use turbo_baker.Palloc.{
  Pools, pgsize, flag, pal_user, pal_zero, pal_assert, pool_of, with_map, deliver,
  palloc_get_multiple,
}
use turbo_baker.Palloc.Valid.{IsPool, IsPools, pool_of-IsPool, with_map-IsPools, with_map_self}

-- The first free group of `cnt` pages of a pool, the user pool if `u`, which is now used; all other
-- pages are as they were, and memory is too but for the pages, which are zeroed if `z`.
pub record Granted (s : Pools) (u z : Bool) (cnt pages : ℕ) (s' : Pools) : Type 0 where
  pub idx : ℕ
  pub map' : Bitmap
  pub inside : idx + cnt ≤ (pool_of u s).used_map.bit_cnt
  pub at : pages ≡ (pool_of u s).base + pgsize * idx
  pub free : Full (pool_of u s).used_map idx cnt false
  pub first : NoGroup (pool_of u s).used_map 0 idx cnt false
  pub marks : SetsRange (pool_of u s).used_map idx cnt true map'
  pub after : s' ≡ record (with_map u map' s) { mem = s'.mem }
  pub zeroed : (a : ℕ) → s'.mem a ≡ (if z && within pages (pgsize * cnt) a then 0 else s.mem a)
  pub valid : IsPools s'

module _ {s : Pools} (v : IsPools s) (u : Bool) (cnt idx pages : ℕ) {m : Bitmap}
    (inside : idx + cnt ≤ (pool_of u s).used_map.bit_cnt)
    (at : pages ≡ (pool_of u s).base + pgsize * idx)
    (free : Full (pool_of u s).used_map idx cnt false)
    (first : NoGroup (pool_of u s).used_map 0 idx cnt false)
    (marks : SetsRange (pool_of u s).used_map idx cnt true m) where
  zeroed-Granted :
      Granted s u true cnt pages
        (record (with_map u m s) { mem = (memset s.mem pages 0 (pgsize * cnt)).1 })
  zeroed-Granted = record {
    idx = idx;
    map' = m;
    inside = inside;
    at = at;
    free = free;
    first = first;
    marks = marks;
    after = refl;
    zeroed = λ a. ground (arith, memset_lem s.mem pages 0 (pgsize * cnt) a);
    valid = with_map-IsPools u (memset s.mem pages 0 (pgsize * cnt)).1 v marks.valid marks.size;
  }

  plain-Granted : Granted s u false cnt pages (with_map u m s)
  plain-Granted = record {
    idx = idx;
    map' = m;
    inside = inside;
    at = at;
    free = free;
    first = first;
    marks = marks;
    after = refl;
    zeroed = λ a. refl;
    valid = with_map-IsPools u s.mem v marks.valid marks.size;
  }

  deliver-Granted :
      (flags : ℕ)
      → (s' : Pools) × (deliver flags cnt pages (with_map u m s) ≡ some (pages, s'))
        × Granted s u (flag flags pal_zero) cnt pages s'
  unfolding deliver
  deliver-Granted flags = elim (Bool-cases (flag flags pal_zero)) [
    | inl z ↦ rw (nonzero, z) (_, refl, zeroed-Granted)
    | inr z ↦ rw (nonzero, z) (_, refl, plain-Granted)
  ]
    where
      nonzero : (pages == 0) ≡ false
      nonzero = ne→== pages 0 (omega (arith, at, (pool_of-IsPool u v).positive))

-- No group of `cnt` pages of the pool is free.
abbrev pub Exhausted : Pools → (u : Bool) → (cnt : ℕ) → Type 0
Exhausted s u cnt =
    (i : ℕ)
    → 0 ≤ i
    → i + cnt ≤ (pool_of u s).used_map.bit_cnt
    → Somewhere (pool_of u s).used_map i cnt true

-- What a call of palloc_get_multiple() comes to, `must` being PAL_ASSERT: pages are granted, or
-- there are none to be had, which is a panic if `must` and a null pointer if not.
pub data GetOutcome (s : Pools) (u zeroed must : Bool) (cnt : ℕ) (out : Option (ℕ × Pools))
    : Type 0 where
  granted :
      (pages : ℕ) (s' : Pools)
      → out ≡ some (pages, s')
      → Granted s u zeroed cnt pages s'
      → GetOutcome s u zeroed must cnt out
  refused :
      out ≡ some (0, s) → must ≡ false → Exhausted s u cnt → GetOutcome s u zeroed must cnt out
  panic : out ≡ none → must ≡ true → Exhausted s u cnt → GetOutcome s u zeroed must cnt out

deliver-null :
    (flags cnt : ℕ) (u zeroed : Bool) {s : Pools}
    → Exhausted s u cnt
    → GetOutcome s u zeroed (flag flags pal_assert) cnt (deliver flags cnt 0 s)
unfolding deliver
deliver-null flags cnt u zeroed exhausted = elim (Bool-cases (flag flags pal_assert)) [
  | inl must ↦ rw must (panic refl refl exhausted)
  | inr may ↦ rw may (refused refl refl exhausted)
]

-- palloc_get_multiple() of a positive number of pages grants the first group of that many free
-- pages of the pool that PAL_USER names, zeroed if PAL_ZERO is set. If there is no such group it
-- panics if PAL_ASSERT is set, and otherwise returns a null pointer and changes nothing.
pub palloc_get_multiple-GetOutcome :
    (flags cnt : ℕ) {s : Pools}
    → IsPools s
    → 0 < cnt
    → GetOutcome s
        (flag flags pal_user)
        (flag flags pal_zero)
        (flag flags pal_assert)
        cnt
        (palloc_get_multiple flags cnt s)
unfolding palloc_get_multiple
palloc_get_multiple-GetOutcome flags cnt {s} v pos =
    rw (ne→== cnt 0 (omega arith))
      (step (bitmap_scan_and_flip-Flipped 0 cnt false pool.bitmap (omega arith)))
  where
    u : Bool
    u = flag flags pal_user

    pool : IsPool (pool_of u s)
    pool = pool_of-IsPool u v

    pages_of : ℕ × Bitmap → ℕ
    pages_of found =
        if not (found.0 == bitmap_error)
        then ((pool_of u s).base + pgsize * found.0) % 2 ^ 32
        else 0

    Out : Option (ℕ × Pools) → Type 0
    Out = GetOutcome s u (flag flags pal_zero) (flag flags pal_assert) cnt

    delivered :
        (pages : ℕ) (m : Bitmap)
        → (s' : Pools) × (deliver flags cnt pages (with_map u m s) ≡ some (pages, s'))
          × Granted s u (flag flags pal_zero) cnt pages s'
        → Out (deliver flags cnt pages (with_map u m s))
    delivered pages m (s', e, g) = granted pages s' e g

    finish :
        (idx : ℕ) (m : Bitmap)
        → Flipped (pool_of u s).used_map 0 cnt false idx m
        → Out (deliver flags cnt (pages_of (idx, m)) (with_map u m s))
    finish idx m (flipped low inside free before marks) =
        let at : pages_of (idx, m) ≡ (pool_of u s).base + pgsize * idx =
          ground (arith, pool.bitmap.small, pool.fits) in
        delivered (pages_of (idx, m)) m
          (deliver-Granted v u cnt idx (pages_of (idx, m)) inside at free before marks flags)
    finish idx m (unchanged e same exhausted) =
        rw (e, same, with_map_self u s) (deliver-null flags cnt u (flag flags pal_zero) exhausted)

    step :
        (idx : ℕ) × (m : Bitmap) × (bitmap_scan_and_flip (pool_of u s).used_map 0 cnt false
            ≡ some (idx, m))
          × Flipped (pool_of u s).used_map 0 cnt false idx m
        → Out (
            bitmap_scan_and_flip (pool_of u s).used_map 0 cnt false >>= λ found.
            deliver flags cnt (pages_of found) (with_map u found.1 s))
    step (idx, m, e, f) = rw e (finish idx m f)
