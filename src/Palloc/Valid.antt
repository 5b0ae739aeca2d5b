-- ===== src/Palloc/Valid.antt =====
-- threads/palloc.c: well-formed page pools.
use turbo_baker.Prelude.{
  ℕ, ◌+◌, ◌*◌, ◌%◌, ◌^◌, ◌≤◌, ◌<◌, ◌≡◌, refl, Bool, true, false, ◌&&◌, arith, if◌then◌else◌,
  same_bool, Mem, within,
}
use turbo_baker.Bitmap.{Bitmap}
use turbo_baker.Bitmap.Bits.{IsBitmap, view}
use turbo_baker.Bitmap.Range.{SetsRange}
use turbo_baker.Palloc.{Pool, Pools, pgsize, pool_of, with_map}

-- A pool begins at a page boundary, not at address 0, and ends inside the address space.
pub record IsPool (p : Pool) : Type 0 where
  pub bitmap : IsBitmap p.used_map
  pub aligned : p.base % pgsize ≡ 0
  pub positive : 0 < p.base
  pub fits : p.base + pgsize * p.used_map.bit_cnt ≤ 2 ^ 32

-- Both pools are well formed, and the user pool lies behind the kernel pool.
pub record IsPools (s : Pools) : Type 0 where
  pub kernel : IsPool s.kernel
  pub user : IsPool s.user
  pub apart : s.kernel.base + pgsize * s.kernel.used_map.bit_cnt ≤ s.user.base

pub pool_of-IsPool : (u : Bool) {s : Pools} → IsPools s → IsPool (pool_of u s)
pool_of-IsPool true v = v.user
pool_of-IsPool false v = v.kernel

pub with_map-IsPools :
    (u : Bool) {s : Pools} {m : Bitmap} (mem : Mem)
    → IsPools s
    → IsBitmap m
    → m.bit_cnt ≡ (pool_of u s).used_map.bit_cnt
    → IsPools (record (with_map u m s) { mem = mem })
with_map-IsPools true mem v w e = record {
  kernel = v.kernel;
  user = record {
    bitmap = w;
    aligned = v.user.aligned;
    positive = v.user.positive;
    fits = omega (arith, v.user.fits, e);
  };
  apart = v.apart;
}
with_map-IsPools false mem v w e = record {
  kernel = record {
    bitmap = w;
    aligned = v.kernel.aligned;
    positive = v.kernel.positive;
    fits = omega (arith, v.kernel.fits, e);
  };
  user = v.user;
  apart = omega (arith, v.apart, e);
}

pub with_map_self : (u : Bool) (s : Pools) → with_map u (pool_of u s).used_map s ≡ s
with_map_self true s = refl
with_map_self false s = refl

-- Bit `j` of a pool's map, the user pool's if `w`.
abbrev pub used : Pools → Bool → ℕ → Bool
used s w j = view (pool_of w s).used_map j

-- One pool gets a new map that differs on a range only: what both pools are then.
pub record Marked (s : Pools) (u : Bool) (cnt idx : ℕ) (value : Bool) (s' : Pools) : Type 0 where
  pub bases : (w : Bool) → (pool_of w s').base ≡ (pool_of w s).base
  pub sizes : (w : Bool) → (pool_of w s').used_map.bit_cnt ≡ (pool_of w s).used_map.bit_cnt
  pub bits :
      (w : Bool) (j : ℕ)
      → used s' w j ≡ (if same_bool u w && within idx cnt j then value else used s w j)

pub with_map-Marked :
    (u : Bool) {s : Pools} {m : Bitmap} (mem : Mem) (cnt idx : ℕ) (value : Bool)
    → SetsRange (pool_of u s).used_map idx cnt value m
    → Marked s u cnt idx value (record (with_map u m s) { mem = mem })
with_map-Marked true mem cnt idx value r = record {
  bases = elim [ true ↦ refl | false ↦ refl ];
  sizes = elim [ true ↦ r.size | false ↦ refl ];
  bits = elim [ true ↦ λ j. r.bits j | false ↦ λ j. refl ];
}
with_map-Marked false mem cnt idx value r = record {
  bases = elim [ true ↦ refl | false ↦ refl ];
  sizes = elim [ true ↦ refl | false ↦ r.size ];
  bits = elim [ true ↦ λ j. refl | false ↦ λ j. r.bits j ];
}
