-- ===== src/Palloc.antt =====
-- threads/palloc.c: the page allocator, two pools of pages behind bitmaps. `none` is a panic or a
-- failed assertion; a null pointer is 0. The pool's lock is not modelled: an operation is one step.
pub mod Valid
pub mod Get
pub mod Free
pub mod Regions
pub mod Live
pub mod Init
pub mod Tests
use turbo_baker.Prelude.{
  ℕ, zero, suc, ◌+◌, ◌-◌, ◌*◌, ◌/◌, ◌%◌, ◌^◌, ◌≤◌, ◌<◌, min, max, ◌≡◌, refl, sym, ap, ◌∙◌, subst,
  fun_ext, ◌≢◌, ◌↔◌, ◌⊎◌, inl, inr, Bool, true, false, not, ◌&&◌, ◌||◌, Option, none, some, List,
  [], ◌∷◌, ◌++◌, map, arith, ltb, leb, ◌==◌, if◌then◌else◌, same_bool, ltb→lt, ltb→ge, leb→le,
  leb→gt, ==→eq, ==→ne, ne→==, ==_refl, tests, Bool-cases, Option-cases, length, get_or, set,
  replicate, length-append, length-set, length-replicate, get_or-set_self, get_or-set_ne, Mem,
  write, within, ◌>>=◌, is_some,
}
use Prim.Native.Nat.{bit_and}
use turbo_baker.Str.Block.{memset}
use turbo_baker.Bitmap.{
  Bitmap, bitmap_error, byte_cnt, assert, bitmap_all, bitmap_set_multiple, bitmap_scan_and_flip,
  bitmap_create_in_buf, bitmap_buf_size,
}

abbrev pub pgsize : ℕ
pgsize = 4096

abbrev pub phys_base : ℕ
phys_base = 0xc000_0000

abbrev pub pg_ofs : ℕ → ℕ
pg_ofs va = va % pgsize

abbrev pub pg_no : ℕ → ℕ
pg_no va = va / pgsize

abbrev pub pal_assert : ℕ
pal_assert = 1

abbrev pub pal_zero : ℕ
pal_zero = 2

abbrev pub pal_user : ℕ
pal_user = 4

pub flag : ℕ → ℕ → Bool
flag flags f = not (bit_and flags f == 0)

pub record Pool : Type 0 where
  pub used_map : Bitmap
  pub base : ℕ

pub record Pools : Type 0 where
  pub kernel : Pool
  pub user : Pool
  pub mem : Mem

abbrev pub pool_of : Bool → Pools → Pool
pool_of true s = s.user
pool_of false s = s.kernel

abbrev pub with_map : Bool → Bitmap → Pools → Pools
with_map from_user m s = record {
  kernel = if from_user then s.kernel else record { used_map = m; base = s.kernel.base };
  user = if from_user then record { used_map = m; base = s.user.base } else s.user;
  mem = s.mem;
}

-- The end of palloc_get_multiple(), at the pages that were found.
deliver : ℕ → ℕ → ℕ → Pools → Option (ℕ × Pools)
deliver flags page_cnt pages s =
    if not (pages == 0)
    then (if flag flags pal_zero
        then some (pages, record s { mem = (memset s.mem pages 0 (pgsize * page_cnt)).1 })
        else some (pages, s))
    else if flag flags pal_assert
    then none
    else some (pages, s)

pub palloc_get_multiple : ℕ → ℕ → Pools → Option (ℕ × Pools)
unfolding deliver
palloc_get_multiple flags page_cnt s =
    let from_user = flag flags pal_user in
    let pool = pool_of from_user s in
    if page_cnt == 0
    then some (0, s)
    else (bitmap_scan_and_flip pool.used_map 0 page_cnt false >>= λ found.
        deliver flags page_cnt
          (if not (found.0 == bitmap_error) then (pool.base + pgsize * found.0) % 2 ^ 32 else 0)
          (with_map from_user found.1 s))

pub palloc_get_page : ℕ → Pools → Option (ℕ × Pools)
unfolding palloc_get_multiple
palloc_get_page flags s = palloc_get_multiple flags 1 s

abbrev pub page_from_pool : Pool → ℕ → Bool
page_from_pool pool page =
    leb (pg_no pool.base) (pg_no page) && ltb (pg_no page) (pg_no pool.base + pool.used_map.bit_cnt)

-- The end of palloc_free_multiple(), at the pool that the pages are from.
release : Bool → ℕ → ℕ → Pools → Option Pools
release from_user pages page_cnt s =
    let pool = pool_of from_user s in
    let page_idx = pg_no pages - pg_no pool.base in
    bitmap_all pool.used_map page_idx page_cnt >>= λ all_used.
    if all_used
    then (bitmap_set_multiple pool.used_map page_idx page_cnt false >>= λ m.
        some (record (with_map from_user m s) {
          mem = (memset s.mem pages 0xcc (pgsize * page_cnt)).1;
        }))
    else none

pub palloc_free_multiple : ℕ → ℕ → Pools → Option Pools
unfolding release
palloc_free_multiple pages page_cnt s =
    if not (pg_ofs pages == 0)
    then none
    else if pages == 0 || page_cnt == 0
    then some s
    else if page_from_pool s.kernel pages
    then release false pages page_cnt s
    else if page_from_pool s.user pages
    then release true pages page_cnt s
    else none

pub palloc_free_page : ℕ → Pools → Option Pools
unfolding palloc_free_multiple
palloc_free_page page s = palloc_free_multiple page 1 s

-- The pages that a pool's own bitmap takes up.
abbrev bm_pages : ℕ → ℕ
bm_pages page_cnt = (bitmap_buf_size page_cnt + pgsize - 1) / pgsize

-- `storage` is what the bitmap's words hold before they are cleared.
init_pool : (base page_cnt : ℕ) → List ℕ → Option Pool
init_pool base page_cnt storage =
    if ltb page_cnt (bm_pages page_cnt)
    then none
    else (bitmap_create_in_buf (page_cnt - bm_pages page_cnt) (bm_pages page_cnt * pgsize) storage
        >>= λ m. some (record { used_map = m; base = base + bm_pages page_cnt * pgsize }))

abbrev free_start : ℕ
free_start = phys_base + 1024 * 1024

-- ptov() asserts that the end of the RAM lies below PHYS_BASE.
pub palloc_init :
    (init_ram_pages user_page_limit : ℕ) (kernel_words user_words : List ℕ) → Mem → Option Pools
unfolding init_pool
palloc_init init_ram_pages user_page_limit kernel_words user_words mem =
    let free_end = (init_ram_pages * pgsize + phys_base) % 2 ^ 32 in
    let free_pages = (free_end + 2 ^ 32 - free_start) % 2 ^ 32 / pgsize in
    let half = free_pages / 2 in
    let user_pages = (if ltb user_page_limit half then user_page_limit else half) in
    let kernel_pages = free_pages - user_pages in
    assert (ltb ((init_ram_pages * pgsize) % 2 ^ 32) phys_base) (
      init_pool free_start kernel_pages kernel_words >>= λ k.
      init_pool (free_start + kernel_pages * pgsize) user_pages user_words >>= λ u.
      some (record { kernel = k; user = u; mem = mem }))
