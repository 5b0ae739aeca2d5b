-- ===== src/Palloc/Init.antt =====
-- threads/palloc.c: palloc_init() and init_pool(), the pools that the kernel starts with.
use turbo_baker.Prelude.{
  ℕ, ◌+◌, ◌-◌, ◌*◌, ◌/◌, ◌%◌, ◌^◌, ◌≤◌, ◌<◌, min, ◌≡◌, refl, ◌∙◌, Bool, true, false, some, List,
  arith, ltb, leb, if◌then◌else◌, length, get_or, Mem,
}
use turbo_baker.Bitmap.{
  Bitmap, bitmap_error, elem_cnt, bitmap_buf_size, bitmap_create_in_buf, bitmap_set_all,
}
use turbo_baker.Bitmap.Bits.{IsBitmap, view}
use turbo_baker.Bitmap.Range.{bitmap_set_multiple-SetsRange}
use turbo_baker.Palloc.{
  Pool, Pools, pgsize, phys_base, bm_pages, init_pool, free_start, palloc_init, pool_of,
}
use turbo_baker.Palloc.Valid.{IsPool, IsPools, used}

-- The words behind a bitmap's struct: as many as the bitmap needs, with any contents.
pub record Storage (bit_cnt : ℕ) (words : List ℕ) : Type 0 where
  pub room : length words ≡ elem_cnt bit_cnt
  pub words_lt : (i : ℕ) → get_or words i 0 < 2 ^ 32

-- A bitmap that is just created: every bit is false.
record Fresh (bit_cnt : ℕ) (b : Bitmap) : Type 0 where
  bitmap : IsBitmap b
  size : b.bit_cnt ≡ bit_cnt
  blank : (j : ℕ) → j < bit_cnt → view b j ≡ false

create-Fresh :
    (bit_cnt block_size : ℕ) (words : List ℕ)
    → Storage bit_cnt words
    → bitmap_buf_size bit_cnt ≤ block_size
    → bit_cnt < bitmap_error
    → (b : Bitmap) × (bitmap_create_in_buf bit_cnt block_size words ≡ some b) × Fresh bit_cnt b
unfolding bitmap_create_in_buf bitmap_set_all
create-Fresh bit_cnt block_size words s room small =
    let raw : IsBitmap (record { bit_cnt = bit_cnt; bits = words }) = record {
      room = s.room;
      words = s.words_lt;
      small = small;
    } in
    let (b, e, r) = bitmap_set_multiple-SetsRange 0 bit_cnt false raw (omega arith) in
    let fits : leb (bitmap_buf_size bit_cnt) block_size ≡ true = ground (arith, room) in
    (
      b,
      rw fits e,
      record { bitmap = r.valid; size = r.size; blank = λ j h. r.bits j ∙ ground (arith, h) },
    )

-- A pool of `page_cnt` pages from `base` on: what is left of it behind the pages of its bitmap.
record Laid (base page_cnt : ℕ) (p : Pool) : Type 0 where
  pool : IsPool p
  at : p.base ≡ base + bm_pages page_cnt * pgsize
  size : p.used_map.bit_cnt ≡ page_cnt - bm_pages page_cnt
  blank : (j : ℕ) → j < page_cnt - bm_pages page_cnt → view p.used_map j ≡ false

bm_pages-le : (n : ℕ) → 0 < n → bm_pages n ≤ n
bm_pages-le n h = omega arith

init_pool-Laid :
    (base page_cnt : ℕ) (words : List ℕ)
    → 0 < page_cnt
    → Storage (page_cnt - bm_pages page_cnt) words
    → base % pgsize ≡ 0
    → 0 < base
    → base + pgsize * page_cnt ≤ 2 ^ 32
    → (p : Pool) × (init_pool base page_cnt words ≡ some p) × Laid base page_cnt p
unfolding init_pool
init_pool-Laid base page_cnt words pos s aligned start fits =
    let (b, e, f) =
      create-Fresh (page_cnt - bm_pages page_cnt) (bm_pages page_cnt * pgsize) words s (omega arith)
        (omega arith) in
    let enough : ltb page_cnt (bm_pages page_cnt) ≡ false =
      ground (arith, bm_pages-le page_cnt pos) in
    (
      record { used_map = b; base = base + bm_pages page_cnt * pgsize },
      rw enough rw e refl,
      record {
        pool = record {
          bitmap = f.bitmap;
          aligned = omega (arith, aligned);
          positive = omega (arith, start);
          fits = omega (arith, f.size, bm_pages-le page_cnt pos, fits);
        };
        at = refl;
        size = f.size;
        blank = f.blank;
      },
    )

-- How many pages the user pool gets, and the kernel pool, out of the RAM above 1 MB.
abbrev pub user_share : (init_ram_pages user_page_limit : ℕ) → ℕ
user_share init_ram_pages user_page_limit = min user_page_limit ((init_ram_pages - 256) / 2)

abbrev pub kernel_share : (init_ram_pages user_page_limit : ℕ) → ℕ
kernel_share init_ram_pages user_page_limit =
    init_ram_pages - 256 - user_share init_ram_pages user_page_limit

-- The pools of a machine with `n` pages of RAM, in this order above 1 MB: the kernel pool's bitmap,
-- its pages, the user pool's bitmap and its pages, which end with the RAM. Every page is free, and
-- the pages of each pool with those of its bitmap are its share.
pub record Started (n limit : ℕ) (s : Pools) : Type 0 where
  pub valid : IsPools s
  pub kernel_from :
      phys_base + 1024 * 1024 + bitmap_buf_size s.kernel.used_map.bit_cnt ≤ s.kernel.base
  pub user_from :
      s.kernel.base + pgsize * s.kernel.used_map.bit_cnt + bitmap_buf_size s.user.used_map.bit_cnt
      ≤ s.user.base
  pub user_to : s.user.base + pgsize * s.user.used_map.bit_cnt ≡ phys_base + n * pgsize
  pub kernel_size :
      s.kernel.used_map.bit_cnt + bm_pages (kernel_share n limit) ≡ kernel_share n limit
  pub user_size : s.user.used_map.bit_cnt + bm_pages (user_share n limit) ≡ user_share n limit
  pub blank : (w : Bool) (j : ℕ) → j < (pool_of w s).used_map.bit_cnt → used s w j ≡ false

module _ (n limit : ℕ) (lower : 258 ≤ n) (upper : n * pgsize + phys_base ≤ 2 ^ 32) where
  in_map : ltb ((n * pgsize) % 2 ^ 32) phys_base ≡ true
  in_map = ground (arith, lower, upper)

  free_pages_lem :
      ((n * pgsize + phys_base) % 2 ^ 32 + 2 ^ 32 - free_start) % 2 ^ 32 / pgsize ≡ n - 256
  free_pages_lem = omega (arith, lower, upper)

  user_share_lem : (if ltb limit ((n - 256) / 2) then limit else (n - 256) / 2) ≡ user_share n limit
  user_share_lem = ground arith

-- On a machine with at least 258 pages of RAM, whose end as a kernel address is at most 2 ^ 32,
-- and with a positive limit on user pages, palloc_init() does not panic: from 1 MB on it lays out,
-- one behind the other, the bitmap of the kernel pool, its pages, the bitmap of the user pool and
-- its pages, which end with the RAM; each pool has the pages of its share that its bitmap does not
-- take up, and all of them are free, whatever was in the memory that holds the bitmaps.
pub palloc_init-Started :
    (init_ram_pages user_page_limit : ℕ) {kernel_words user_words : List ℕ} (mem : Mem)
    → 258 ≤ init_ram_pages
    → init_ram_pages * pgsize + phys_base ≤ 2 ^ 32
    → 0 < user_page_limit
    → Storage
        (kernel_share init_ram_pages user_page_limit
          - bm_pages (kernel_share init_ram_pages user_page_limit))
        kernel_words
    → Storage
        (user_share init_ram_pages user_page_limit
          - bm_pages (user_share init_ram_pages user_page_limit))
        user_words
    → (s : Pools) × (palloc_init init_ram_pages user_page_limit kernel_words user_words mem
        ≡ some s)
      × Started init_ram_pages user_page_limit s
unfolding palloc_init
palloc_init-Started n limit {kernel_words} {user_words} mem lower upper some_user ks us =
    let (k, e, kl) =
      init_pool-Laid free_start (kernel_share n limit) kernel_words (omega arith) ks refl
        (omega arith) (omega arith) in
    let (u, f, ul) =
      init_pool-Laid (free_start + kernel_share n limit * pgsize) (user_share n limit) user_words
        (omega arith) us (omega arith) (omega arith) (omega arith) in
    (
      record { kernel = k; user = u; mem = mem },
      rw
          (
            in_map n limit lower upper,
            free_pages_lem n limit lower upper,
            user_share_lem n limit lower upper,
            e,
            f,
          )
          refl,
      record {
        valid = record {
          kernel = kl.pool;
          user = ul.pool;
          apart =
              omega
                (arith, kl.at, ul.at, kl.size, bm_pages-le (kernel_share n limit) (omega arith));
        };
        kernel_from = omega (arith, kl.at, kl.size);
        user_from = omega (
          arith,
          kl.at,
          kl.size,
          ul.at,
          ul.size,
          bm_pages-le (kernel_share n limit) (omega arith),
        );
        user_to =
            omega
              (arith, ul.at, ul.size, bm_pages-le (user_share n limit) (omega arith), lower, upper);
        kernel_size = omega (arith, kl.size, bm_pages-le (kernel_share n limit) (omega arith));
        user_size = omega (arith, ul.size, bm_pages-le (user_share n limit) (omega arith));
        blank = elim [
          | true ↦ λ j h. ul.blank j (omega (arith, ul.size, h))
          | false ↦ λ j h. kl.blank j (omega (arith, kl.size, h))
        ];
      },
    )
