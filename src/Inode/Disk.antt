-- ===== src/Inode/Disk.antt =====
-- filesys/inode.c: inode_create(), and an inode as the bytes of its sector.
use turbo_baker.Prelude.{
  ltb, not, ◌&&◌, ◌⊎◌, inl, inr, ℕ, zero, suc, ◌+◌, ◌*◌, ◌/◌, ◌%◌, ◌^◌, ◌<◌, ◌≡◌, refl, sym, ap,
  ◌∙◌, ◌≢◌, Bool, true, false, Option, some, arith, if◌then◌else◌, ne→==, ==_refl, length, Mem,
  within,
}
use turbo_baker.Bitmap.Bits.{IsBitmap, view}
use turbo_baker.FreeMap.{FreeMap, free_map_allocate}
use turbo_baker.FreeMap.Outcome.{
  SameMap, Allocated, granted, no_room, not_written, free_map_allocate-Allocated,
}
use turbo_baker.Inode.{
  InodeDisk, Inodes, bytes_to_sectors, byte_of, word_at, sector_of, disk_of, write_block, zero_loop,
  inode_create,
}

word :
    (w : ℕ)
    → w < 2 ^ 32
    → w / 1 % 256
        + 256 * (w / 256 % 256)
        + 65536 * (w / 65536 % 256)
        + 16777216 * (w / 16777216 % 256)
      ≡ w
word w r = omega (arith, r)

-- An inode is read back from its sector.
pub disk_of-sector_of :
    (start length : ℕ)
    → start < 2 ^ 32
    → length < 2 ^ 32
    → disk_of (sector_of (record { start = start; length = length }))
      ≡ record { start = start; length = length }
unfolding disk_of sector_of word_at byte_of
disk_of-sector_of start length p q =
    λ i. record { start = word start p i; length = word length q i }

zero_loop_lem :
    (n start : ℕ) (block : ℕ → Mem) (t : ℕ)
    → zero_loop n start block t ≡ (if within start n t then (λ a. 0) else block t)
unfolding zero_loop
zero_loop_lem zero start block t = ground arith
zero_loop_lem (suc n) start block t =
    zero_loop_lem n (start + 1) (write_block block start (λ a. 0)) t ∙ ground arith

-- How inode_create() ends. Where the map has been written, the device is first what that left.
pub data Created (written : Bool) (flushed : ℕ → Mem) (sector length : ℕ) (s : Inodes)
    : Bool → Inodes → Type 0 where
  created :
      (s' : Inodes) (start : ℕ) (m : FreeMap)
      → Allocated written flushed (bytes_to_sectors length) s.map (some start) m
      → s' ≡ record s { map = record m { block = s'.map.block } }
      → disk_of (s'.map.block sector) ≡ record { start = start; length = length }
      → ((t : ℕ) → within start (bytes_to_sectors length) t ≡ true → s'.map.block t ≡ (λ a. 0))
      → ((t : ℕ)
          → within start (bytes_to_sectors length) t ≡ false
          → t ≢ sector
          → s'.map.block t ≡ (if s.map.file_open then flushed else s.map.block) t)
      → Created written flushed sector length s true s'
  failed :
      (s' : Inodes)
      → SameMap s.map s'.map
      → s' ≡ record s { map = s'.map }
      → (s'.map.block ≡ s.map.block)
        ⊎ (((s.map.file_open && not written) ≡ true) × (s'.map.block ≡ flushed))
      → Created written flushed sector length s false s'

module _ (written : Bool) (flushed : ℕ → Mem) (sector length : ℕ) (s : Inodes)
    (v : IsBitmap s.map.free_map) (used : view s.map.free_map sector ≡ true)
    (fits : length + 511 < 2 ^ 31) where
  no_overflow : ltb length (2 ^ 31) ≡ true
  no_overflow = ground (arith, fits)

  after_map :
      (out : Option ℕ) (m : FreeMap)
      → free_map_allocate written flushed (bytes_to_sectors length) s.map ≡ some (out, m)
      → Allocated written flushed (bytes_to_sectors length) s.map out m
      → (done : Bool) × (s' : Inodes) × (inode_create true written flushed sector length s
          ≡ some (done, s'))
        × Created written flushed sector length s done s'
  unfolding inode_create
  after_map _ _ e (no_room m full same dev) = (
    false,
    record s { map = m },
    rw (no_overflow, e) refl,
    failed (record s { map = m }) same refl (inl dev),
  )
  after_map _ _ e (not_written m bad same dev) = (
    false,
    record s { map = m },
    rw (no_overflow, e) refl,
    failed (record s { map = m }) same refl (inr (bad, dev)),
  )
  after_map _ _ e (granted start m hi full least sets file good dev) =
      let d : InodeDisk = record { start = start; length = length } in
      let out : within start (bytes_to_sectors length) sector ≡ false =
        ground (arith, full sector, used) in
      let block =
        zero_loop (bytes_to_sectors length) start (write_block m.block sector (sector_of d)) in
      let zeros = λ (t : ℕ).
        zero_loop_lem (bytes_to_sectors length) start (write_block m.block sector (sector_of d))
          t in
      let s' = record s { map = record m { block = block } } in
      (
        true,
        s',
        rw (no_overflow, e) refl,
        created s' start m (granted start m hi full least sets file good dev) refl
            (ap disk_of (rw (zeros sector, out, ==_refl sector) refl)
              ∙ disk_of-sector_of start length (omega (arith, v.small, hi)) (omega (arith, fits)))
            (λ t h. rw (zeros t, h) refl)
            (λ t h n.
              rw (zeros t, h, ne→== sector t (λ e. n (sym e))) (ap (λ (b : ℕ → Mem). b t) dev)),
      )

  -- inode_create() with a sector in use on a well-formed map and a length of at most 2 ^ 31 - 512
  -- ends: on success the data is the group of sectors that free_map_allocate() returned, the inode
  -- is read back from its sector with that start and that length, the data is zero, and every
  -- other sector is as the write of the map to its file left it, or as it was if that file is not
  -- open; on failure the bits of the map are as before, and the device is too, unless the map file
  -- is open and could not be written.
  pub inode_create-Created :
      (memory : Bool)
      → (done : Bool) × (s' : Inodes) × (inode_create memory written flushed sector length s
          ≡ some (done, s'))
        × Created written flushed sector length s done s'
  unfolding inode_create
  inode_create-Created true =
      let (out, m, e, a) =
        free_map_allocate-Allocated written flushed (bytes_to_sectors length) s.map v in
      after_map out m e a
  inode_create-Created false = (
    false,
    s,
    rw no_overflow refl,
    failed s (record { valid = v; size = refl; file = refl; bits = λ j. refl }) refl (inl refl),
  )
