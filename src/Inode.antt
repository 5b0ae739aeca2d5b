-- ===== src/Inode.antt =====
-- filesys/inode.c: inodes on the device and the table of the open ones. The list of open inodes is a
-- list of KernelList, held here as its sequence of addresses; 0 is NULL. `none` is a failed
-- assertion. Counts and lengths are read as ints below 2 ^ 31. The transfer of data, which goes through the buffer cache, is not modelled.
pub mod Opening
pub mod Closing
pub mod Disk
pub mod Writes
pub mod Tests
use turbo_baker.Prelude.{
  ℕ, zero, suc, ◌+◌, ◌-◌, ◌*◌, ◌/◌, ◌%◌, ◌^◌, ◌≤◌, ◌<◌, min, max, ◌≡◌, refl, sym, ap, ◌∙◌, subst,
  fun_ext, ◌≢◌, ◌↔◌, ◌⊎◌, inl, inr, Bool, true, false, not, ◌&&◌, ◌||◌, Option, none, some, List,
  [], ◌∷◌, ◌++◌, map, arith, ltb, leb, ◌==◌, if◌then◌else◌, same_bool, ltb→lt, ltb→ge, leb→le,
  leb→gt, ==→eq, ==→ne, ne→==, ==_refl, tests, Bool-cases, Option-cases, length, get_or, set,
  replicate, length-append, length-set, length-replicate, get_or-set_self, get_or-set_ne, Mem,
  write, within, ◌>>=◌, is_some, true_ne_false, count, count-append,
}
use turbo_baker.Bitmap.{assert}
use turbo_baker.HashTable.{take_out}
use turbo_baker.FreeMap.{FreeMap, free_map_allocate, free_map_release}

abbrev pub block_sector_size : ℕ
block_sector_size = 512

abbrev pub inode_magic : ℕ
inode_magic = 0x494e_4f44

pub record InodeDisk : Type 0 where
  pub start : ℕ
  pub length : ℕ

pub record Inode : Type 0 where
  pub sector : ℕ
  pub open_cnt : ℕ
  pub removed : Bool
  pub deny_write_cnt : ℕ
  pub start : ℕ
  pub length : ℕ

-- The open inodes, and the free map with the device.
pub record Inodes : Type 0 where
  pub open_inodes : List ℕ
  pub inode : ℕ → Inode
  pub map : FreeMap

pub bytes_to_sectors : ℕ → ℕ
bytes_to_sectors size = (size + (block_sector_size - 1)) / block_sector_size

-- -1, as a block_sector_t.
abbrev pub no_sector : ℕ
no_sector = 2 ^ 32 - 1

pub byte_to_sector : Inode → ℕ → ℕ
byte_to_sector i pos =
    if ltb pos i.length then (i.start + pos / block_sector_size) % 2 ^ 32 else no_sector

-- A 32-bit word in memory, its low byte first.
pub byte_of : ℕ → ℕ → ℕ
byte_of w k = (w / 256 ^ k) % 256

pub word_at : Mem → ℕ → ℕ
word_at m a = m a + 256 * m (a + 1) + 65536 * m (a + 2) + 16777216 * m (a + 3)

-- The sector of an inode, and the inode that a sector is read as.
pub sector_of : InodeDisk → Mem
sector_of d a =
    if ltb a 4
    then byte_of d.start a
    else if ltb a 8
    then byte_of d.length (a - 4)
    else if ltb a 12
    then byte_of inode_magic (a - 8)
    else 0

pub disk_of : Mem → InodeDisk
disk_of m = record { start = word_at m 0; length = word_at m 4 }

abbrev pub write_block : (ℕ → Mem) → ℕ → Mem → ℕ → Mem
write_block block sector m t = if sector == t then m else block t

-- The loop that writes `sectors` sectors of zeros from `start` on.
pub zero_loop : (sectors start : ℕ) → (ℕ → Mem) → ℕ → Mem
zero_loop zero start block = block
zero_loop (suc n) start block = zero_loop n (start + 1) (write_block block start (λ a. 0))

-- `granted`: calloc() gives memory. A length of 2 ^ 31 or more is a negative off_t.
pub inode_create :
    (granted written : Bool) (flushed : ℕ → Mem)
    → (sector length : ℕ) → Inodes
    → Option (Bool × Inodes)
inode_create granted written flushed sector length s = assert (ltb length (2 ^ 31)) (
    if granted
    then (free_map_allocate written flushed (bytes_to_sectors length) s.map >>= λ r. elim r.0 [
      | none ↦ some (false, record s { map = r.1 })
      | some start ↦ some (
        true,
        record s {
          map = record (r.1) {
            block = zero_loop (bytes_to_sectors length) start (
                write_block ((r.1).block) sector
                  (sector_of (record { start = start; length = length })));
          };
        },
      )
    ])
    else some (false, s))

abbrev pub set_inode : ℕ → Inode → Inodes → Inodes
set_inode e i s = record s { inode = λ q. if e == q then i else s.inode q }

-- The loop of inode_open() over the open inodes.
pub find_open : (ℕ → Inode) → ℕ → List ℕ → Option ℕ
find_open inode sector [] = none
find_open inode sector (e ∷ es) =
    if (inode e).sector == sector then some e else find_open inode sector es

pub inode_reopen : ℕ → Inodes → ℕ × Inodes
inode_reopen e s =
    if not (e == 0)
    then (e, set_inode e (record (s.inode e) { open_cnt = ((s.inode e).open_cnt + 1) % 2 ^ 32 }) s)
    else (e, s)

-- `fresh` is what malloc() returns.
pub inode_open : (fresh sector : ℕ) → Inodes → ℕ × Inodes
inode_open fresh sector s = elim (find_open s.inode sector s.open_inodes) [
  | some e ↦ inode_reopen e s
  | none ↦ if fresh == 0 then (0, s) else (
    fresh,
    set_inode fresh
        (record {
          sector = sector;
          open_cnt = 1;
          removed = false;
          deny_write_cnt = 0;
          start = (disk_of (s.map.block sector)).start;
          length = (disk_of (s.map.block sector)).length;
        })
        (record s { open_inodes = fresh ∷ s.open_inodes }),
  )
]

pub inode_get_inumber : ℕ → Inodes → ℕ
inode_get_inumber e s = (s.inode e).sector

-- The blocks of a removed inode go back to the free map, which is written twice; what the first
-- time leaves on the device is overwritten by the second.
pub release_blocks : (flushed : ℕ → Mem) → Inode → Inodes → Option Inodes
release_blocks flushed i s =
    if i.removed
    then (free_map_release flushed i.sector 1 s.map >>= λ m.
        free_map_release flushed i.start (bytes_to_sectors i.length) m >>= λ m'.
        some (record s { map = m' }))
    else some s

pub inode_close : (flushed : ℕ → Mem) → ℕ → Inodes → Option Inodes
inode_close flushed e s =
    if e == 0
    then some s
    else let i = record (s.inode e) { open_cnt = ((s.inode e).open_cnt + 2 ^ 32 - 1) % 2 ^ 32 } in
      let s' = set_inode e i s in
      if i.open_cnt == 0
      then release_blocks flushed i (record s' { open_inodes = take_out e s.open_inodes })
      else some s'

pub inode_remove : ℕ → Inodes → Option Inodes
inode_remove e s =
    assert (not (e == 0)) (some (set_inode e (record (s.inode e) { removed = true }) s))

pub inode_deny_write : ℕ → Inodes → Option Inodes
inode_deny_write e s =
    let i = record (s.inode e) { deny_write_cnt = ((s.inode e).deny_write_cnt + 1) % 2 ^ 32 } in
    assert (leb i.deny_write_cnt i.open_cnt) (some (set_inode e i s))

pub inode_allow_write : ℕ → Inodes → Option Inodes
inode_allow_write e s =
    let i = s.inode e in
    assert (ltb 0 i.deny_write_cnt) (
      assert (leb i.deny_write_cnt i.open_cnt)
        (some (set_inode e (record i { deny_write_cnt = i.deny_write_cnt - 1 }) s)))

pub inode_length : ℕ → Inodes → ℕ
inode_length e s = (s.inode e).length
