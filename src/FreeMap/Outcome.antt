-- ===== src/FreeMap/Outcome.antt =====
-- filesys/free-map.c: what allocation and release do to the map, bit by bit.
use turbo_baker.Prelude.{
  Mem, if◌then◌else◌, ℕ, ◌+◌, ◌≤◌, ◌≡◌, refl, ◌∙◌, subst, inl, inr, Bool, true, false, not, ◌&&◌,
  Option, none, some, arith, ◌==◌, ne→==, Bool-cases, ◌>>=◌,
}
use turbo_baker.Bitmap.{Bitmap, bitmap_error}
use turbo_baker.Bitmap.Bits.{IsBitmap, view}
use turbo_baker.Bitmap.Range.{
  SetsRange, bitmap_set_multiple-SetsRange, Full, Somewhere, bitmap_all_of_Full,
}
use turbo_baker.Bitmap.Scan.{NoGroup, Flipped, flipped, unchanged, bitmap_scan_and_flip-Flipped}
use turbo_baker.FreeMap.{FreeMap, roll_back, settle, free_map_allocate, free_map_release}

-- The two maps have the same bits, and so do the files.
pub record SameMap (s s' : FreeMap) : Type 0 where
  pub valid : IsBitmap s'.free_map
  pub size : s'.free_map.bit_cnt ≡ s.free_map.bit_cnt
  pub file : s'.file_open ≡ s.file_open
  pub bits : (j : ℕ) → view s'.free_map j ≡ view s.free_map j

-- How free_map_allocate() ends.
pub data Allocated (written : Bool) (flushed : ℕ → Mem) (cnt : ℕ) (s : FreeMap)
    : Option ℕ → FreeMap → Type 0 where
  granted :
      (sector : ℕ) (s' : FreeMap)
      → sector + cnt ≤ s.free_map.bit_cnt
      → Full s.free_map sector cnt false
      → NoGroup s.free_map 0 sector cnt false
      → SetsRange s.free_map sector cnt true s'.free_map
      → s'.file_open ≡ s.file_open
      → (s.file_open && not written) ≡ false
      → s'.block ≡ (if s.file_open then flushed else s.block)
      → Allocated written flushed cnt s (some sector) s'
  no_room :
      (s' : FreeMap)
      → ((i : ℕ) → i + cnt ≤ s.free_map.bit_cnt → Somewhere s.free_map i cnt true)
      → SameMap s s'
      → s'.block ≡ s.block
      → Allocated written flushed cnt s none s'
  not_written :
      (s' : FreeMap)
      → (s.file_open && not written) ≡ true
      → SameMap s s'
      → s'.block ≡ flushed
      → Allocated written flushed cnt s none s'

module _ (written : Bool) (flushed : ℕ → Mem) (cnt : ℕ) (s : FreeMap)
    (v : IsBitmap s.free_map) where
  ended :
      (found : (idx : ℕ) × (m : Bitmap) × Flipped s.free_map 0 cnt false idx m)
      → (out : Option ℕ) × (s' : FreeMap) × ((roll_back written flushed found.0 cnt s found.1
            >>= λ r. some (settle r))
          ≡ some (out, s'))
        × Allocated written flushed cnt s out s'
  unfolding roll_back settle
  ended (idx, m, unchanged e same crowded) = (
    none,
    record s { free_map = m },
    rw e refl,
    no_room (record s { free_map = m }) (λ i h. crowded i (omega arith) h)
        (record { valid = rw same v; size = rw same refl; file = refl; bits = λ j. rw same refl })
        refl,
  )
  ended (idx, m, flipped lo hi full least sets) =
      let ne : (idx == bitmap_error) ≡ false =
        ne→== idx bitmap_error (λ e. absurd (omega (arith, v.small, hi, e))) in
      elim (Bool-cases s.file_open) [
        | inr closed ↦ (
          some idx,
          record s { free_map = m },
          rw (ne, closed) (rw ne refl),
          granted idx (record s { free_map = m }) hi full least sets refl (rw closed refl)
              (rw closed refl),
        )
        | inl open_ ↦ elim (Bool-cases written) [
          | inl good ↦ (
            some idx,
            record s { free_map = m; block = flushed },
            rw (ne, open_, good) (rw ne refl),
            granted idx (record s { free_map = m; block = flushed }) hi full least sets refl
                (rw (open_, good) refl) (rw open_ refl),
          )
          | inr bad ↦
              let (m', cleared, back) =
                bitmap_set_multiple-SetsRange idx cnt false sets.valid
                  (omega (arith, sets.size, hi)) in
              (
                none,
                record s { free_map = m'; block = flushed },
                rw (ne, open_, bad, cleared) refl,
                not_written (record s { free_map = m'; block = flushed }) (rw (open_, bad) refl)
                    (record {
                      valid = back.valid;
                      size = back.size ∙ sets.size;
                      file = refl;
                      bits = λ j. ground (arith, back.bits j, sets.bits j, full j);
                    })
                    refl,
              )
        ]
      ]

  -- free_map_allocate() on a well-formed map ends: it returns the first group of that many free
  -- sectors, and exactly these are then in use, unless the map has no such group or its file is
  -- open and cannot be written; then it returns false and every bit of the map is as before; the
  -- device is what the write of the map left, if there was one, and else as before.
  pub free_map_allocate-Allocated :
      (out : Option ℕ) × (s' : FreeMap) × (free_map_allocate written flushed cnt s ≡ some (out, s'))
      × Allocated written flushed cnt s out s'
  unfolding free_map_allocate
  free_map_allocate-Allocated =
      let (idx, m, e, f) = bitmap_scan_and_flip-Flipped 0 cnt false v (omega arith) in
      let (out, s', done, a) = ended (idx, m, f) in (out, s', rw e done, a)

-- free_map_release() of sectors that are all in use, with the file open.
pub free_map_release-SetsRange :
    (s : FreeMap) (flushed : ℕ → Mem) (sector cnt : ℕ)
    → IsBitmap s.free_map
    → s.file_open ≡ true
    → sector + cnt ≤ s.free_map.bit_cnt
    → Full s.free_map sector cnt true
    → (m : Bitmap) × (free_map_release flushed sector cnt s
        ≡ some (record s { free_map = m; block = flushed }))
      × SetsRange s.free_map sector cnt false m
unfolding free_map_release
free_map_release-SetsRange s flushed sector cnt v open_ inside full =
    let (m, cleared, back) = bitmap_set_multiple-SetsRange sector cnt false v inside in
    (m, rw (bitmap_all_of_Full sector cnt v inside full, cleared, open_) refl, back)

-- free_map_release() of what has been allocated.
free_map_release-SameMap :
    (written : Bool) (flushed flushed' : ℕ → Mem) (cnt : ℕ) (s : FreeMap) (sector : ℕ)
    (s' : FreeMap)
    → Allocated written flushed cnt s (some sector) s'
    → s.file_open ≡ true
    → (s'' : FreeMap) × (free_map_release flushed' sector cnt s' ≡ some s'') × SameMap s s''
free_map_release-SameMap written flushed flushed' cnt s sector s' a open_ =
    of_grant (some sector) a refl
  where
    of_grant :
        (out : Option ℕ)
        → Allocated written flushed cnt s out s'
        → out ≡ some sector
        → (s'' : FreeMap) × (free_map_release flushed' sector cnt s' ≡ some s'') × SameMap s s''
    of_grant _ (no_room _ full same dev) e = cc
    of_grant _ (not_written _ bad same dev) e = cc
    of_grant _ (granted at s' hi full least sets file good dev) e =
        let same : at ≡ sector = cc in
        let full' : Full s'.free_map at cnt true = λ j lo h. ground (arith, sets.bits j) in
        let inside : at + cnt ≤ s'.free_map.bit_cnt = omega (arith, sets.size, hi) in
        let (m, released, back) =
          free_map_release-SetsRange s' flushed' at cnt sets.valid (file ∙ open_) inside full' in
        (
          record s' { free_map = m; block = flushed' },
          subst
              (λ (a : ℕ).
                free_map_release flushed' a cnt s'
                ≡ some (record s' { free_map = m; block = flushed' }))
              same released,
          record {
            valid = back.valid;
            size = back.size ∙ sets.size;
            file = file;
            bits = λ j. ground (arith, back.bits j, sets.bits j, full j);
          },
        )

-- Sectors that free_map_allocate() returned from a well-formed map whose file is open can be released, and the map
-- then has the bits that it had before.
pub free_map_release-allocate :
    (written : Bool) (flushed flushed' : ℕ → Mem) (cnt : ℕ) (s : FreeMap) (sector : ℕ)
    (s' : FreeMap)
    → IsBitmap s.free_map
    → s.file_open ≡ true
    → free_map_allocate written flushed cnt s ≡ some (some sector, s')
    → (s'' : FreeMap) × (free_map_release flushed' sector cnt s' ≡ some s'') × SameMap s s''
free_map_release-allocate written flushed flushed' cnt s sector s' v open_ e =
    let (out, s1, e1, a) = free_map_allocate-Allocated written flushed cnt s v in
    let same_out : out ≡ some sector = cc in
    let same_map : s1 ≡ s' = cc in
    free_map_release-SameMap written flushed flushed' cnt s sector s'
      (subst (λ (m : FreeMap). Allocated written flushed cnt s (some sector) m) same_map
        (subst (λ (o : Option ℕ). Allocated written flushed cnt s o s1) same_out a))
      open_
