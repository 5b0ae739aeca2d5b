-- ===== src/Inode/Closing.antt =====
-- filesys/inode.c: inode_close().
use turbo_baker.Prelude.{
  Mem, ℕ, ◌+◌, ◌-◌, ◌%◌, ◌^◌, ◌≤◌, ◌<◌, ◌≡◌, refl, sym, ap, ◌∙◌, ◌≢◌, inl, inr, Bool, true, false,
  ◌&&◌, ◌||◌, some, List, [], ◌∷◌, arith, ◌==◌, if◌then◌else◌, ==→eq, ne→==, Bool-cases, within,
  true_ne_false, count,
}
use turbo_baker.Bitmap.Bits.{IsBitmap, view}
use turbo_baker.Bitmap.Range.{Full}
use turbo_baker.HashTable.{take_out}
use turbo_baker.FreeMap.{FreeMap}
use turbo_baker.FreeMap.Outcome.{free_map_release-SetsRange}
use turbo_baker.Inode.{Inode, Inodes, set_inode, bytes_to_sectors, release_blocks, inode_close}
use turbo_baker.Inode.Opening.{IsInodes}

count-take_out :
    (q e : ℕ) (es : List ℕ)
    → 0 < count e es
    → count q (take_out e es) + (if e == q then 1 else 0) ≡ count q es
unfolding take_out
count-take_out q e [] h = absurd (omega arith)
count-take_out q e (x ∷ xs) h = elim (Bool-cases (e == x)) [
  | inl a ↦ rw (a, ==→eq e x a) (ground arith)
  | inr a ↦ rw a (ground (arith, count-take_out q e xs))
]

-- The sectors of a removed inode are marked in the map, its own one apart from its data.
pub record Marked (s : Inodes) (i : Inode) : Type 0 where
  pub bitmap : IsBitmap s.map.free_map
  pub file : s.map.file_open ≡ true
  pub own_inside : i.sector + 1 ≤ s.map.free_map.bit_cnt
  pub own_used : Full s.map.free_map i.sector 1 true
  pub length_fits : i.length + 511 < 2 ^ 31
  pub data_inside : i.start + bytes_to_sectors i.length ≤ s.map.free_map.bit_cnt
  pub data_used : Full s.map.free_map i.start (bytes_to_sectors i.length) true
  pub apart : within i.start (bytes_to_sectors i.length) i.sector ≡ false

-- The map without the sectors of `i`.
abbrev pub Freed : Inodes → Inode → Inodes → Type 0
Freed s i s' =
    (j : ℕ)
    → view s'.map.free_map j ≡ (
        if within i.sector 1 j || within i.start (bytes_to_sectors i.length) j
        then false
        else view s.map.free_map j)

release_blocks-Freed :
    (flushed : ℕ → Mem) (i : Inode) (s : Inodes)
    → i.removed ≡ true
    → Marked s i
    → (m : FreeMap) × (release_blocks flushed i s ≡ some (record s { map = m }))
      × Freed s i (record s { map = m })
unfolding release_blocks
release_blocks-Freed flushed i s gone k =
    let (m1, one, sets1) =
      free_map_release-SetsRange s.map flushed i.sector 1 k.bitmap k.file k.own_inside k.own_used in
    let map1 = record (s.map) { free_map = m1; block = flushed } in
    let still : Full m1 i.start (bytes_to_sectors i.length) true =
      λ j lo hi. ground (arith, sets1.bits j, k.data_used j lo hi, k.apart) in
    let (m2, two, sets2) =
      free_map_release-SetsRange map1 flushed i.start (bytes_to_sectors i.length) sets1.valid k.file
        (omega (arith, sets1.size, k.data_inside)) still in
    (
      record (s.map) { free_map = m2; block = flushed },
      rw (gone, one, two) refl,
      λ j. ground (arith, sets1.bits j, sets2.bits j),
    )

no_release :
    (flushed : ℕ → Mem) (i : Inode) (s : Inodes)
    → i.removed ≡ false
    → release_blocks flushed i s ≡ some s
unfolding release_blocks
no_release flushed i s h = rw h refl

module _ (s : Inodes) (v : IsInodes s) (e : ℕ) (listed : 0 < count e s.open_inodes)
    (bounded : (s.inode e).open_cnt < 2 ^ 31) where
  abbrev last_one : Bool
  last_one = (s.inode e).open_cnt == 1

  -- How inode_close() ends.
  pub record Closed (s' : Inodes) : Type 0 where
    pub valid : IsInodes s'
    pub counted : (s'.inode e).open_cnt + 1 ≡ (s.inode e).open_cnt
    pub still_denied : (s'.inode e).deny_write_cnt ≡ (s.inode e).deny_write_cnt
    pub members :
        (q : ℕ)
        → count q s'.open_inodes ≡ (if (e == q) && last_one then 0 else count q s.open_inodes)
    pub others : (q : ℕ) → q ≢ e → s'.inode q ≡ s.inode q
    pub kept : (last_one && (s.inode e).removed) ≡ false → s'.map ≡ s.map
    pub freed : (last_one && (s.inode e).removed) ≡ true → Freed s (s.inode e) s'

  abbrev closed : Inode
  closed = record (s.inode e) { open_cnt = ((s.inode e).open_cnt + 2 ^ 32 - 1) % 2 ^ 32 }

  e_ne : (e == 0) ≡ false
  e_ne =
      ne→== e 0
        (λ z. absurd (omega (arith, listed, v.no_null, ap (λ (x : ℕ). count x s.open_inodes) z)))

  one_less : closed.open_cnt + 1 ≡ (s.inode e).open_cnt
  one_less = omega (arith, bounded, v.opened e listed)

  without_e : IsInodes (record (set_inode e closed s) { open_inodes = take_out e s.open_inodes })
  without_e =
      let c = λ (q : ℕ). count-take_out q e s.open_inodes listed in
      record {
        distinct = λ q. omega (arith, c q, v.distinct q);
        no_null = omega (arith, c 0, v.no_null);
        one = λ f g p q k.
            v.one f g (omega (arith, c f, p)) (omega (arith, c g, q)) (ground (arith, k));
        opened = λ f p. ground (arith, c f, v.opened f, v.distinct f);
        denied = λ f p. ground (arith, c f, v.denied f, v.distinct f);
      }

  with_e :
      (s.inode e).deny_write_cnt < (s.inode e).open_cnt
      → last_one ≡ false
      → IsInodes (set_inode e closed s)
  with_e d n = record {
    distinct = v.distinct;
    no_null = v.no_null;
    one = λ f g p q k. v.one f g p q (ground (arith, k));
    opened = λ f p. ground (arith, v.opened f p, one_less);
    denied = λ f p. ground (arith, v.denied f p, one_less);
  }

  closing_eq :
      (flushed : ℕ → Mem)
      → inode_close flushed e s ≡ (
          if last_one
          then release_blocks flushed closed
              (record (set_inode e closed s) { open_inodes = take_out e s.open_inodes })
          else some (set_inode e closed s))
  unfolding inode_close
  closing_eq flushed = rw (e_ne, zero_one) refl
    where
      zero_one : (closed.open_cnt == 0) ≡ last_one
      zero_one = ground (arith, one_less)

  -- inode_close() of a listed inode with fewer than 2 ^ 31 openers, of which some do not deny
  -- writes unless there is only one, leaves the open inodes well formed, with one opener less and
  -- the inode off the list if that was the last; if the last one closes a removed inode whose
  -- sectors are marked in the map, the map file being open, its assertions hold and exactly its
  -- own sector and its data become free, and otherwise the map is unchanged.
  pub inode_close-Closed :
      (flushed : ℕ → Mem)
      → (last_one ≡ false → (s.inode e).deny_write_cnt < (s.inode e).open_cnt)
      → ((last_one && (s.inode e).removed) ≡ true → Marked s (s.inode e))
      → (s' : Inodes) × (inode_close flushed e s ≡ some s') × Closed s'
  inode_close-Closed flushed d k = elim (Bool-cases last_one) [
    | inl l ↦
        let c = λ (q : ℕ). count-take_out q e s.open_inodes listed in
        let t = record (set_inode e closed s) { open_inodes = take_out e s.open_inodes } in
        elim (Bool-cases ((s.inode e).removed)) [
          | inl gone ↦
              let marks = k (rw (l, gone) refl) in
              let (m, done, freed) = release_blocks-Freed flushed closed t gone (record {
                bitmap = marks.bitmap;
                file = marks.file;
                own_inside = marks.own_inside;
                own_used = marks.own_used;
                length_fits = marks.length_fits;
                data_inside = marks.data_inside;
                data_used = marks.data_used;
                apart = marks.apart;
              }) in
              (
                record t { map = m },
                rw (closing_eq flushed, l) done,
                record {
                  valid = record {
                    distinct = without_e.distinct;
                    no_null = without_e.no_null;
                    one = without_e.one;
                    opened = without_e.opened;
                    denied = without_e.denied;
                  };
                  counted = ground (arith, one_less);
                  still_denied = ground arith;
                  members = λ q. ground (arith, c q, v.distinct q, l);
                  others = λ q n. ground (arith, n);
                  kept = λ x. absurd (true_ne_false (sym (rw (l, gone) refl) ∙ x));
                  freed = λ x. freed;
                },
              )
          | inr stays ↦ (
            t,
            rw (closing_eq flushed, l) (no_release flushed closed t stays),
            record {
              valid = without_e;
              counted = ground (arith, one_less);
              still_denied = ground arith;
              members = λ q. ground (arith, c q, v.distinct q, l);
              others = λ q n. ground (arith, n);
              kept = λ x. refl;
              freed = λ x. absurd (true_ne_false (sym x ∙ rw (l, stays) refl));
            },
          )
        ]
    | inr l ↦ (
      set_inode e closed s,
      rw (closing_eq flushed, l) refl,
      record {
        valid = with_e (d l) l;
        counted = ground (arith, one_less);
        still_denied = ground arith;
        members = λ q. ground (arith, l);
        others = λ q n. ground (arith, n);
        kept = λ x. refl;
        freed = λ x. absurd (true_ne_false (sym x ∙ rw l refl));
      },
    )
  ]
