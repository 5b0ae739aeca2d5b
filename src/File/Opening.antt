-- ===== src/File/Opening.antt =====
-- filesys/file.c: file_open().
use turbo_baker.Prelude.{
  Mem, ℕ, ◌+◌, ◌^◌, ◌≤◌, ◌<◌, ◌≡◌, refl, sym, ap, ◌∙◌, subst, ◌≢◌, ◌⊎◌, inl, inr, true, false, ◌&&◌,
  some, List, ◌∷◌, arith, ◌==◌, if◌then◌else◌, ==→eq, ==→ne, ne→==, ==_refl, Bool-cases, count,
}
use turbo_baker.Inode.{Inodes}
use turbo_baker.File.{Files, set_file}
use turbo_baker.File.Valid.{tally, tally-positive, tally-le, tally-same, opens, denies, IsFiles}
use turbo_baker.Inode.Closing.{Marked, Closed, inode_close-Closed}
use turbo_baker.File.{file_open}

module _ (fs : List ℕ) (s : Files) (v : IsFiles fs s) (e : ℕ)
    (listed : 0 < count e s.inodes.open_inodes)
    (spare : tally (opens s e) fs < (s.inodes.inode e).open_cnt) where
  e_nz : (e == 0) ≡ false
  e_nz = ne→== e 0 (λ z.
      absurd
        (omega (arith, listed, v.inodes.no_null, ap (λ (x : ℕ). count x s.inodes.open_inodes) z)))

  module _ (fresh : ℕ) (new : count fresh fs ≡ 0) (ne : fresh ≢ 0) where
    abbrev added : Files
    added = set_file fresh (record { inode = e; pos = 0; deny_write = false }) s

    not_new : (g : ℕ) → 0 < count g fs → (fresh == g) ≡ false
    not_new g n = ne→== fresh g (λ z. absurd (omega (arith, n, new, ap (λ (x : ℕ). count x fs) z)))

    opens_same : (q : ℕ) → tally (opens added q) fs ≡ tally (opens s q) fs
    opens_same q = tally-same (opens added q) (opens s q) fs (λ g n. rw (not_new g n) refl)

    denies_same : (q : ℕ) → tally (denies added q) fs ≡ tally (denies s q) fs
    denies_same q = tally-same (denies added q) (denies s q) fs (λ g n. rw (not_new g n) refl)

    new_opens : (q : ℕ) → opens added q fresh ≡ (e == q)
    new_opens q = rw (==_refl fresh) refl

    new_allows : (q : ℕ) → denies added q fresh ≡ false
    new_allows q = rw (==_refl fresh) (ground arith)

    opens_more :
        (q : ℕ)
        → tally (opens added q) (fresh ∷ fs) ≡ (if e == q then 1 else 0) + tally (opens s q) fs
    unfolding tally
    opens_more q = rw (new_opens q, opens_same q) refl

    denies_more : (q : ℕ) → tally (denies added q) (fresh ∷ fs) ≡ tally (denies s q) fs
    unfolding tally
    denies_more q = rw (new_allows q, denies_same q) (omega arith)

    on_inode :
        (g : ℕ) → 0 < count g (fresh ∷ fs) → 0 < count (added.file g).inode s.inodes.open_inodes
    on_inode g n = elim (Bool-cases (fresh == g)) [
      | inl a ↦ rw a listed
      | inr a ↦ rw a (v.on_open g (ground (arith, a, n)))
    ]

    added_opened :
        (q : ℕ)
        → 0 < count q s.inodes.open_inodes
        → tally (opens added q) (fresh ∷ fs) ≤ (s.inodes.inode q).open_cnt
    added_opened q n = elim (Bool-cases (e == q)) [
      | inl a ↦
          subst (λ (x : ℕ). tally (opens added x) (fresh ∷ fs) ≤ (s.inodes.inode x).open_cnt)
            (==→eq e q a) (ground (arith, opens_more e, spare))
      | inr a ↦ ground (arith, opens_more q, a, v.opened q n)
    ]

    added-IsFiles : IsFiles (fresh ∷ fs) added
    added-IsFiles = record {
      inodes = v.inodes;
      distinct = λ g. ground (arith, v.distinct g, new);
      no_null = ground (arith, v.no_null, ne);
      on_open = on_inode;
      opened = added_opened;
      denied = λ q n. denies_more q ∙ v.denied q n;
    }

  strict : (s.inodes.inode e).deny_write_cnt < (s.inodes.inode e).open_cnt
  strict = omega (
    arith,
    spare,
    v.denied e listed,
    tally-le (denies s e) (opens s e) fs (λ g h. ground (arith, h)),
  )

  module _ (b : (s.inodes.inode e).open_cnt < 2 ^ 31) (t : Inodes)
      (c : Closed s.inodes v.inodes e listed b t) where
    was_open : (q : ℕ) → 0 < count q t.open_inodes → 0 < count q s.inodes.open_inodes
    was_open q n = ground (arith, c.members q)

    still_opened : (q : ℕ) → 0 < count q t.open_inodes → tally (opens s q) fs ≤ (t.inode q).open_cnt
    still_opened q n = elim (Bool-cases (e == q)) [
      | inl a ↦
          subst (λ (x : ℕ). tally (opens s x) fs ≤ (t.inode x).open_cnt) (==→eq e q a)
            (omega (arith, c.counted, spare))
      | inr a ↦ rw (c.others q (λ x. ==→ne e q a (sym x))) (v.opened q (was_open q n))
    ]

    still_denies :
        (q : ℕ) → 0 < count q t.open_inodes → tally (denies s q) fs ≡ (t.inode q).deny_write_cnt
    still_denies q n = elim (Bool-cases (e == q)) [
      | inl a ↦
          subst (λ (x : ℕ). tally (denies s x) fs ≡ (t.inode x).deny_write_cnt) (==→eq e q a)
            (v.denied e listed ∙ sym c.still_denied)
      | inr a ↦ rw (c.others q (λ x. ==→ne e q a (sym x))) (v.denied q (was_open q n))
    ]

    still_on : (g : ℕ) → 0 < count g fs → 0 < count (s.file g).inode t.open_inodes
    still_on g n =
        let q : ℕ = (s.file g).inode in
        let some_open = tally-positive (opens s q) g fs (==_refl q) n in
        ground (arith, c.members q, v.on_open g n, some_open, spare, ==→eq e q)

    refused-IsFiles : IsFiles fs (record s { inodes = t })
    refused-IsFiles = record {
      inodes = c.valid;
      distinct = v.distinct;
      no_null = v.no_null;
      on_open = still_on;
      opened = still_opened;
      denied = still_denies;
    }

  -- If each open file is on an open inode, each inode has an opener for each of its files and as
  -- many denials as files that deny writes, and the open inodes are well formed, then for an open
  -- inode with more openers than files and fewer than 2 ^ 31, whose sectors are marked in the map
  -- and the map file open if this is the last opener of a removed inode, file_open() returns what
  -- calloc() gives, memory of no open file or null: all this then holds with the new file on that
  -- inode, or else without it and with one opener less.
  pub file_open-IsFiles :
      (flushed : ℕ → Mem) (fresh : ℕ)
      → count fresh fs ≡ 0
      → (s.inodes.inode e).open_cnt < 2 ^ 31
      → (((s.inodes.inode e).open_cnt == 1) && (s.inodes.inode e).removed ≡ true
          → Marked s.inodes (s.inodes.inode e))
      → (s' : Files) × (file_open flushed fresh e s ≡ some (fresh, s'))
        × IsFiles (if fresh == 0 then fs else fresh ∷ fs) s'
        × ((s'.file fresh).inode ≡ e
            ⊎ (fresh ≡ 0) × ((s'.inodes.inode e).open_cnt + 1 ≡ (s.inodes.inode e).open_cnt))
  unfolding file_open
  file_open-IsFiles flushed fresh new b k = elim (Bool-cases (fresh == 0)) [
    | inl z ↦
        let (t, done, c) =
          inode_close-Closed s.inodes v.inodes e listed b flushed (λ x. strict) k in
        (
          record s { inodes = t },
          rw (e_nz, z, done, ==→eq fresh 0 z) refl,
          rw z (refused-IsFiles b t c),
          inr (==→eq fresh 0 z, c.counted),
        )
    | inr nz ↦ (
      added fresh new (==→ne fresh 0 nz),
      rw (e_nz, nz) refl,
      rw nz (added-IsFiles fresh new (==→ne fresh 0 nz)),
      inl (rw (==_refl fresh) refl),
    )
  ]
