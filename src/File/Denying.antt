-- ===== src/File/Denying.antt =====
-- filesys/file.c: file_deny_write() of an open file.
use turbo_baker.Prelude.{
  ℕ, ◌+◌, ◌%◌, ◌^◌, ◌<◌, ◌≡◌, refl, inl, inr, true, false, some, List, arith, ◌==◌, ==→eq, ==_refl,
  Bool-cases, count,
}
use turbo_baker.HashTable.{take_out}
use turbo_baker.Inode.{Inodes, set_inode}
use turbo_baker.Inode.Writes.{changed-IsInodes, inode_deny_write-some}
use turbo_baker.File.{Files, set_file, file_deny_write}
use turbo_baker.File.Valid.{tally, tally-take_out, tally-le, tally-same, opens, denies, IsFiles}
use turbo_baker.File.Allowing.{f_ne, other}

module _ (fs : List ℕ) (s : Files) (v : IsFiles fs s) (f : ℕ) (listed : 0 < count f fs)
    (bounded : (s.inodes.inode (s.file f).inode).open_cnt < 2 ^ 31) where
  abbrev e : ℕ
  e = (s.file f).inode

  abbrev more : ℕ
  more = ((s.inodes.inode e).deny_write_cnt + 1) % 2 ^ 32

  abbrev more_denied : Inodes
  more_denied = set_inode e (record (s.inodes.inode e) { deny_write_cnt = more }) s.inodes

  abbrev denying : Files
  denying = set_file f (record (s.file f) { deny_write = true }) (record s { inodes = more_denied })

  same_inode : (g : ℕ) → (denying.file g).inode ≡ (s.file g).inode
  same_inode g = elim (Bool-cases (f == g)) [ inl a ↦ rw (a, ==→eq f g a) refl | inr a ↦ rw a refl ]

  rest_denied :
      (q : ℕ) → tally (denies denying q) (take_out f fs) ≡ tally (denies s q) (take_out f fs)
  rest_denied q =
      tally-same (denies denying q) (denies s q) (take_out f fs)
        (λ g n. rw (other fs s v f listed g n) refl)

  now_denies : (q : ℕ) → denies denying q f ≡ (e == q)
  now_denies q = rw (==_refl f) (ground arith)

  module _ (d : (s.file f).deny_write ≡ false) where
    did_not : (q : ℕ) → denies s q f ≡ false
    did_not q = ground (arith, d)

    room : (s.inodes.inode e).deny_write_cnt < (s.inodes.inode e).open_cnt
    room = ground (
      arith,
      v.denied e (v.on_open f listed),
      v.opened e (v.on_open f listed),
      tally-take_out (denies s e) f fs listed,
      tally-take_out (opens s e) f fs listed,
      did_not e,
      ==_refl e,
      tally-le (denies s e) (opens s e) (take_out f fs) (λ g h. ground (arith, h)),
    )

    denying-IsFiles : IsFiles fs denying
    denying-IsFiles = record {
      inodes = changed-IsInodes s.inodes e more v.inodes (omega (arith, room, bounded));
      distinct = v.distinct;
      no_null = v.no_null;
      on_open = λ g n. ground (arith, v.on_open g n);
      opened = λ q n.
          rw (tally-same (opens denying q) (opens s q) fs (λ g k. rw (same_inode g) refl))
            (ground (arith, v.opened q n));
      denied = λ q n. ground (
        arith,
        tally-take_out (denies denying q) f fs listed,
        tally-take_out (denies s q) f fs listed,
        rest_denied q,
        v.denied q n,
        now_denies q,
        did_not q,
        room,
        bounded,
      );
    }

  -- If each open file is on an open inode, each inode has an opener for each of its files and as
  -- many denials as files that deny writes, and the open inodes are well formed, then
  -- file_deny_write() of an open file whose inode has fewer than 2 ^ 31 openers fails no
  -- assertion; the file then denies writes, every file is on the inode it was on, and all this
  -- holds again.
  pub file_deny_write-IsFiles :
      (s' : Files) × (file_deny_write f s ≡ some s')
      × IsFiles fs s'
      × ((s'.file f).deny_write ≡ true)
      × ((g : ℕ) → (s'.file g).inode ≡ (s.file g).inode)
  unfolding file_deny_write
  file_deny_write-IsFiles = elim (Bool-cases (s.file f).deny_write) [
    | inl d ↦ (s, rw (f_ne fs s v f listed, d) refl, v, d, λ g. refl)
    | inr d ↦ (
      denying,
      rw (f_ne fs s v f listed, d, inode_deny_write-some s.inodes e (room d) bounded) refl,
      denying-IsFiles d,
      rw (==_refl f) refl,
      same_inode,
    )
  ]
