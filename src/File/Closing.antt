-- ===== src/File/Closing.antt =====
-- filesys/file.c: file_close().
use turbo_baker.Prelude.{
  Mem, ℕ, ◌+◌, ◌^◌, ◌≤◌, ◌<◌, ◌≡◌, refl, sym, ◌∙◌, subst, inl, inr, true, false, ◌&&◌, some, List,
  arith, ◌==◌, if◌then◌else◌, ==→eq, ==→ne, ==_refl, Bool-cases, count,
}
use turbo_baker.HashTable.{take_out}
use turbo_baker.Inode.{Inode, Inodes, inode_close}
use turbo_baker.File.{Files, file_close}
use turbo_baker.Inode.Closing.{Marked, Closed, inode_close-Closed}
use turbo_baker.File.Valid.{
  tally, tally-take_out, tally-positive, tally-le, count-take_out_le, opens, denies, IsFiles,
}
use turbo_baker.File.Allowing.{Allowed, f_ne, file_allow_write-Allowed}

-- The sectors of an inode are marked alike when the map and the fields on them are the same.
Marked-same :
    (s s1 : Inodes) (i i1 : Inode)
    → s1.map ≡ s.map
    → i1.sector ≡ i.sector
    → i1.start ≡ i.start
    → i1.length ≡ i.length
    → Marked s i
    → Marked s1 i1
Marked-same s s1 i i1 m p q r k = record {
  bitmap = rw m k.bitmap;
  file = rw m k.file;
  own_inside = rw (m, p) k.own_inside;
  own_used = rw (m, p) k.own_used;
  length_fits = rw r k.length_fits;
  data_inside = rw (m, q, r) k.data_inside;
  data_used = rw (m, q, r) k.data_used;
  apart = rw (p, q, r) k.apart;
}

module _ (fs : List ℕ) (s : Files) (v : IsFiles fs s) (f : ℕ) (listed : 0 < count f fs) where
  abbrev e : ℕ
  e = (s.file f).inode

  module _ (s1 : Files) (a : Allowed fs s f s1) where
    abbrev on : 0 < count e s1.inodes.open_inodes
    on =
        subst (λ (q : ℕ). 0 < count q s1.inodes.open_inodes) (a.same_inode f)
          (a.files.on_open f listed)

    opens_it : (q : ℕ) → opens s1 q f ≡ (e == q)
    opens_it q = rw (a.same_inode f) refl

    not_now : (q : ℕ) → denies s1 q f ≡ false
    not_now q = ground (arith, a.no_longer)

    denies_left : (q : ℕ) → tally (denies s1 q) (take_out f fs) ≡ tally (denies s1 q) fs
    denies_left q = ground (arith, tally-take_out (denies s1 q) f fs listed, not_now q)

    opens_left :
        (q : ℕ)
        → tally (opens s1 q) (take_out f fs) + (if e == q then 1 else 0) ≡ tally (opens s1 q) fs
    opens_left q = ground (arith, tally-take_out (opens s1 q) f fs listed, opens_it q)

    within_openers :
        (q : ℕ) → tally (denies s1 q) (take_out f fs) ≤ tally (opens s1 q) (take_out f fs)
    within_openers q =
        tally-le (denies s1 q) (opens s1 q) (take_out f fs) (λ g h. ground (arith, h))

    -- An opener of the inode of `f` does not deny writes.
    strict : (s1.inodes.inode e).deny_write_cnt < (s1.inodes.inode e).open_cnt
    strict = ground (
      arith,
      a.files.denied e on,
      a.files.opened e on,
      denies_left e,
      opens_left e,
      within_openers e,
    )

    module _ (b : (s1.inodes.inode e).open_cnt < 2 ^ 31) (t : Inodes)
        (c : Closed s1.inodes a.files.inodes e on b t) where
      was_open : (q : ℕ) → 0 < count q t.open_inodes → 0 < count q s1.inodes.open_inodes
      was_open q n = ground (arith, c.members q)

      closed_opened :
          (q : ℕ)
          → 0 < count q t.open_inodes
          → tally (opens s1 q) (take_out f fs) ≤ (t.inode q).open_cnt
      closed_opened q n = elim (Bool-cases (e == q)) [
        | inl same ↦
            subst (λ (x : ℕ). tally (opens s1 x) (take_out f fs) ≤ (t.inode x).open_cnt)
              (==→eq e q same) (ground (arith, c.counted, a.files.opened e on, opens_left e))
        | inr off ↦
            rw (c.others q (λ x. ==→ne e q off (sym x)))
              (ground (arith, a.files.opened q (was_open q n), opens_left q, off))
      ]

      closed_denied :
          (q : ℕ)
          → 0 < count q t.open_inodes
          → tally (denies s1 q) (take_out f fs) ≡ (t.inode q).deny_write_cnt
      closed_denied q n = elim (Bool-cases (e == q)) [
        | inl same ↦
            subst (λ (x : ℕ). tally (denies s1 x) (take_out f fs) ≡ (t.inode x).deny_write_cnt)
              (==→eq e q same) (denies_left e ∙ a.files.denied e on ∙ sym c.still_denied)
        | inr off ↦
            rw (c.others q (λ x. ==→ne e q off (sym x)))
              (denies_left q ∙ a.files.denied q (was_open q n))
      ]

      closed_on_open :
          (g : ℕ) → 0 < count g (take_out f fs) → 0 < count (s1.file g).inode t.open_inodes
      closed_on_open g n =
          let in_fs : 0 < count g fs = omega (arith, n, count-take_out_le g f fs) in
          let opens_one : opens s1 (s1.file g).inode g ≡ true = ==_refl (s1.file g).inode in
          let some_open =
            tally-positive (opens s1 (s1.file g).inode) g (take_out f fs) opens_one n in
          ground (
            arith,
            c.members (s1.file g).inode,
            a.files.on_open g in_fs,
            some_open,
            opens_left (s1.file g).inode,
            a.files.opened (s1.file g).inode (a.files.on_open g in_fs),
            ==→eq e (s1.file g).inode,
          )

      closed-IsFiles : IsFiles (take_out f fs) (record s1 { inodes = t })
      closed-IsFiles = record {
        inodes = c.valid;
        distinct = λ g. omega (arith, count-take_out_le g f fs, v.distinct g);
        no_null = omega (arith, count-take_out_le 0 f fs, v.no_null);
        on_open = closed_on_open;
        opened = closed_opened;
        denied = closed_denied;
      }

    open_same : (s1.inodes.inode e).open_cnt ≡ (s.inodes.inode e).open_cnt
    open_same = rw (a.fields e) refl

    last_same :
        ((s1.inodes.inode e).open_cnt == 1) && (s1.inodes.inode e).removed
        ≡ ((s.inodes.inode e).open_cnt == 1) && (s.inodes.inode e).removed
    last_same = rw (a.fields e) refl

    marks_same : Marked s.inodes (s.inodes.inode e) → Marked s1.inodes (s1.inodes.inode e)
    marks_same =
        Marked-same s.inodes s1.inodes (s.inodes.inode e) (s1.inodes.inode e) a.map
          (rw (a.fields e) refl) (rw (a.fields e) refl) (rw (a.fields e) refl)

    closing :
        (flushed : ℕ → Mem)
        → (s.inodes.inode e).open_cnt < 2 ^ 31
        → (((s.inodes.inode e).open_cnt == 1) && (s.inodes.inode e).removed ≡ true
            → Marked s.inodes (s.inodes.inode e))
        → (t : Inodes) × (inode_close flushed e s1.inodes ≡ some t)
          × IsFiles (take_out f fs) (record s1 { inodes = t })
          × ((t.inode e).open_cnt + 1 ≡ (s.inodes.inode e).open_cnt)
    closing flushed bounded k =
        let b : (s1.inodes.inode e).open_cnt < 2 ^ 31 = omega (arith, open_same, bounded) in
        let (t, done, c) =
          inode_close-Closed s1.inodes a.files.inodes e on b flushed (λ x. strict)
            (λ x. marks_same (k (sym last_same ∙ x))) in
        (t, done, closed-IsFiles b t c, c.counted ∙ open_same)

  -- If each open file is on an open inode, each inode has an opener for each of its files and as
  -- many denials as files that deny writes, and the open inodes are well formed, then file_close()
  -- of an open file whose inode has fewer than 2 ^ 31 openers, with the sectors marked in the map
  -- and the map file open if it is the last opener of a removed inode, fails no assertion; the
  -- inode has one opener less and all this holds of the files that are left.
  pub file_close-IsFiles :
      (flushed : ℕ → Mem)
      → (s.inodes.inode e).open_cnt < 2 ^ 31
      → (((s.inodes.inode e).open_cnt == 1) && (s.inodes.inode e).removed ≡ true
          → Marked s.inodes (s.inodes.inode e))
      → (s' : Files) × (file_close flushed f s ≡ some s')
        × IsFiles (take_out f fs) s'
        × ((s'.inodes.inode e).open_cnt + 1 ≡ (s.inodes.inode e).open_cnt)
  unfolding file_close
  file_close-IsFiles flushed bounded k =
      let (s1, first, a) = file_allow_write-Allowed fs s v f listed in
      let (t, then_, valid, counted) = closing s1 a flushed bounded k in
      (
        record s1 { inodes = t },
        rw (f_ne fs s v f listed, first, a.same_inode f, then_) refl,
        valid,
        counted,
      )

pub file_close-null : (flushed : ℕ → Mem) (s : Files) → file_close flushed 0 s ≡ some s
unfolding file_close
file_close-null flushed s = refl
