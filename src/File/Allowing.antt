-- ===== src/File/Allowing.antt =====
-- filesys/file.c: file_allow_write() of an open file.
use turbo_baker.Prelude.{
  ℕ, ◌-◌, ◌<◌, ◌≡◌, refl, sym, ap, subst, inl, inr, true, false, some, List, arith, ◌==◌, ==→eq,
  ne→==, ==_refl, Bool-cases, count,
}
use turbo_baker.HashTable.{take_out}
use turbo_baker.Inode.{Inodes, set_inode}
use turbo_baker.File.{Files, set_file, file_allow_write}
use turbo_baker.Inode.Writes.{changed-IsInodes, inode_allow_write-some}
use turbo_baker.File.Valid.{
  tally, tally-take_out, tally-same, count-take_out_self, opens, denies, IsFiles,
}

-- file_allow_write() of an open file.
pub record Allowed (fs : List ℕ) (s : Files) (f : ℕ) (s1 : Files) : Type 0 where
  pub files : IsFiles fs s1
  pub same_inode : (g : ℕ) → (s1.file g).inode ≡ (s.file g).inode
  pub no_longer : (s1.file f).deny_write ≡ false
  pub fields :
      (q : ℕ)
      → s1.inodes.inode q
        ≡ record (s.inodes.inode q) { deny_write_cnt = (s1.inodes.inode q).deny_write_cnt }
  pub map : s1.inodes.map ≡ s.inodes.map

module _ (fs : List ℕ) (s : Files) (v : IsFiles fs s) (f : ℕ) (listed : 0 < count f fs) where
  abbrev e : ℕ
  e = (s.file f).inode

  pub f_ne : (f == 0) ≡ false
  f_ne = ne→== f 0 (λ z. absurd (omega (arith, listed, v.no_null, ap (λ (x : ℕ). count x fs) z)))

  pub other : (g : ℕ) → 0 < count g (take_out f fs) → (f == g) ≡ false
  other g n = elim (Bool-cases (f == g)) [
    | inl a ↦ absurd (
        omega (
          arith,
          v.distinct f,
          count-take_out_self f fs listed,
          subst (λ (x : ℕ). 0 < count x (take_out f fs)) (sym (==→eq f g a)) n,
        ))
    | inr a ↦ a
  ]

  abbrev less_denied : Inodes
  less_denied =
      set_inode e
        (record (s.inodes.inode e) { deny_write_cnt = (s.inodes.inode e).deny_write_cnt - 1 })
        s.inodes

  abbrev allowed : Files
  allowed =
      set_file f (record (s.file f) { deny_write = false }) (record s { inodes = less_denied })

  some_denied : (s.file f).deny_write ≡ true → 0 < (s.inodes.inode e).deny_write_cnt
  some_denied d =
      let here : denies s e f ≡ true = rw (==_refl e) d in
      ground (arith, v.denied e (v.on_open f listed), tally-take_out (denies s e) f fs listed, here)

  rest_denied :
      (q : ℕ) → tally (denies allowed q) (take_out f fs) ≡ tally (denies s q) (take_out f fs)
  rest_denied q =
      tally-same (denies allowed q) (denies s q) (take_out f fs) (λ g n. rw (other g n) refl)

  same_inode : (g : ℕ) → (allowed.file g).inode ≡ (s.file g).inode
  same_inode g = elim (Bool-cases (f == g)) [ inl a ↦ rw (a, ==→eq f g a) refl | inr a ↦ rw a refl ]

  now_allowed : (allowed.file f).deny_write ≡ false
  now_allowed = rw (==_refl f) refl

  not_denies : (q : ℕ) → denies allowed q f ≡ false
  not_denies q = rw (==_refl f) (ground arith)

  did_deny : (q : ℕ) → (s.file f).deny_write ≡ true → denies s q f ≡ (e == q)
  did_deny q d = ground (arith, d)

  allowed-IsFiles : (s.file f).deny_write ≡ true → IsFiles fs allowed
  allowed-IsFiles d = record {
    inodes =
        changed-IsInodes s.inodes e ((s.inodes.inode e).deny_write_cnt - 1) v.inodes
          (omega (arith, v.inodes.denied e (v.on_open f listed)));
    distinct = v.distinct;
    no_null = v.no_null;
    on_open = λ g n. ground (arith, v.on_open g n);
    opened = λ q n.
        rw (tally-same (opens allowed q) (opens s q) fs (λ g k. rw (same_inode g) refl))
          (ground (arith, v.opened q n));
    denied = λ q n. ground (
      arith,
      tally-take_out (denies allowed q) f fs listed,
      tally-take_out (denies s q) f fs listed,
      rest_denied q,
      v.denied q n,
      not_denies q,
      did_deny q d,
      some_denied d,
    );
  }

  other_fields :
      (q : ℕ)
      → less_denied.inode q
        ≡ record (s.inodes.inode q) { deny_write_cnt = (less_denied.inode q).deny_write_cnt }
  other_fields q = elim (Bool-cases (e == q)) [
    | inl a ↦ rw (a, ==→eq e q a) refl
    | inr a ↦ rw a refl
  ]

  pub file_allow_write-Allowed : (s1 : Files) × (file_allow_write f s ≡ some s1) × Allowed fs s f s1
  unfolding file_allow_write
  file_allow_write-Allowed = elim (Bool-cases (s.file f).deny_write) [
    | inl d ↦
        let done =
          inode_allow_write-some s.inodes e (some_denied d)
            (v.inodes.denied e (v.on_open f listed)) in
        (
          allowed,
          rw (f_ne, d, done) refl,
          record {
            files = allowed-IsFiles d;
            same_inode = same_inode;
            no_longer = now_allowed;
            fields = other_fields;
            map = refl;
          },
        )
    | inr d ↦ (
      s,
      rw (f_ne, d) refl,
      record { files = v; same_inode = λ g. refl; no_longer = d; fields = λ q. refl; map = refl },
    )
  ]
