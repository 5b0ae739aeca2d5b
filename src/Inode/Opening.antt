-- ===== src/Inode/Opening.antt =====
-- filesys/inode.c: the invariant of the table of open inodes, and inode_open().
use turbo_baker.Prelude.{
  ℕ, ◌+◌, ◌^◌, ◌≤◌, ◌<◌, ◌≡◌, refl, sym, ap, ◌∙◌, subst, ◌≢◌, ◌⊎◌, inl, inr, true, false, none,
  some, List, [], ◌∷◌, arith, ◌==◌, if◌then◌else◌, ==→eq, ==→ne, ne→==, Bool-cases, Option-cases,
  count,
}
use turbo_baker.Inode.{Inode, Inodes, disk_of, set_inode, find_open, inode_reopen, inode_open}

-- The open inodes are distinct, one for a sector, and each has an opener for each that denies writes.
pub record IsInodes (s : Inodes) : Type 0 where
  pub distinct : (q : ℕ) → count q s.open_inodes ≤ 1
  pub no_null : count 0 s.open_inodes ≡ 0
  pub one :
      (e f : ℕ)
      → 0 < count e s.open_inodes
      → 0 < count f s.open_inodes
      → (s.inode e).sector ≡ (s.inode f).sector
      → e ≡ f
  pub opened : (e : ℕ) → 0 < count e s.open_inodes → 0 < (s.inode e).open_cnt
  pub denied :
      (e : ℕ) → 0 < count e s.open_inodes → (s.inode e).deny_write_cnt ≤ (s.inode e).open_cnt

find_open-some :
    (inode : ℕ → Inode) (sector : ℕ) (es : List ℕ) (e : ℕ)
    → find_open inode sector es ≡ some e
    → (0 < count e es) × ((inode e).sector ≡ sector)
unfolding find_open
find_open-some inode sector [] e h = cc
find_open-some inode sector (x ∷ xs) e h = elim (Bool-cases ((inode x).sector == sector)) [
  | inl at ↦
      let same : x ≡ e = cc (rw at at h) in
      (
        ground (arith, same),
        subst (λ (v : ℕ). (inode v).sector ≡ sector) same (==→eq (inode x).sector sector at),
      )
  | inr not_at ↦
      let (n, p) = find_open-some inode sector xs e (rw not_at at h) in (omega (arith, n), p)
]

find_open-none :
    (inode : ℕ → Inode) (sector : ℕ) (es : List ℕ)
    → find_open inode sector es ≡ none
    → (e : ℕ) → 0 < count e es
    → (inode e).sector ≢ sector
unfolding find_open
find_open-none inode sector [] h e n = absurd (omega arith)
find_open-none inode sector (x ∷ xs) h e n = elim (Bool-cases ((inode x).sector == sector)) [
  | inl at ↦ cc (rw at at h)
  | inr not_at ↦ elim (Bool-cases (e == x)) [
    | inl same ↦
        subst (λ (v : ℕ). (inode v).sector ≢ sector) (sym (==→eq e x same))
          (==→ne (inode x).sector sector not_at)
    | inr other ↦ find_open-none inode sector xs (rw not_at at h) e (sub_one e x xs other n)
  ]
]
  where
    sub_one : (e x : ℕ) (xs : List ℕ) → (e == x) ≡ false → 0 < count e (x ∷ xs) → 0 < count e xs
    sub_one e x xs h n = ground arith

-- How often a sector is open.
unfoldable pub openers : Inodes → ℕ → ℕ
openers s sector = elim (find_open s.inode sector s.open_inodes) [
  | none ↦ 0
  | some e ↦ (s.inode e).open_cnt
]

openers-some :
    (s : Inodes) (sector e : ℕ)
    → find_open s.inode sector s.open_inodes ≡ some e
    → openers s sector ≡ (s.inode e).open_cnt
unfolding openers
openers-some s sector e h = rw (h, openers) refl

openers-none :
    (s : Inodes) (sector : ℕ) → find_open s.inode sector s.open_inodes ≡ none → openers s sector ≡ 0
unfolding openers
openers-none s sector h = rw (h, openers) refl

-- The inode of an open sector is the one that inode_open() finds.
pub find_open_lem :
    (s : Inodes) (e sector : ℕ)
    → IsInodes s
    → 0 < count e s.open_inodes
    → (s.inode e).sector ≡ sector
    → find_open s.inode sector s.open_inodes ≡ some e
find_open_lem s e sector v n at = elim (Option-cases (find_open s.inode sector s.open_inodes)) [
  | inl gone ↦ absurd (find_open-none s.inode sector s.open_inodes gone e n at)
  | inr (f, found) ↦
      let (n', at') = find_open-some s.inode sector s.open_inodes f found in
      found ∙ ap some (v.one f e n' n (at' ∙ sym at))
]

-- A call of inode_open() that returns `e`, and no null pointer.
pub record Opened (s : Inodes) (sector e : ℕ) (s' : Inodes) : Type 0 where
  pub valid : IsInodes s'
  pub listed : 0 < count e s'.open_inodes
  pub at : (s'.inode e).sector ≡ sector
  pub counted : (s'.inode e).open_cnt ≡ openers s sector + 1
  pub loaded :
      openers s sector ≡ 0
      → ((s'.inode e).start ≡ (disk_of (s.map.block sector)).start)
        × ((s'.inode e).length ≡ (disk_of (s.map.block sector)).length)
  pub others :
      (q : ℕ) → q ≢ e → (s'.inode q ≡ s.inode q) × (count q s'.open_inodes ≡ count q s.open_inodes)
  pub map : s'.map ≡ s.map

inode_reopen-same : (e : ℕ) (s : Inodes) → (inode_reopen e s).0 ≡ e
unfolding inode_reopen
inode_reopen-same e s = ground arith

inode_open-found :
    (s : Inodes) (fresh sector e : ℕ)
    → find_open s.inode sector s.open_inodes ≡ some e
    → inode_open fresh sector s ≡ inode_reopen e s
unfolding inode_open
inode_open-found s fresh sector e found = rw (found, inode_open) refl

module _ (s : Inodes) (v : IsInodes s) (fresh sector : ℕ)
    (new : count fresh s.open_inodes ≡ 0) where
  reopened :
      (e : ℕ)
      → find_open s.inode sector s.open_inodes ≡ some e
      → openers s sector + 1 < 2 ^ 31
      → Opened s sector e (inode_reopen e s).1
  unfolding inode_reopen
  reopened e found room =
      let (n, at) = find_open-some s.inode sector s.open_inodes e found in
      let ne : (e == 0) ≡ false =
        ne→== e 0
          (λ z. absurd (omega (arith, n, v.no_null, ap (λ (x : ℕ). count x s.open_inodes) z))) in
      let cnt : openers s sector ≡ (s.inode e).open_cnt = openers-some s sector e found in
      rw ne (record {
        valid = record {
          distinct = v.distinct;
          no_null = v.no_null;
          one = λ f g p q k. v.one f g p q (ground (arith, k));
          opened = λ f p. ground (arith, v.opened f p, room, cnt);
          denied = λ f p. ground (arith, v.denied f p, room, cnt);
        };
        listed = n;
        at = ground (arith, at);
        counted = ground (arith, room, cnt);
        loaded = λ z. absurd (omega (arith, z, cnt, v.opened e n));
        others = λ q k. (ground (arith, k), refl);
        map = refl;
      })

  abbrev first_of : Inode
  first_of = record {
    sector = sector;
    open_cnt = 1;
    removed = false;
    deny_write_cnt = 0;
    start = (disk_of (s.map.block sector)).start;
    length = (disk_of (s.map.block sector)).length;
  }

  put_first :
      find_open s.inode sector s.open_inodes ≡ none
      → fresh ≢ 0
      → Opened s sector fresh
          (set_inode fresh first_of (record s { open_inodes = fresh ∷ s.open_inodes }))
  put_first gone ne =
      let other = find_open-none s.inode sector s.open_inodes gone in
      record {
        valid = record {
          distinct = λ q. ground (arith, v.distinct q, new);
          no_null = ground (arith, v.no_null, ne);
          one = λ f g p q k. only f g p q k other;
          opened = λ f p. ground (arith, v.opened f);
          denied = λ f p. ground (arith, v.denied f);
        };
        listed = ground arith;
        at = ground arith;
        counted = ground (arith, openers-none s sector gone);
        loaded = λ z. (ground arith, ground arith);
        others = λ q k. (ground (arith, k), ground (arith, k));
        map = refl;
      }
    where
      only :
          (f g : ℕ)
          → 0 < count f (fresh ∷ s.open_inodes)
          → 0 < count g (fresh ∷ s.open_inodes)
          → (if fresh == f then first_of else s.inode f).sector
            ≡ (if fresh == g then first_of else s.inode g).sector
          → ((e : ℕ) → 0 < count e s.open_inodes → (s.inode e).sector ≢ sector)
          → f ≡ g
      only f g p q k other = elim (Bool-cases (fresh == f)) [
        | inl a ↦ elim (Bool-cases (fresh == g)) [
          | inl b ↦ sym (==→eq fresh f a) ∙ ==→eq fresh g b
          | inr b ↦ absurd (other g (ground arith) (ground (arith, k)))
        ]
        | inr a ↦ elim (Bool-cases (fresh == g)) [
          | inl b ↦ absurd (other f (ground arith) (ground (arith, k)))
          | inr b ↦ v.one f g (ground arith) (ground arith) (ground (arith, k))
        ]
      ]

  inode_open-new :
      find_open s.inode sector s.open_inodes ≡ none
      → (fresh == 0) ≡ false
      → inode_open fresh sector s
        ≡ (fresh, set_inode fresh first_of (record s { open_inodes = fresh ∷ s.open_inodes }))
  unfolding inode_open
  inode_open-new gone nz = rw (gone, inode_open, nz) refl

  inode_open-failed :
      find_open s.inode sector s.open_inodes ≡ none
      → (fresh == 0) ≡ true
      → inode_open fresh sector s ≡ (0, s)
  unfolding inode_open
  inode_open-failed gone z = rw (gone, inode_open, z) refl

  -- If the open inodes are distinct, one for a sector, and each open at least once, and malloc()
  -- gives memory that is not on the list, inode_open() of a sector that is open fewer than 2 ^ 31
  -- - 1 times returns an inode of that sector that is open once more, and the open inodes are
  -- again so, the others as before; a sector that was not open is loaded from the device; it
  -- returns null only if malloc() does and the sector is not open.
  pub inode_open-Opened :
      openers s sector + 1 < 2 ^ 31
      → (((inode_open fresh sector s).0 ≡ 0)
          × ((inode_open fresh sector s).1 ≡ s)
          × (fresh ≡ 0)
          × (openers s sector ≡ 0))
        ⊎ Opened s sector (inode_open fresh sector s).0 (inode_open fresh sector s).1
  inode_open-Opened room = elim (Option-cases (find_open s.inode sector s.open_inodes)) [
    | inl gone ↦ elim (Bool-cases (fresh == 0)) [
      | inl z ↦
          rw (inode_open-failed gone z)
            (inl (refl, refl, ==→eq fresh 0 z, openers-none s sector gone))
      | inr nz ↦ rw (inode_open-new gone nz) (inr (put_first gone (==→ne fresh 0 nz)))
    ]
    | inr (e, found) ↦
        rw (inode_open-found s fresh sector e found, inode_reopen-same e s)
          (inr (reopened e found room))
  ]

-- While a sector is open, inode_open() returns the inode that it has.
pub inode_open_again :
    (s : Inodes) (e sector fresh : ℕ)
    → IsInodes s
    → 0 < count e s.open_inodes
    → (s.inode e).sector ≡ sector
    → (inode_open fresh sector s).0 ≡ e
inode_open_again s e sector fresh v n at =
    rw (inode_open-found s fresh sector e (find_open_lem s e sector v n at)) (inode_reopen-same e s)
