-- ===== src/Inode/Writes.antt =====
-- filesys/inode.c: the calls that deny writes and allow them again, and inode_remove().
use turbo_baker.Prelude.{
  ◌∙◌, ℕ, ◌+◌, ◌-◌, ◌%◌, ◌^◌, ◌≤◌, ◌<◌, ◌≡◌, refl, ap, fun_ext, inl, inr, true, false, none, some,
  arith, ltb, leb, ◌==◌, if◌then◌else◌, ==→eq, ==_refl, Bool-cases, count,
}
use turbo_baker.Inode.{Inodes, set_inode, inode_deny_write, inode_allow_write}
use turbo_baker.Inode.Opening.{IsInodes}

-- An inode of the table whose counts alone have changed.
pub changed-IsInodes :
    (s : Inodes) (e n : ℕ)
    → IsInodes s
    → n ≤ (s.inode e).open_cnt
    → IsInodes (set_inode e (record (s.inode e) { deny_write_cnt = n }) s)
changed-IsInodes s e n v h = record {
  distinct = v.distinct;
  no_null = v.no_null;
  one = λ f g p q k. v.one f g p q (ground (arith, k));
  opened = λ f p. ground (arith, v.opened f p);
  denied = λ f p. ground (arith, v.denied f p, h);
}

pub inode_allow_write-some :
    (s : Inodes) (e : ℕ)
    → 0 < (s.inode e).deny_write_cnt
    → (s.inode e).deny_write_cnt ≤ (s.inode e).open_cnt
    → inode_allow_write e s
      ≡ some
          (set_inode e (record (s.inode e) { deny_write_cnt = (s.inode e).deny_write_cnt - 1 }) s)
unfolding inode_allow_write
inode_allow_write-some s e p q =
    let positive : ltb 0 (s.inode e).deny_write_cnt ≡ true = ground (arith, p) in
    let bounded : leb (s.inode e).deny_write_cnt (s.inode e).open_cnt ≡ true = ground (arith, q) in
    rw (positive, bounded) refl

pub inode_deny_write-some :
    (s : Inodes) (e : ℕ)
    → (s.inode e).deny_write_cnt < (s.inode e).open_cnt
    → (s.inode e).open_cnt < 2 ^ 31
    → inode_deny_write e s
      ≡ some (
          set_inode e
            (record (s.inode e) { deny_write_cnt = ((s.inode e).deny_write_cnt + 1) % 2 ^ 32 })
            s)
unfolding inode_deny_write
inode_deny_write-some s e p q =
    let bounded : leb (((s.inode e).deny_write_cnt + 1) % 2 ^ 32) (s.inode e).open_cnt ≡ true =
      ground (arith, p, q) in
    rw bounded refl

module _ (s : Inodes) (v : IsInodes s) (e : ℕ) (listed : 0 < count e s.open_inodes)
    (room : (s.inode e).open_cnt < 2 ^ 31) where
  abbrev deny : ℕ
  deny = (s.inode e).deny_write_cnt

  abbrev denied : Inodes
  denied = set_inode e (record (s.inode e) { deny_write_cnt = (deny + 1) % 2 ^ 32 }) s

  restored :
      (m : ℕ) → m ≡ deny → set_inode e (record (denied.inode e) { deny_write_cnt = m }) denied ≡ s
  restored m same = λ i. record s { inode = fun_ext (λ q. each q) i }
    where
      each :
          (q : ℕ)
          → (if e == q then record (denied.inode e) { deny_write_cnt = m } else denied.inode q)
            ≡ s.inode q
      each q = elim (Bool-cases (e == q)) [
        | inl at ↦ rw (at, ==_refl e, same, ==→eq e q at) refl
        | inr off ↦ rw off refl
      ]

  over : deny ≡ (s.inode e).open_cnt → leb ((deny + 1) % 2 ^ 32) (s.inode e).open_cnt ≡ false
  over full = ground (arith, full, room)

  under : deny < (s.inode e).open_cnt → leb ((deny + 1) % 2 ^ 32) (s.inode e).open_cnt ≡ true
  under free = ground (arith, free, room)

  counted : deny < (s.inode e).open_cnt → (denied.inode e).deny_write_cnt ≡ deny + 1
  counted free = ground (arith, free, room)

  allowed : deny < (s.inode e).open_cnt → inode_allow_write e denied ≡ some s
  allowed free =
      inode_allow_write-some denied e (omega (arith, counted free))
        (ground (arith, counted free, free))
      ∙ ap some (restored ((denied.inode e).deny_write_cnt - 1) (omega (arith, counted free)))

  pub inode_deny_write-allow_write :
      (deny ≡ (s.inode e).open_cnt → inode_deny_write e s ≡ none)
      × (deny < (s.inode e).open_cnt
          → (s' : Inodes) × (inode_deny_write e s ≡ some s')
            × IsInodes s'
            × ((s'.inode e).deny_write_cnt ≡ deny + 1)
            × (inode_allow_write e s' ≡ some s))
      × (deny ≡ 0 → inode_allow_write e s ≡ none)
  unfolding inode_deny_write inode_allow_write
  inode_deny_write-allow_write = (
    λ full. rw (over full) refl,
    λ free. (
      denied,
      rw (under free) refl,
      changed-IsInodes s e ((deny + 1) % 2 ^ 32) v (omega (arith, free, room)),
      counted free,
      allowed free,
    ),
    λ z. rw z refl,
  )
