-- ===== src/Str/Span.antt =====
-- What strspn() and strcspn() of lib/string.c return.
use turbo_baker.Prelude.{
  ℕ, zero, suc, ◌+◌, ◌%◌, ◌≤◌, ◌<◌, ◌≡◌, refl, sym, ◌∙◌, subst, ◌⊎◌, inl, inr, Bool, true, false,
  not, some, arith, ◌==◌, same_bool, ==→eq, ==→ne, Bool-cases, Mem, is_some,
}
use turbo_baker.Str.Scan.{IsStr, strchr, strchr_lem, Located, has_byte, span, strspn, strcspn}

-- Whether the character at `a` is in the string of `q` characters at `chars`, as a char.
abbrev pub in_chars : Mem → (chars q a : ℕ) → Bool
in_chars m chars q a = has_byte m chars q (m a % 256)

-- From position `i` on, the run of characters that are in `chars` (`keep` true) or are not
-- (`keep` false) ends at `j`: every position before `j` belongs to it, and `j` does not or is the
-- end of the string of `n` characters at `p`.
pub record Run (keep : Bool) (m : Mem) (p n chars q i j : ℕ) : Type 0 where
  pub from : i ≤ j
  pub upto : j ≤ n
  pub inside : (k : ℕ) → i ≤ k → k < j → in_chars m chars q (p + k) ≡ keep
  pub stops : (j ≡ n) ⊎ (in_chars m chars q (p + j) ≡ not keep)

same_bool-not : (a b : Bool) → same_bool a b ≡ false → a ≡ not b
same_bool-not true true h = cc
same_bool-not true false h = refl
same_bool-not false true h = refl
same_bool-not false false h = cc

same_bool-eq : (a b : Bool) → same_bool a b ≡ true → a ≡ b
same_bool-eq true true h = refl
same_bool-eq true false h = cc
same_bool-eq false true h = cc
same_bool-eq false false h = refl

module _ {m : Mem} {p n chars q : ℕ} (keep : Bool) (limit : ℕ) (s : IsStr m p n)
    (t : IsStr m chars q) (room : q < limit) where
  Run-end : {i : ℕ} → i ≤ n → (m (p + i) == 0) ≡ true → Run keep m p n chars q i i
  Run-end {i} h e = record {
    from = omega arith;
    upto = h;
    inside = λ k a b. absurd (omega arith);
    stops = inl (ground (arith, s.body i));
  }

  Run-stop : {i : ℕ} → i ≤ n → in_chars m chars q (p + i) ≡ not keep → Run keep m p n chars q i i
  Run-stop {i} h e = record {
    from = omega arith;
    upto = h;
    inside = λ k a b. absurd (omega arith);
    stops = inr e;
  }

  Run-suc :
      {i j : ℕ}
      → in_chars m chars q (p + i) ≡ keep
      → Run keep m p n chars q (i + 1) j
      → Run keep m p n chars q i j
  Run-suc {i} {j} e r = record {
    from = omega (arith, r.from);
    upto = r.upto;
    inside = λ k a b. elim (Bool-cases (i == k)) [
      | inl here ↦
          let at : i ≡ k = ==→eq i k here in subst (λ x. in_chars m chars q (p + x) ≡ keep) at e
      | inr later ↦ r.inside k (omega (arith, ==→ne i k later)) b
    ];
    stops = r.stops;
  }

  span-Run :
      (k i : ℕ)
      → i ≤ n
      → n < i + k
      → (j : ℕ) × (span keep limit k m p chars i ≡ some j) × Run keep m p n chars q i j
  unfolding span
  span-Run zero i h l = absurd (omega arith)
  span-Run (suc k) i h l = elim (Bool-cases (m (p + i) == 0)) [
    | inl e ↦ rw e (i, refl, Run-end h e)
    | inr e ↦ next e (strchr_lem limit (m (p + i)) t room) (span-Run k (i + 1))
  ]
    where
      next :
          (m (p + i) == 0) ≡ false
          → (f : Located m chars q (m (p + i) % 256) (strchr limit m chars (m (p + i))))
          → (i + 1 ≤ n
              → n < i + 1 + k
              → (j : ℕ) × (span keep limit k m p chars (i + 1) ≡ some j)
                × Run keep m p n chars q (i + 1) j)
          → (j : ℕ) × (span keep limit (suc k) m p chars i ≡ some j) × Run keep m p n chars q i j
      next e f ih =
          rw (e, f.returned)
            (elim (Bool-cases (same_bool (is_some f.result) keep)) [
              | inl y ↦
                  let (j, r, run) = ih (ground (arith, s.ends)) (omega arith) in
                  (j, rw y r, Run-suc (sym f.known ∙ same_bool-eq _ _ y) run)
              | inr y ↦ (i, rw y refl, Run-stop h (sym f.known ∙ same_bool-not _ _ y))
            ])

-- strspn() returns the length of the longest prefix of the string that consists of characters of
-- `skip`.
pub strspn_lem :
    (limit : ℕ) {m : Mem} {p n skip q : ℕ}
    → IsStr m p n
    → IsStr m skip q
    → n < limit
    → q < limit
    → (j : ℕ) × (strspn limit m p skip ≡ some j) × Run true m p n skip q 0 j
unfolding strspn
strspn_lem limit s t h l = span-Run true limit s t l limit 0 (omega arith) (omega arith)

-- strcspn() returns the length of the longest prefix of the string that has no character of
-- `stop`.
pub strcspn_lem :
    (limit : ℕ) {m : Mem} {p n stop q : ℕ}
    → IsStr m p n
    → IsStr m stop q
    → n < limit
    → q < limit
    → (j : ℕ) × (strcspn limit m p stop ≡ some j) × Run false m p n stop q 0 j
unfolding strcspn
strcspn_lem limit s t h l = span-Run false limit s t l limit 0 (omega arith) (omega arith)
