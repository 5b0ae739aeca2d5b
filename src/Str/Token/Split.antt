-- ===== src/Str/Token/Split.antt =====
-- What a call of strtok_r() does with the string that it is given or resumes.
use turbo_baker.Prelude.{
  ℕ, zero, suc, ◌+◌, ◌≤◌, ◌<◌, ◌≡◌, refl, sym, ap, ◌∙◌, subst, ◌⊎◌, inl, inr, Bool, true, false,
  Option, none, some, arith, ◌==◌, ==→eq, ==→ne, Bool-cases, Mem, write, ◌>>=◌, is_some,
  true_ne_false,
}
use turbo_baker.Str.Scan.{IsStr, strchr, strchr_lem, has_byte}
use turbo_baker.Str.Span.{in_chars}
use turbo_baker.Str.Token.{skip, token_end, Tokens, cut, from_start, resume, strtok_r}

-- In the string of `n` characters at `s` the first token is at positions `i` up to `j`.
pub record IsToken (m : Mem) (s n d q i j : ℕ) : Type 0 where
  pub ordered : i < j
  pub inside : j ≤ n
  pub before : (k : ℕ) → k < i → in_chars m d q (s + k) ≡ true
  pub within_token : (k : ℕ) → i ≤ k → k < j → in_chars m d q (s + k) ≡ false
  pub after : (j ≡ n) ⊎ (in_chars m d q (s + j) ≡ true)

-- The string has no token: it holds delimiters only.
abbrev pub Blank : Mem → (s n d q : ℕ) → Type 0
Blank m s n d q = (k : ℕ) → k < n → in_chars m d q (s + k) ≡ true

-- A terminator is found in every string of delimiters.
has_byte-zero : (m : Mem) (d q : ℕ) → m (d + q) ≡ 0 → has_byte m d q 0 ≡ true
unfolding has_byte
has_byte-zero m d zero e = ground arith
has_byte-zero m d (suc q) e = ground (arith, has_byte-zero m (d + 1) q)

-- The outcome of a call on the string: no token, or the first, ended by a terminator of its own.
pub data Outcome (m : Mem) (s n d q : ℕ) (out : Option Tokens) : Type 0 where
  no_token :
      out ≡ some (record { mem = m; save = s + n; token = none })
      → Blank m s n d q
      → Outcome m s n d q out
  last_token :
      (i : ℕ)
      → out ≡ some (record { mem = m; save = s + n; token = some (s + i) })
      → IsToken m s n d q i n
      → Outcome m s n d q out
  next_token :
      (i j : ℕ)
      → out ≡ some (record { mem = write m (s + j) 0; save = s + j + 1; token = some (s + i) })
      → IsToken m s n d q i j
      → j < n
      → Outcome m s n d q out

module _ {m : Mem} {s n d q : ℕ} (limit : ℕ) (line : IsStr m s n) (delims : IsStr m d q)
    (room : q < limit) where
  -- What the test `strchr (delimiters, *s) != NULL` comes to.
  Probe : ℕ → Option (Option ℕ) → Type 0
  Probe a out = (r : Option ℕ) × (out ≡ some r) × (is_some r ≡ in_chars m d q a)

  probe : (a : ℕ) → Probe a (strchr limit m d (m a))
  unfolding Probe
  probe a = let f = strchr_lem limit (m a) delims room in (f.result, f.returned, f.known)

  zero_in : (i : ℕ) → (m (s + i) == 0) ≡ true → in_chars m d q (s + i) ≡ true
  zero_in i e = rw (==→eq (m (s + i)) 0 e) (has_byte-zero m d q delims.ends)

  end_of_zero : (i : ℕ) → i ≤ n → (m (s + i) == 0) ≡ true → i ≡ n
  end_of_zero i h e = ground (arith, line.body i)

  zero_at_end : (m (s + n) == 0) ≡ true
  zero_at_end = ground (arith, line.ends)

  lt_of_outside : (i : ℕ) → i ≤ n → in_chars m d q (s + i) ≡ false → i < n
  lt_of_outside i h e = elim (Bool-cases (i == n)) [
    | inl at ↦
        let here : (m (s + i) == 0) ≡ true =
          subst (λ x. (m (s + x) == 0) ≡ true) (sym (==→eq i n at)) zero_at_end in
        absurd (true_ne_false (sym (zero_in i here) ∙ e))
    | inr ne ↦ omega (arith, ==→ne i n ne)
  ]

  step : (i : ℕ) → s + (i + 1) ≡ s + i + 1
  step i = omega arith

  extend :
      (i : ℕ) (b : Bool)
      → ((j : ℕ) → j < i → in_chars m d q (s + j) ≡ b)
      → in_chars m d q (s + i) ≡ b
      → (j : ℕ) → j < i + 1
      → in_chars m d q (s + j) ≡ b
  extend i b h e j l = elim (Bool-cases (j == i)) [
    | inl at ↦ subst (λ x. in_chars m d q (s + x) ≡ b) (sym (==→eq j i at)) e
    | inr ne ↦ h j (omega (arith, ==→ne j i ne))
  ]

  data Skipped (out : Option (ℕ ⊎ ℕ)) : Type 0 where
    blank : out ≡ some (inr (s + n)) → Blank m s n d q → Skipped out
    starts :
        (b : ℕ)
        → out ≡ some (inl (s + b))
        → b < n
        → Blank m s b d q
        → in_chars m d q (s + b) ≡ false
        → Skipped out

  skip_lem : (k i : ℕ) → i ≤ n → n < i + k → Blank m s i d q → Skipped (skip limit k m d (s + i))
  unfolding skip Probe
  skip_lem zero i h l before = absurd (omega arith)
  skip_lem (suc k) i h l before = case (probe (s + i)) (skip_lem k (i + 1))
    where
      case :
          Probe (s + i) (strchr limit m d (m (s + i)))
          → (i + 1 ≤ n
              → n < i + 1 + k
              → Blank m s (i + 1) d q
              → Skipped (skip limit k m d (s + (i + 1))))
          → Skipped (skip limit (suc k) m d (s + i))
      case (r, e, known) ih = rw e (elim (Bool-cases (is_some r)) [
        | inr out ↦
            let outside : in_chars m d q (s + i) ≡ false = sym known ∙ out in
            rw out (starts i refl (lt_of_outside i h outside) before outside)
        | inl found ↦ rw found (elim (Bool-cases (m (s + i) == 0)) [
          | inl z ↦
              let at = end_of_zero i h z in
              rw z
                (blank (ap (λ x. some (inr (s + x))) at) (subst (λ x. Blank m s x d q) at before))
          | inr nz ↦ rw nz (
              subst (λ x. Skipped (skip limit k m d x)) (step i)
                (ih (ground (arith, zero_at_end)) (omega arith)
                  (extend i true before (sym known ∙ found))))
        ])
      ])

  start : n < limit → Skipped (skip limit limit m d s)
  start l =
      subst (λ x. Skipped (skip limit limit m d x)) (omega arith)
        (skip_lem limit 0 (omega arith) (omega arith) (λ k h. absurd (omega arith)))

  record Ended (b : ℕ) (out : Option ℕ) : Type 0 where
    to : ℕ
    returned : out ≡ some (s + to)
    ordered : b ≤ to
    inside : to ≤ n
    run : (j : ℕ) → b ≤ j → j < to → in_chars m d q (s + j) ≡ false
    hit : in_chars m d q (s + to) ≡ true

  token_end_lem :
      (k i b : ℕ)
      → b ≤ i
      → i ≤ n
      → n < i + k
      → ((j : ℕ) → b ≤ j → j < i → in_chars m d q (s + j) ≡ false)
      → Ended b (token_end limit k m d (s + i))
  unfolding token_end Probe
  token_end_lem zero i b o h l run = absurd (omega arith)
  token_end_lem (suc k) i b o h l run = case (probe (s + i)) (token_end_lem k (i + 1) b)
    where
      case :
          Probe (s + i) (strchr limit m d (m (s + i)))
          → (b ≤ i + 1
              → i + 1 ≤ n
              → n < i + 1 + k
              → ((j : ℕ) → b ≤ j → j < i + 1 → in_chars m d q (s + j) ≡ false)
              → Ended b (token_end limit k m d (s + (i + 1))))
          → Ended b (token_end limit (suc k) m d (s + i))
      case (r, e, known) ih = rw e (elim (Bool-cases (is_some r)) [
        | inl found ↦ rw found (record {
          to = i;
          returned = refl;
          ordered = o;
          inside = h;
          run = run;
          hit = sym known ∙ found;
        })
        | inr out ↦
            let outside : in_chars m d q (s + i) ≡ false = sym known ∙ out in
            rw out (
              subst (λ x. Ended b (token_end limit k m d x)) (step i)
                (ih (omega arith) (omega (arith, lt_of_outside i h outside)) (omega arith)
                  (λ j p l'. elim (Bool-cases (j == i)) [
                    | inl at ↦
                        subst (λ x. in_chars m d q (s + x) ≡ false) (sym (==→eq j i at)) outside
                    | inr ne ↦ run j p (omega (arith, ==→ne j i ne))
                  ])))
      ])

  from_start-Outcome :
      n < limit
      → Skipped (skip limit limit m d s)
      → Outcome m s n d q (skip limit limit m d s >>= from_start limit m d)
  unfolding from_start cut
  from_start-Outcome l (blank e h) = rw e (no_token refl h)
  from_start-Outcome l (starts b e lt before outside) = rw e (
      finish (
        token_end_lem limit b b (omega arith) (omega arith) (omega arith)
          (λ j p q'. absurd (omega arith))))
    where
      finish :
          Ended b (token_end limit limit m d (s + b))
          → Outcome m s n d q (token_end limit limit m d (s + b) >>= λ e'. some (cut m (s + b) e'))
      finish r = rw r.returned (elim (Bool-cases (m (s + r.to) == 0)) [
        | inl z ↦
            let at = end_of_zero r.to r.inside z in
            rw z (
              subst
                (λ x.
                  Outcome m s n d q (some (record { mem = m; save = s + x; token = some (s + b) })))
                (sym at)
                (last_token b refl (subst (λ x. IsToken m s n d q b x) at (found r (inl at)))))
        | inr nz ↦
            rw nz
              (next_token b r.to refl (found r (inr r.hit)) (ground (arith, zero_at_end, r.inside)))
      ])
        where
          found :
              (r : Ended b (token_end limit limit m d (s + b)))
              → (r.to ≡ n) ⊎ (in_chars m d q (s + r.to) ≡ true)
              → IsToken m s n d q b r.to
          found r after = record {
            ordered = elim (Bool-cases (b == r.to)) [
              | inl at ↦
                  let here : in_chars m d q (s + r.to) ≡ false =
                    subst (λ x. in_chars m d q (s + x) ≡ false) (==→eq b r.to at) outside in
                  absurd (true_ne_false (sym r.hit ∙ here))
              | inr ne ↦ omega (arith, ==→ne b r.to ne, r.ordered)
            ];
            inside = r.inside;
            before = before;
            within_token = r.run;
            after = after;
          }

-- A call on a string of `n` characters, the argument or the rest that was saved: it returns null
-- and leaves the memory as it was if the string holds delimiters only, and else returns the first
-- token, the longest run of characters that are no delimiters behind a run of delimiters. The
-- token is ended by a terminator that is written over the delimiter behind it, and the saved
-- position is just behind that, or is the end of the string if the token is last.
pub strtok_r_lem :
    (limit : ℕ) (s : Option ℕ) (save : ℕ) {m : Mem} {n d q : ℕ}
    → IsStr m (resume s save) n
    → IsStr m d q
    → n < limit
    → q < limit
    → Outcome m (resume s save) n d q (strtok_r limit m s d save)
unfolding strtok_r
strtok_r_lem limit s save line delims l room =
    from_start-Outcome limit line delims room l (start limit line delims room l)
