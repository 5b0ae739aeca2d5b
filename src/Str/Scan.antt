-- ===== src/Str/Scan.antt =====
-- The routines of lib/string.c that walk a string: strlen, strnlen, strchr, strcmp, strspn and
-- strcspn. A walk is given as many steps as there are addresses from its start on; `none` means
-- that it met no end within them, where the code would leave the address space.
use turbo_baker.Prelude.{
  ℕ, zero, suc, ◌+◌, ◌-◌, ◌%◌, ◌≤◌, ◌<◌, min, ◌≡◌, refl, sym, ◌≢◌, inl, inr, Bool, true, false, not,
  ◌&&◌, ◌||◌, Option, none, some, arith, ltb, ◌==◌, if◌then◌else◌, same_bool, ==→eq, ==→ne, ne→==,
  Bool-cases, length, Mem, ◌>>=◌, is_some,
}
use turbo_baker.Str.Block.{Cmp, less, equal, greater, Finds, Finds-suc, avoid-suc}

-- At `p` begins a string of `n` characters.
pub record IsStr (m : Mem) (p n : ℕ) : Type 0 where
  pub body : (i : ℕ) → i < n → m (p + i) ≢ 0
  pub ends : m (p + n) ≡ 0

-- `for (p = string; *p != '\0'; p++)`, and where it stops.
walk : ℕ → Mem → ℕ → Option ℕ
walk zero m p = none
walk (suc k) m p = let rest = walk k m (p + 1) in if m p == 0 then some p else rest

pub strlen : ℕ → Mem → ℕ → Option ℕ
unfolding walk
strlen limit m string = walk limit m string >>= λ p. some (p - string)

-- `for (; string[length] != '\0' && length < maxlen; length++)`
count_to : ℕ → Mem → ℕ → ℕ → ℕ → Option ℕ
count_to zero m string maxlen length = none
count_to (suc k) m string maxlen length =
    let rest = count_to k m string maxlen (length + 1) in
    if not (m (string + length) == 0) && ltb length maxlen then rest else some length

pub strnlen : ℕ → Mem → ℕ → ℕ → Option ℕ
unfolding count_to
strnlen limit m string maxlen = count_to limit m string maxlen 0

-- The inner option is the pointer that is returned, null or not.
find_char : ℕ → Mem → ℕ → ℕ → Option (Option ℕ)
find_char zero m string c = none
find_char (suc k) m string c =
    let rest = find_char k m (string + 1) c in
    if m string == c then some (some string) else if m string == 0 then some none else rest

pub strchr : ℕ → Mem → ℕ → ℕ → Option (Option ℕ)
unfolding find_char
strchr limit m string c = find_char limit m string (c % 256)

unfoldable pub strcmp : ℕ → Mem → ℕ → ℕ → Option Cmp
strcmp zero m a b = none
strcmp (suc k) m a b =
    let rest = strcmp k m (a + 1) (b + 1) in
    if not (m a == 0) && m a == m b
    then rest
    else some (if ltb (m a) (m b) then less else if ltb (m b) (m a) then greater else equal)

-- The loops of strspn (`keep` true) and strcspn (`keep` false): each goes on while the character
-- is found in `set`, or is not.
unfoldable pub span : Bool → ℕ → ℕ → Mem → ℕ → ℕ → ℕ → Option ℕ
span keep limit zero m string chars length = none
span keep limit (suc k) m string chars length =
    let rest = span keep limit k m string chars (length + 1) in
    let here = strchr limit m chars (m (string + length)) in
    if m (string + length) == 0
    then some length
    else (here >>= λ r. if same_bool (is_some r) keep then rest else some length)

unfoldable pub strspn : ℕ → Mem → ℕ → ℕ → Option ℕ
unfolding span
strspn limit m string skip = span true limit limit m string skip 0

unfoldable pub strcspn : ℕ → Mem → ℕ → ℕ → Option ℕ
unfolding span
strcspn limit m string stop = span false limit limit m string stop 0

pub IsStr-tail : {m : Mem} {p n : ℕ} → IsStr m p (suc n) → IsStr m (p + 1) n
IsStr-tail {m} {p} {n} s = record {
  body = λ i l. ground (arith, s.body (suc i));
  ends = ground (arith, s.ends);
}

pub IsStr-head : {m : Mem} {p n : ℕ} → IsStr m p (suc n) → m p ≢ 0
IsStr-head s e = ground (arith, s.body 0)

pub IsStr-nil : {m : Mem} {p : ℕ} → IsStr m p 0 → m p ≡ 0
IsStr-nil s = ground (arith, s.ends)

walk_lem : (k : ℕ) {m : Mem} {p n : ℕ} → IsStr m p n → n < k → walk k m p ≡ some (p + n)
unfolding walk
walk_lem zero s l = absurd (omega arith)
walk_lem (suc k) {m} {p} {n = zero} s l = ground (arith, IsStr-nil s)
walk_lem (suc k) {m} {p} {n = suc n} s l = ground (arith, IsStr-head s, walk_lem k (IsStr-tail s))

-- strlen() of a string is the number of its characters.
pub strlen_lem :
    (limit : ℕ) {m : Mem} {p n : ℕ} → IsStr m p n → n < limit → strlen limit m p ≡ some n
unfolding strlen
strlen_lem limit s l = ground (arith, walk_lem limit s)

count_to_lem :
    (k : ℕ) {m : Mem} {p n : ℕ} (maxlen i : ℕ)
    → IsStr m p n
    → i ≤ min n maxlen
    → n < i + k
    → count_to k m p maxlen i ≡ some (min n maxlen)
unfolding count_to
count_to_lem zero maxlen i s h l = absurd (omega arith)
count_to_lem (suc k) {m} {p} {n} maxlen i s h l =
    ground (arith, s.body i, s.ends, count_to_lem k maxlen (i + 1) s)

-- strnlen() of a string is the number of its characters, or `maxlen` if that is less.
pub strnlen_lem :
    (limit : ℕ) {m : Mem} {p n : ℕ} (maxlen : ℕ)
    → IsStr m p n
    → n < limit
    → strnlen limit m p maxlen ≡ some (min n maxlen)
unfolding strnlen
strnlen_lem limit maxlen s l = count_to_lem limit maxlen 0 s (omega arith) (omega arith)

-- `c` is one of the `n + 1` bytes from `p` on.
unfoldable pub has_byte : Mem → ℕ → ℕ → ℕ → Bool
has_byte m p zero c = m p == c
has_byte m p (suc n) c = m p == c || has_byte m (p + 1) n c

-- What strchr() returns for the string of `n` characters at `p`: the first of its bytes, the
-- terminator included, that is `c`, and null only if none is.
pub record Located (m : Mem) (p n c : ℕ) (out : Option (Option ℕ)) : Type 0 where
  pub result : Option ℕ
  pub returned : out ≡ some result
  pub first : Finds m p c (suc n) result
  pub known : is_some result ≡ has_byte m p n c

has_byte_here : (m : Mem) (p n c : ℕ) → (m p == c) ≡ true → has_byte m p n c ≡ true
unfolding has_byte
has_byte_here m p zero c e = e
has_byte_here m p (suc n) c e = rw e

Located-here : (m : Mem) (p n c : ℕ) → (m p == c) ≡ true → Located m p n c (some (some p))
Located-here m p n c e = record {
  result = some p;
  returned = refl;
  first = (0, omega arith, omega arith, ==→eq _ _ e, λ j h. absurd (omega arith));
  known = sym (has_byte_here m p n c e);
}

Located-end : (m : Mem) (p c : ℕ) → (m p == c) ≡ false → Located m p 0 c (some none)
unfolding has_byte
Located-end m p c e = record {
  result = none;
  returned = refl;
  first = avoid-suc m p c 0 (==→ne _ _ e) (λ i h. absurd (omega arith));
  known = sym e;
}

Located-later :
    {m : Mem} {p n c : ℕ} {out : Option (Option ℕ)}
    → (m p == c) ≡ false
    → Located m (p + 1) n c out
    → Located m p (suc n) c out
unfolding has_byte
Located-later {m} {p} {n} {c} e f = record {
  result = f.result;
  returned = f.returned;
  first = Finds-suc m p c (suc n) f.result (==→ne _ _ e) f.first;
  known = rw e f.known;
}

find_char_lem :
    (k : ℕ) {m : Mem} {p n : ℕ} (c : ℕ) → IsStr m p n → n < k → Located m p n c (find_char k m p c)
unfolding find_char
find_char_lem zero c s l = absurd (omega arith)
find_char_lem (suc k) {m} {p} {n = zero} c s l = elim (Bool-cases (m p == c)) [
  | inl e ↦ rw e (Located-here m p 0 c e)
  | inr e ↦ rw (e, IsStr-nil s) (Located-end m p c e)
]
find_char_lem (suc k) {m} {p} {n = suc n} c s l = elim (Bool-cases (m p == c)) [
  | inl e ↦ rw e (Located-here m p (suc n) c e)
  | inr e ↦
      rw (e, ne→== (m p) 0 (IsStr-head s))
        (Located-later e (find_char_lem k c (IsStr-tail s) (omega arith)))
]

-- strchr() of a string returns the first of its bytes, the terminator included, that is `c` as a
-- char, and the null pointer only if none is.
pub strchr_lem :
    (limit : ℕ) {m : Mem} {p n : ℕ} (c : ℕ)
    → IsStr m p n
    → n < limit
    → Located m p n (c % 256) (strchr limit m p c)
unfolding strchr
strchr_lem limit c s l = find_char_lem limit (c % 256) s l
