-- ===== src/Str/Token.antt =====
-- strtok_r() of lib/string.c, by which the kernel splits a command line.
pub mod Split
use turbo_baker.Prelude.{
  ℕ, zero, suc, ◌+◌, ◌-◌, ◌*◌, ◌/◌, ◌%◌, ◌^◌, ◌≤◌, ◌<◌, min, max, ◌≡◌, refl, sym, ap, ◌∙◌, subst,
  fun_ext, ◌≢◌, ◌↔◌, ◌⊎◌, inl, inr, Bool, true, false, not, ◌&&◌, ◌||◌, Option, none, some, List,
  [], ◌∷◌, ◌++◌, map, arith, ltb, leb, ◌==◌, if◌then◌else◌, same_bool, ltb→lt, ltb→ge, leb→le,
  leb→gt, ==→eq, ==→ne, ne→==, ==_refl, tests, Bool-cases, Option-cases, length, get_or, set,
  replicate, length-append, length-set, length-replicate, get_or-set_self, get_or-set_ne, Mem,
  write, within, ◌>>=◌, is_some,
}
use turbo_baker.Str.Scan.{IsStr, strchr, strchr_lem, Located, has_byte}
use turbo_baker.Str.Span.{in_chars}

-- The first loop: where the token begins, or `inr` the place of the terminator.
skip : ℕ → ℕ → Mem → (delimiters s : ℕ) → Option (ℕ ⊎ ℕ)
skip limit zero m delimiters s = none
skip limit (suc k) m delimiters s =
    let rest = skip limit k m delimiters (s + 1) in
    strchr limit m delimiters (m s) >>= λ r.
    if is_some r then (if m s == 0 then some (inr s) else rest) else some (inl s)

-- The second loop: where the token ends.
token_end : ℕ → ℕ → Mem → (delimiters s : ℕ) → Option ℕ
token_end limit zero m delimiters s = none
token_end limit (suc k) m delimiters s =
    let rest = token_end limit k m delimiters (s + 1) in
    strchr limit m delimiters (m s) >>= λ r. if is_some r then some s else rest

-- What a call leaves: the memory, `*save_ptr`, and the pointer that it returns (`none` is null).
pub record Tokens : Type 0 where
  pub mem : Mem
  pub save : ℕ
  pub token : Option ℕ

cut : Mem → (token s : ℕ) → Tokens
cut m token s =
    if not (m s == 0)
    then record { mem = write m s 0; save = s + 1; token = some token }
    else record { mem = m; save = s; token = some token }

from_start : ℕ → Mem → ℕ → ℕ ⊎ ℕ → Option Tokens
unfolding token_end cut
from_start limit m delimiters (inr s) = some (record { mem = m; save = s; token = none })
from_start limit m delimiters (inl s) =
    token_end limit limit m delimiters s >>= λ e. some (cut m s e)

-- `if (s == NULL) s = *save_ptr;`, where `none` is the null pointer.
abbrev pub resume : Option ℕ → ℕ → ℕ
resume none save = save
resume (some s) save = s

pub strtok_r : ℕ → Mem → (s : Option ℕ) → (delimiters save : ℕ) → Option Tokens
unfolding skip from_start
strtok_r limit m s delimiters save =
    skip limit limit m delimiters (resume s save) >>= from_start limit m delimiters
