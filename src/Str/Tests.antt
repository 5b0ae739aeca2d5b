-- ===== src/Str/Tests.antt =====
-- lib/string.c at a memory that holds the strings "ab,b" at 1 and ",a" at 7, and zeros.
use turbo_baker.Prelude.{
  ℕ, zero, suc, ◌+◌, ◌-◌, ◌<◌, min, ◌≡◌, refl, ◌≢◌, inr, some, [], ◌∷◌, arith, ltb, if◌then◌else◌,
  get_or, Mem, within,
}
use turbo_baker.Str.Block.{memmove, memmove_lem, memmove_pointer}
use turbo_baker.Str.Scan.{IsStr}
use turbo_baker.Str.Copy.{strlcpy, Copied, strlcpy_lem}
use turbo_baker.Str.Token.{strtok_r, resume}
use turbo_baker.Str.Token.Split.{Outcome, strtok_r_lem}

abbrev text : Mem
text a = get_or (0 ∷ 97 ∷ 98 ∷ 44 ∷ 98 ∷ 0 ∷ 0 ∷ 44 ∷ 97 ∷ 0 ∷ []) a 0

word-IsStr : IsStr text 1 4
word-IsStr = record { body = body; ends = refl }
  where
    body : (i : ℕ) → i < 4 → text (1 + i) ≢ 0
    body zero h = omega arith
    body (suc zero) h = omega arith
    body (suc (suc zero)) h = omega arith
    body (suc (suc (suc zero))) h = omega arith
    body (suc (suc (suc (suc i)))) h = absurd (omega arith)

marks-IsStr : IsStr text 7 2
marks-IsStr = record { body = body; ends = refl }
  where
    body : (i : ℕ) → i < 2 → text (7 + i) ≢ 0
    body zero h = omega arith
    body (suc zero) h = omega arith
    body (suc (suc i)) h = absurd (omega arith)

memmove_lem_example :
    (memmove text 2 1 4).1 5 ≡ (if within 2 4 5 then text (1 + (5 - 2)) else text 5)
memmove_lem_example = memmove_lem text 2 1 4 5

memmove_pointer_example : (memmove text 1 2 4).0 ≡ (if ltb 1 2 then 1 + 4 else 1)
memmove_pointer_example = memmove_pointer text 1 2 4

strlcpy_lem_example :
    (m' : Mem) × (strlcpy 10 text 20 1 3 ≡ some (4, m'))
    × ((0 < 3) → IsStr m' 20 (min 4 (3 - 1)) × Copied text 20 1 (min 4 (3 - 1)) m')
    × (◌≡◌ {A = ℕ} 3 0 → m' ≡ text)
strlcpy_lem_example = strlcpy_lem 10 20 3 word-IsStr (omega arith) (inr (omega arith))

strtok_r_lem_example : Outcome text (resume (some 1) 0) 4 7 2 (strtok_r 10 text (some 1) 7 0)
strtok_r_lem_example = strtok_r_lem 10 (some 1) 0 word-IsStr marks-IsStr (omega arith) (omega arith)
