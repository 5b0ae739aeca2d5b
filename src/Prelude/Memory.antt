-- ===== src/Prelude/Memory.antt =====
-- Memory as a function from addresses to bytes, and blocks of it.
use Prim.Native.Nat.{ℕ, ◌+◌}
use mathlib.Core.Bool.{Bool, ◌&&◌}
use turbo_baker.Prelude.Tests.{◌==◌, ltb, leb, if◌then◌else◌}

abbrev pub Mem : Type 0
Mem = ℕ → ℕ

-- `*a = v`.
abbrev pub write : Mem → ℕ → ℕ → Mem
write m a v b = if a == b then v else m b

-- `b` lies among the `n` addresses from `a` on.
abbrev pub within : ℕ → ℕ → ℕ → Bool
within a n b = leb a b && ltb b (a + n)
